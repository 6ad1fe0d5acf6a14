-- ===== src/Injector/Annotations.antt =====
-- The annotation readers and constants of pkg/injector/pod_patch.go.
pub mod Laws
use rusi.Prelude.{
  String, Option, none, some, Bool, true, false, ◌||◌, ◌&&◌, not, ◌==◌, if◌then◌else◌,
}
use rusi.Prelude.Int.{ℤ, pos}
use rusi.Prelude.Dict.{Dict, lookup}
use rusi.Prelude.Text.{to_lower}
use rusi.Prelude.Number.{parse_int32}

abbrev pub rusi_enabled_key : String
rusi_enabled_key = "rusi.io/enabled"

abbrev pub rusi_config_key : String
rusi_config_key = "rusi.io/config"

abbrev pub app_id_key : String
app_id_key = "rusi.io/app-id"

abbrev pub rusi_log_level : String
rusi_log_level = "rusi.io/log-level"

abbrev pub rusi_enable_metrics_key : String
rusi_enable_metrics_key = "rusi.io/enable-metrics"

abbrev pub rusi_metrics_port_key : String
rusi_metrics_port_key = "rusi.io/metrics-port"

abbrev pub rusi_enable_debug_key : String
rusi_enable_debug_key = "rusi.io/enable-debug"

abbrev pub rusi_debug_port_key : String
rusi_debug_port_key = "rusi.io/debug-port"

abbrev pub default_log_level : String
default_log_level = "2"

abbrev pub default_config_name : String
default_config_name = "default"

pub get_bool_annotation_or_default : Dict String → String → Bool → Bool
get_bool_annotation_or_default annotations key default_value = elim (lookup key annotations) [
  | none ↦ default_value
  | some enabled ↦
      let s = to_lower enabled in
      (s == "y") || (s == "yes") || (s == "true") || (s == "on") || (s == "1")
]

-- `val, ok := annotations[key]; ok && val != ""`
pub get_string_annotation_or_default : Dict String → String → String → String
get_string_annotation_or_default annotations key default_value = elim (lookup key annotations) [
  | none ↦ default_value
  | some val ↦ if val == "" then default_value else val
]

pub get_int32_annotation_or_default : Dict String → String → ℤ → ℤ
get_int32_annotation_or_default annotations key default_value = elim (lookup key annotations) [
  | none ↦ default_value
  | some s ↦ elim (parse_int32 s) [ none ↦ default_value | some value ↦ value ]
]

unfoldable pub get_config : Dict String → String
unfolding get_string_annotation_or_default
get_config annotations =
    get_string_annotation_or_default annotations rusi_config_key default_config_name

unfoldable pub get_enable_debug : Dict String → Bool
unfolding get_bool_annotation_or_default
get_enable_debug annotations =
    get_bool_annotation_or_default annotations rusi_enable_debug_key false

unfoldable pub get_debug_port : Dict String → ℤ
unfolding get_int32_annotation_or_default
get_debug_port annotations =
    get_int32_annotation_or_default annotations rusi_debug_port_key (pos 40000)

unfoldable pub get_app_id : String → Dict String → String
unfolding get_string_annotation_or_default
get_app_id pod_name annotations = get_string_annotation_or_default annotations app_id_key pod_name

unfoldable pub get_log_level : Dict String → String
unfolding get_string_annotation_or_default
get_log_level annotations =
    get_string_annotation_or_default annotations rusi_log_level default_log_level

unfoldable pub get_enable_metrics : Dict String → Bool
unfolding get_bool_annotation_or_default
get_enable_metrics annotations =
    get_bool_annotation_or_default annotations rusi_enable_metrics_key true

pub get_metrics_port : Dict String → ℤ
unfolding get_int32_annotation_or_default
get_metrics_port annotations =
    get_int32_annotation_or_default annotations rusi_metrics_port_key (pos 9090)

unfoldable pub is_resource_rusi_enabled : Dict String → Bool
unfolding get_bool_annotation_or_default
is_resource_rusi_enabled annotations =
    get_bool_annotation_or_default annotations rusi_enabled_key false
