-- ===== src/Injector/Sidecar.antt =====
-- The sidecar container: getSidecarContainer of pkg/injector/pod_patch.go.
pub mod Laws
use text.Mathlib.Text.{starts_with}
use rusi.Prelude.{
  ℕ, zero, suc, ◌+◌, ◌-◌, ◌*◌, ◌/◌, ◌%◌, ◌^◌, ◌≤◌, ◌<◌, String, ◌≡◌, refl, sym, ap, ◌∙◌, subst, ◌≢◌,
  ◌↔◌, ◌⊎◌, inl, inr, Bool, true, false, not, ◌&&◌, ◌||◌, Option, none, some, List, [], ◌∷◌, ◌++◌,
  map, append_assoc, append-nil, arith, ◌==◌, eq_iff, eq_refl, ltb, leb, beq, if◌then◌else◌,
  Bool-cases, Option-cases, length, is_empty, any, length-append, any-append_right, All, All-append,
  Error, Result, ok, err, ◌>>=◌, ◌>>◌, fail_if, Result-cases,
}
use rusi.Prelude.Int.{ℤ, pos, negsuc, pos_part, neg_part, neg, ltb_ℤ, IsSigned, to_uint64, to_int64}
use rusi.Prelude.Dict.{
  Dict, lookup, insert, delete, lookup-insert, lookup-delete, lookup-empty, dict_laws, get,
}
use rusi.Prelude.Text.{◌⊕◌, single, to_lower, to_lower-append, split, trim_space, replace_char}
use rusi.Prelude.Number.{parse_uint64, parse_int32, parse_int32-IsSigned, parse_uint64-lt, itoa}
use rusi.Prelude.Paths.{path_join}
use rusi.Injector.Kube.{
  EnvVar, VolumeMount, ContainerPort, Probe, ResourceRequirements, PullPolicy, always, never,
  if_not_present, Container,
}
use rusi.Injector.Annotations.{
  get_config, get_enable_debug, get_debug_port, get_log_level, get_enable_metrics,
  get_int32_annotation_or_default,
}
use rusi.Injector.EnvString.{parse_env_string}
use rusi.Injector.Resources.{get_resource_requirements}

abbrev pub rusi_env_key : String
rusi_env_key = "rusi.io/env"

abbrev pub sidecar_container_name : String
sidecar_container_name = "rusid"

abbrev pub sidecar_api_grpc_port : ℤ
sidecar_api_grpc_port = pos 50003

abbrev pub sidecar_diagnostics_port : ℤ
sidecar_diagnostics_port = pos 8080

pub format_probe_path : List String → String
format_probe_path elements =
    let path_str = path_join elements in
    if starts_with path_str "/" then path_str else "/" ⊕ path_str

-- the probe over getProbeHTTPHandler, with the four annotations that begin with `prefix`
pub probe : Dict String → String → Probe
unfolding format_probe_path
probe annotations prefix = record {
  path = format_probe_path ("healthz" ∷ []);
  port = sidecar_diagnostics_port;
  initial_delay_seconds =
      get_int32_annotation_or_default annotations (prefix ⊕ "-delay-seconds") (pos 3);
  timeout_seconds =
      get_int32_annotation_or_default annotations (prefix ⊕ "-timeout-seconds") (pos 3);
  period_seconds =
      get_int32_annotation_or_default annotations (prefix ⊕ "-period-seconds") (pos 15);
  failure_threshold = get_int32_annotation_or_default annotations (prefix ⊕ "-threshold") (pos 3);
}

pub get_pull_policy : String → PullPolicy
get_pull_policy pull_policy =
    if pull_policy == "Always"
    then always
    else if pull_policy == "Never"
    then never
    else if pull_policy == "IfNotPresent"
    then if_not_present
    else if_not_present

-- `fmt.Sprintf("%t", b)`
abbrev pub bool_text : Bool → String
bool_text b = if b then "true" else "false"

-- the arguments that follow `/rusid`
pub rusid_args : Dict String → String → String → List String
rusid_args annotations id control_plane_address =
    "--rusi-grpc-port"
    ∷ itoa sidecar_api_grpc_port
    ∷ "--app-id"
    ∷ id
    ∷ "--mode"
    ∷ "kubernetes"
    ∷ "--v"
    ∷ get_log_level annotations
    ∷ "--control-plane-address"
    ∷ control_plane_address
    ∷ "--config"
    ∷ get_config annotations
    ∷ ("--enable-metrics=" ⊕ bool_text (get_enable_metrics annotations))
    ∷ []

-- the arguments of the debugger in front of them
abbrev pub debugger_args : ℤ → List String
debugger_args debug_port =
    ("--listen=:" ⊕ itoa debug_port)
    ∷ "--accept-multiclient"
    ∷ "--headless=true"
    ∷ "--log"
    ∷ "--api-version=2"
    ∷ "exec"
    ∷ "/rusid"
    ∷ "--"
    ∷ []

abbrev pub base_ports : List ContainerPort
base_ports =
    record { name = "rusi-grpc"; container_port = sidecar_api_grpc_port }
    ∷ record { name = "rusi-diag"; container_port = sidecar_diagnostics_port }
    ∷ []

abbrev pub mounts_of : Option VolumeMount → List VolumeMount
mounts_of none = []
mounts_of (some mount) = mount ∷ []

-- An error of the resources is logged, and the container is left without any.
abbrev pub resources_or_none :
    {Q : Type 0} → Result (Option (ResourceRequirements Q)) → Option (ResourceRequirements Q)
resources_or_none (ok resources) = resources
resources_or_none (err _) = none

module _ {Q : Type 0} (parse_quantity : String → Result Q) (must_parse : String → Q) where
  pub sidecar_container :
      (annotations : Dict String)
      → (id rusi_sidecar_image image_pull_policy namespace control_plane_address : String)
      → Option VolumeMount
      → Bool
      → Container Q
  unfolding rusid_args probe get_pull_policy
  sidecar_container annotations id rusi_sidecar_image image_pull_policy namespace
        control_plane_address token_volume_mount inject_as_init_container =
      let debug_enabled = get_enable_debug annotations in
      let debug_port = get_debug_port annotations in
      let args = rusid_args annotations id control_plane_address in
      record {
        name = sidecar_container_name;
        image = rusi_sidecar_image;
        image_pull_policy = some (get_pull_policy image_pull_policy);
        allow_privilege_escalation = some false;
        ports =
            if debug_enabled
            then base_ports ++ record { name = "rusi-debug"; container_port = debug_port } ∷ []
            else base_ports;
        command = (if debug_enabled then "/dlv" else "/rusid") ∷ [];
        env =
            record { name = "NAMESPACE"; value = namespace }
            ∷ parse_env_string (get rusi_env_key annotations);
        args = if debug_enabled then debugger_args debug_port ++ args else args;
        readiness_probe = some (probe annotations "rusi.io/sidecar-readiness-probe");
        liveness_probe = some (probe annotations "rusi.io/sidecar-liveness-probe");
        restart_policy = if inject_as_init_container then some "Always" else none;
        volume_mounts = mounts_of token_volume_mount;
        resources =
            resources_or_none (get_resource_requirements parse_quantity must_parse annotations);
      }

  -- The source returns an error beside the container, and it is always nil.
  unfoldable pub get_sidecar_container :
      (annotations : Dict String)
      → (id rusi_sidecar_image image_pull_policy namespace control_plane_address : String)
      → Option VolumeMount
      → Bool
      → Result (Container Q)
  get_sidecar_container annotations id rusi_sidecar_image image_pull_policy namespace
        control_plane_address token_volume_mount inject_as_init_container =
      ok (
        sidecar_container annotations id rusi_sidecar_image image_pull_policy namespace
          control_plane_address token_volume_mount inject_as_init_container)
