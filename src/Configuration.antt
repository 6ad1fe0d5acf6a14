-- ===== src/Configuration.antt =====
-- The configuration of the sidecar: pkg/custom-resource/configuration, with the loader of a file, and
-- GetCurrentNamespace of internal/kube/client.go. The files, the environment and the YAML decoder are
-- parameters.
pub mod Laws
use rusi.Prelude.{
  ℕ, zero, suc, ◌+◌, ◌-◌, ◌*◌, ◌/◌, ◌%◌, ◌^◌, ◌≤◌, ◌<◌, String, ◌≡◌, refl, sym, ap, ◌∙◌, subst, ◌≢◌,
  ◌↔◌, ◌⊎◌, inl, inr, Bool, true, false, not, ◌&&◌, ◌||◌, Option, none, some, List, [], ◌∷◌, ◌++◌,
  map, append_assoc, append-nil, arith, ◌==◌, eq_iff, eq_refl, ltb, leb, beq, if◌then◌else◌,
  Bool-cases, Option-cases, length, is_empty, any, length-append, any-append_right, All, All-append,
  Error, Result, ok, err, ◌>>=◌, ◌>>◌, fail_if, Result-cases, >>=-eq-ok,
}
use rusi.Prelude.Int.{ℤ, pos, negsuc, pos_part, neg_part, neg, ltb_ℤ, IsSigned, to_uint64, to_int64}
use rusi.Prelude.Dict.{
  Dict, lookup, insert, delete, lookup-insert, lookup-delete, lookup-empty, dict_laws, get,
}
use rusi.Prelude.Text.{◌⊕◌, single, to_lower, to_lower-append, split, trim_space, replace_char}
use rusi.Prelude.Number.{parse_uint64, parse_int32, parse_int32-IsSigned, parse_uint64-lt, itoa}
use rusi.Runtime.Handlers.{HandlerSpec}
use rusi.Diagnostics.{TelemetrySpec, no_telemetry}

pub record FeatureSpec : Type 0 where
  pub name : String
  pub enabled : Bool

pub record ConfigurationSpec : Type 0 where
  pub subscriber_pipeline : List HandlerSpec
  pub publisher_pipeline : List HandlerSpec
  pub telemetry : TelemetrySpec
  pub features : List FeatureSpec
  pub pub_sub_name : String
  pub min_runtime_version : String

unfoldable pub is_feature_enabled : List FeatureSpec → String → Bool
is_feature_enabled [] target = false
is_feature_enabled (feature ∷ features) target =
    let others = is_feature_enabled features target in
    if feature.name == target then feature.enabled else others

abbrev pub load_default_configuration : ConfigurationSpec
load_default_configuration = record {
  subscriber_pipeline = [];
  publisher_pipeline = [];
  telemetry = no_telemetry;
  features = [];
  pub_sub_name = "";
  min_runtime_version = "";
}

pub record System : Type 0 where
  pub stat : String → Option Error
  pub read_file : String → Result (List ℕ)
  pub expand_env : List ℕ → List ℕ
  -- into a specification that is there, which is changed also where it fails
  pub unmarshal : List ℕ → ConfigurationSpec → ConfigurationSpec × Option Error
  -- `os.Getenv`: the empty text where the variable is not set
  pub getenv : String → String
  -- a file as text
  pub read_text : String → Result String

-- what the goroutine sends on the channel, if anything, and the error that is returned
unfoldable pub load_standalone_configuration :
    System → String → Option ConfigurationSpec × Option Error
load_standalone_configuration system config = elim (system.stat config) [
  | some e ↦ (none, some e)
  | none ↦ elim (system.read_file config) [
    | err e ↦ (none, some e)
    | ok b ↦ (
      some (system.unmarshal (system.expand_env b) load_default_configuration).0,
      (system.unmarshal (system.expand_env b) load_default_configuration).1,
    )
  ]
]

abbrev pub namespace_file : String
namespace_file = "/var/run/secrets/kubernetes.io/serviceaccount/namespace"

-- the namespace of the service account, and else the default
abbrev pub namespace_of_account : Result String → String
namespace_of_account (err _) = "default"
namespace_of_account (ok text) = if trim_space text == "" then "default" else trim_space text

unfoldable pub get_current_namespace : System → String
get_current_namespace system =
    if not (system.getenv "POD_NAMESPACE" == "")
    then system.getenv "POD_NAMESPACE"
    else if not (system.getenv "NAMESPACE" == "")
    then system.getenv "NAMESPACE"
    else namespace_of_account (system.read_text namespace_file)
