-- ===== src/Runtime/Config.antt =====
-- ConfigBuilder of pkg/runtime/config.go.
pub mod Laws
use rusi.Prelude.{
  ℕ, zero, suc, ◌+◌, ◌-◌, ◌*◌, ◌/◌, ◌%◌, ◌^◌, ◌≤◌, ◌<◌, String, ◌≡◌, refl, sym, ap, ◌∙◌, subst, ◌≢◌,
  ◌↔◌, ◌⊎◌, inl, inr, Bool, true, false, not, ◌&&◌, ◌||◌, Option, none, some, List, [], ◌∷◌, ◌++◌,
  map, append_assoc, append-nil, arith, ◌==◌, eq_iff, eq_refl, ltb, leb, beq, if◌then◌else◌,
  Bool-cases, Option-cases, length, is_empty, any, length-append, any-append_right, All, All-append,
  Error, Result, ok, err, ◌>>=◌, ◌>>◌, fail_if, Result-cases, >>=-eq-ok,
}
use rusi.Prelude.Int.{ℤ, pos, negsuc, pos_part, neg_part, neg, ltb_ℤ, IsSigned, to_uint64, to_int64}
use rusi.Prelude.Dict.{
  Dict, lookup, insert, delete, lookup-insert, lookup-delete, lookup-empty, dict_laws, get,
}
use rusi.Prelude.Text.{◌⊕◌, single, to_lower, to_lower-append, split, trim_space, replace_char}
use rusi.Prelude.Number.{parse_uint64, parse_int32, parse_int32-IsSigned, parse_uint64-lt, itoa}

pub record ConfigBuilder : Type 0 where
  pub mode : String
  pub rusi_grpc_port : ℤ
  pub rusi_grpc_host : String
  pub diagnostics_port : ℤ
  pub enable_metrics : Bool
  pub components_path : String
  pub config : String
  pub control_plane_address : String
  pub app_id : String

pub record Config : Type 0 where
  pub mode : String
  pub rusi_grpc_host : String
  pub rusi_grpc_port : ℤ
  pub diagnostics_port : ℤ
  pub enable_metrics : Bool
  pub components_path : String
  pub config : String
  pub control_plane_address : String
  pub app_id : String

abbrev pub kubernetes_mode : String
kubernetes_mode = "kubernetes"

unfoldable pub validate : ConfigBuilder → Option Error
validate c =
    if c.app_id == ""
    then some "app-id parameter cannot be empty"
    else if c.config == ""
    then some "config parameter cannot be empty"
    else if (c.mode == kubernetes_mode) && (c.control_plane_address == "")
    then some "controlPlaneAddress is mandatory in kubernetes mode"
    else none

-- the loop of setEnvVariables; `setenv` is `os.Setenv`
unfoldable pub set_env_variables :
    {E : Type 0}
    → (String → String → E → E × Option Error)
    → List (String × String)
    → E
    → E × Option Error
set_env_variables setenv [] env = (env, none)
set_env_variables setenv ((key, value) ∷ rest) env =
    let (env', e) = setenv key value env in
    let (env'', e') = set_env_variables setenv rest env' in
    elim e [ some x ↦ (env', some x) | none ↦ (env'', e') ]

abbrev pub variables : ConfigBuilder → List (String × String)
variables c =
    ("APP_ID", c.app_id)
    ∷ ("RUSI_GRPC_HOST", c.rusi_grpc_host)
    ∷ ("RUSI_GRPC_PORT", itoa c.rusi_grpc_port)
    ∷ []

abbrev pub configured : ConfigBuilder → Config
configured c = record {
  mode = c.mode;
  rusi_grpc_host = c.rusi_grpc_host;
  rusi_grpc_port = c.rusi_grpc_port;
  components_path = c.components_path;
  config = c.config;
  app_id = c.app_id;
  diagnostics_port = c.diagnostics_port;
  enable_metrics = c.enable_metrics;
  control_plane_address = c.control_plane_address;
}

unfoldable pub build :
    {E : Type 0} → (String → String → E → E × Option Error) → ConfigBuilder → E → E × Result Config
unfolding validate set_env_variables
build setenv c env = elim (validate c) [
  | some e ↦ (env, err e)
  | none ↦
      let (env', e) = set_env_variables setenv (variables c) env in
      elim e [ some x ↦ (env', err x) | none ↦ (env', ok (configured c)) ]
]
