-- ===== src/Injector/EnvPatch.antt =====
-- The environment variables that the injector adds to a pod's containers: pkg/injector/pod_patch.go.
pub mod Apply
use rusi.Prelude.{
  ℕ, zero, suc, ◌+◌, ◌-◌, ◌*◌, ◌/◌, ◌%◌, ◌^◌, ◌≤◌, ◌<◌, String, ◌≡◌, refl, sym, ap, ◌∙◌, subst, ◌≢◌,
  ◌↔◌, ◌⊎◌, inl, inr, Bool, true, false, not, ◌&&◌, ◌||◌, Option, none, some, List, [], ◌∷◌, ◌++◌,
  map, append_assoc, append-nil, arith, ◌==◌, eq_iff, eq_refl, ltb, leb, beq, if◌then◌else◌,
  Bool-cases, Option-cases, length, is_empty, any, length-append, any-append_right, All, All-append,
  Error, Result, ok, err, ◌>>=◌, ◌>>◌, fail_if, Result-cases,
}
use rusi.Prelude.Int.{ℤ, pos, negsuc, pos_part, neg_part, neg, ltb_ℤ, IsSigned, to_uint64, to_int64}
use rusi.Prelude.Dict.{
  Dict, lookup, insert, delete, lookup-insert, lookup-delete, lookup-empty, dict_laws, get,
}
use rusi.Prelude.Text.{◌⊕◌, single, to_lower, to_lower-append, split, trim_space, replace_char}
use rusi.Prelude.Number.{parse_uint64, parse_int32, parse_int32-IsSigned, parse_uint64-lt, itoa}
use rusi.Injector.Kube.{EnvVar, Container, PatchValue, envs, env, PatchOperation}

abbrev pub containers_path : String
containers_path = "/spec/containers"

abbrev pub user_container_rusi_grpc_port_name : String
user_container_rusi_grpc_port_name = "RUSI_GRPC_PORT"

-- the inner loop: some variable has the name
unfoldable pub has_name : String → List EnvVar → Bool
has_name name [] = false
has_name name (actual ∷ rest) = if actual.name == name then true else has_name name rest

-- one patch for each new variable whose name is not taken
unfoldable pub add_missing :
    {Q : Type 0} → List EnvVar → String → List EnvVar → List (PatchOperation Q)
add_missing taken path [] = []
add_missing taken path (e ∷ rest) =
    let others = add_missing taken path rest in
    if has_name e.name taken
    then others
    else record { op = "add"; path = path; value = env e } ∷ others

unfoldable pub get_env_patch_operations :
    {Q : Type 0} → List EnvVar → List EnvVar → String → List (PatchOperation Q)
unfolding add_missing has_name
get_env_patch_operations [] add_env path =
    record { op = "add"; path = path; value = envs add_env } ∷ []
get_env_patch_operations (e ∷ rest) add_env path = add_missing (e ∷ rest) (path ⊕ "/-") add_env

abbrev pub port_env : List EnvVar
port_env = record { name = user_container_rusi_grpc_port_name; value = itoa (pos 50003) } ∷ []

-- fmt.Sprintf("%s/%d/env", containersPath, i)
unfoldable pub env_path : ℕ → String
env_path i = containers_path ⊕ "/" ⊕ itoa (pos i) ⊕ "/env"

-- the loop over the containers, from index `i` on
unfoldable pub add_env_from : {Q : Type 0} → ℕ → List (Container Q) → List (PatchOperation Q)
unfolding get_env_patch_operations env_path
add_env_from i [] = []
add_env_from i (container ∷ rest) =
    get_env_patch_operations container.env port_env (env_path i) ++ add_env_from (i + 1) rest

unfoldable pub add_rusi_env_vars_to_containers :
    {Q : Type 0} → List (Container Q) → List (PatchOperation Q)
unfolding add_env_from
add_rusi_env_vars_to_containers containers = add_env_from 0 containers
