-- ===== src/Injector/EnvPatch/Apply.antt =====
-- What the environment patches of pkg/injector/pod_patch.go do when a JSON patch "add" is applied.
use rusi.Prelude.{
  String, ◌≡◌, refl, Option, none, some, List, [], ◌∷◌, ◌++◌, append_assoc, append-nil, arith, ◌==◌,
  eq_refl, if◌then◌else◌,
}
use rusi.Prelude.Text.{◌⊕◌}
use rusi.Injector.Kube.{EnvVar, containers, container, text, envs, env, PatchOperation}
use rusi.Injector.EnvPatch.{has_name, add_missing, get_env_patch_operations}

-- RFC 6902 "add" at a container's environment, whose path is `path`: a member is set, and "/-"
-- appends to a list. `none` is an operation that does not apply there.
module _ {Q : Type 0} where
  abbrev pub apply_env_op : String → List EnvVar → PatchOperation Q → Option (List EnvVar)
  apply_env_op path present op = elim op.value [
    | containers _ ↦ none
    | container _ ↦ none
    | text _ ↦ none
    | envs es ↦ if op.path == path then some es else none
    | env e ↦ if op.path == path ⊕ "/-" then some (present ++ e ∷ []) else none
  ]

  abbrev pub apply_env_ops : String → List EnvVar → List (PatchOperation Q) → Option (List EnvVar)
  apply_env_ops path present [] = some present
  apply_env_ops path present (op ∷ ops) = elim (apply_env_op path present op) [
    | none ↦ none
    | some l ↦ apply_env_ops path l ops
  ]

-- the variables of a list whose names are not taken
abbrev pub missing : List EnvVar → List EnvVar → List EnvVar
missing taken [] = []
missing taken (e ∷ rest) =
    if has_name e.name taken then missing taken rest else e ∷ missing taken rest

missing-nil : (add_env : List EnvVar) → missing [] add_env ≡ add_env
unfolding has_name
missing-nil [] = refl
missing-nil (e ∷ rest) = rw (missing-nil rest)

module _ (Q : Type 0) (path : String) where
  apply-add_missing :
      (taken present add_env : List EnvVar)
      → apply_env_ops path present (add_missing {Q = Q} taken (path ⊕ "/-") add_env)
        ≡ some (present ++ missing taken add_env)
  unfolding add_missing
  apply-add_missing taken present [] = rw append-nil
  apply-add_missing taken present (e ∷ rest) = ground (
    arith,
    eq_refl (path ⊕ "/-"),
    append_assoc present (e ∷ []) (missing taken rest),
    apply-add_missing taken present rest,
    apply-add_missing taken (present ++ e ∷ []) rest,
  )

  -- The patches apply to the container that they are made for. They leave the variables that are
  -- there as they are and in front, and add exactly the new ones whose names are not taken, in order.
  pub apply-get_env_patch_operations :
      (present add_env : List EnvVar)
      → apply_env_ops path present (get_env_patch_operations {Q = Q} present add_env path)
        ≡ some (present ++ missing present add_env)
  unfolding get_env_patch_operations
  apply-get_env_patch_operations [] add_env = ground (arith, eq_refl path, missing-nil add_env)
  apply-get_env_patch_operations (e ∷ rest) add_env =
      apply-add_missing (e ∷ rest) (e ∷ rest) add_env
