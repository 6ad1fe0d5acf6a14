-- ===== src/Injector/PodPatch/Apply.antt =====
-- JSON patches as the API server applies them, on the paths that pkg/injector/pod_patch.go uses.
use mathlib.Core.Option
use mathlib.Core.Option.{Option}
use rusi.Prelude.{ℕ, ◌+◌, String, none, some, List, [], ◌∷◌, ◌++◌, ◌==◌, if◌then◌else◌}
use rusi.Prelude.Dict.{insert}
use rusi.Prelude.Text.{◌⊕◌}
use rusi.Injector.Kube.{
  EnvVar, Container, Pod, PatchValue, containers, container, text, envs, env, PatchOperation,
}
use rusi.Injector.EnvPatch.{env_path, containers_path}
use rusi.Injector.PodPatch.{init_containers_path}

-- RFC 6902 "add" on the paths that the injector uses. `none` is an operation that does not apply: a
-- member of an object that is not there, or a path that leads nowhere.
module _ {Q : Type 0} where
  -- the environment of the container that the path names, counted from index `i`
  unfoldable pub apply_env :
      (suffix path : String)
      → (List EnvVar → List EnvVar)
      → ℕ
      → List (Container Q)
      → Option (List (Container Q))
  apply_env suffix path change i [] = none
  apply_env suffix path change i (c ∷ rest) =
      let later = Option.map (λ cs. c ∷ cs) (apply_env suffix path change (i + 1) rest) in
      if path == env_path i ⊕ suffix then some (record c { env = change c.env } ∷ rest) else later

  abbrev with_containers : Pod Q → Option (List (Container Q)) → Option (Pod Q)
  with_containers pod none = none
  with_containers pod (some cs) = some (record pod { containers = cs })

  unfoldable pub apply_value : PatchValue Q → String → Pod Q → Option (Pod Q)
  unfolding apply_env
  apply_value (containers cs) path pod =
      if path == containers_path
      then some (record pod { containers = cs })
      else if path == init_containers_path
      then some (record pod { init_containers = cs })
      else none
  apply_value (container c) path pod =
      if path == containers_path ⊕ "/-"
      then some (record pod { containers = pod.containers ++ c ∷ [] })
      else if path == init_containers_path ⊕ "/-"
      then some (record pod { init_containers = pod.init_containers ++ c ∷ [] })
      else none
  apply_value (text t) path pod =
      if path == "/metadata/labels/app-runtime"
      then elim pod.labels [
        | none ↦ none
        | some labels ↦ some (record pod { labels = some (insert "app-runtime" t labels) })
      ]
      else none
  apply_value (envs es) path pod =
      with_containers pod (apply_env "" path (λ _. es) 0 pod.containers)
  apply_value (env e) path pod =
      with_containers pod (apply_env "/-" path (λ present. present ++ e ∷ []) 0 pod.containers)

  unfoldable pub apply_ops : List (PatchOperation Q) → Pod Q → Option (Pod Q)
  unfolding apply_value
  apply_ops [] pod = some pod
  apply_ops (op ∷ ops) pod = elim (apply_value op.value op.path pod) [
    | none ↦ none
    | some pod' ↦ apply_ops ops pod'
  ]
