-- ===== src/Injector/PodPatch/Once.antt =====
-- Applying the patch of pkg/injector/pod_patch.go to the pod that it was made for.
use rusi.Prelude.{
  ℕ, ◌+◌, String, ◌≡◌, refl, ◌≢◌, inl, inr, Bool, true, false, ◌||◌, none, some, List, [], ◌∷◌,
  ◌++◌, arith, ◌==◌, eq_iff, if◌then◌else◌, Option-cases, All, All-append, Result, ok,
}
use rusi.Prelude.Int.{pos}
use rusi.Prelude.Text.{◌⊕◌}
use rusi.Injector.Kube.{
  EnvVar, Container, Pod, PatchValue, containers, container, text, envs, env, PatchOperation,
}
use rusi.Injector.Annotations.{get_app_id}
use rusi.Injector.Sidecar.{sidecar_container}
use rusi.Injector.Sidecar.Laws.{sidecar_container-name}
use rusi.Injector.EnvPatch.{
  add_rusi_env_vars_to_containers, add_env_from, get_env_patch_operations, add_missing, env_path,
  containers_path, port_env,
}
use rusi.Injector.PodPatch.{
  Config, get_pod_patch_operations, pod_contains_sidecar_container, injection_op, label_op,
  get_service_address, get_token_volume_mount, has_sidecar, add_container, init_containers_path,
}
use rusi.Injector.PodPatch.Safety.{
  patch_of, get_pod_patch_operations_lem, get_pod_patch_operations_ne_nil,
}
use rusi.Injector.PodPatch.Apply.{apply_env, apply_value, apply_ops}
use rusi.Injector.EnvPatch.{has_name}

module _ {Q : Type 0} where
  has_sidecar-append :
      (cs : List (Container Q)) (c : Container Q)
      → has_sidecar (cs ++ c ∷ []) ≡ has_sidecar cs || (c.name == "rusid")
  unfolding has_sidecar
  has_sidecar-append [] c = ground arith
  has_sidecar-append (d ∷ cs) c = ground (arith, has_sidecar-append cs c)

  has_sidecar-apply_env :
      (suffix path : String) (change : List EnvVar → List EnvVar) (i : ℕ)
      (cs cs' : List (Container Q))
      → apply_env suffix path change i cs ≡ some cs'
      → has_sidecar cs' ≡ has_sidecar cs
  unfolding apply_env has_sidecar
  has_sidecar-apply_env suffix path change i [] cs' h = ground arith
  has_sidecar-apply_env suffix path change i (c ∷ rest) cs' h =
      elim (Option-cases (apply_env suffix path change (i + 1) rest)) [
        | inl e ↦ ground (arith, e)
        | inr (later, e) ↦
            ground (arith, e, has_sidecar-apply_env suffix path change (i + 1) rest later)
      ]

  -- an operation that leaves the lists of containers, or appends to them
  abbrev IsAddition : PatchValue Q → Type 0
  IsAddition (containers _) = ⊥
  IsAddition _ = Unit {0}

  apply_value-contains :
      (value : PatchValue Q) (path : String) (pod pod' : Pod Q)
      → IsAddition value
      → apply_value value path pod ≡ some pod'
      → pod_contains_sidecar_container pod ≡ true
      → pod_contains_sidecar_container pod' ≡ true
  unfolding apply_value pod_contains_sidecar_container
  apply_value-contains (containers cs) path pod pod' added h held = absurd added
  apply_value-contains (container c) path pod pod' added h held =
      ground (arith, has_sidecar-append pod.containers c, has_sidecar-append pod.init_containers c)
  apply_value-contains (text t) path pod pod' added h held = ground arith
  apply_value-contains (envs es) path pod pod' added h held =
      elim (Option-cases (apply_env "" path (λ _. es) 0 pod.containers)) [
        | inl e ↦ ground (arith, e)
        | inr (cs, e) ↦
            ground (arith, e, has_sidecar-apply_env "" path (λ _. es) 0 pod.containers cs)
      ]
  apply_value-contains (env v) path pod pod' added h held =
      let change : List EnvVar → List EnvVar = λ present. present ++ v ∷ [] in
      elim (Option-cases (apply_env "/-" path change 0 pod.containers)) [
        | inl e ↦ ground (arith, e)
        | inr (cs, e) ↦
            ground (arith, e, has_sidecar-apply_env "/-" path change 0 pod.containers cs)
      ]

  apply_ops-contains :
      (ops : List (PatchOperation Q)) (pod pod' : Pod Q)
      → All (λ op. IsAddition op.value) ops
      → apply_ops ops pod ≡ some pod'
      → pod_contains_sidecar_container pod ≡ true
      → pod_contains_sidecar_container pod' ≡ true
  unfolding apply_ops
  apply_ops-contains [] pod pod' added h held = ground arith
  apply_ops-contains (op ∷ ops) pod pod' (first, added) h held =
      elim (Option-cases (apply_value op.value op.path pod)) [
        | inl e ↦ ground (arith, e)
        | inr (next, e) ↦
            apply_ops-contains ops next pod' added (ground (arith, e))
              (apply_value-contains op.value op.path pod next first e held)
      ]

  -- the pod with the container at the end of one of its lists
  abbrev with_sidecar : Bool → Container Q → Pod Q → Pod Q
  with_sidecar inject_as_init_container c pod =
      if inject_as_init_container
      then record pod { init_containers = pod.init_containers ++ c ∷ [] }
      else record pod { containers = pod.containers ++ c ∷ [] }

  apply-add_container :
      (c : Container Q) (pod : Pod Q) (cs : List (Container Q))
      → (pod.containers ≡ cs
          → apply_value
              (add_container containers_path cs c).value
              (add_container containers_path cs c).path
              pod
            ≡ some (with_sidecar false c pod))
        × (pod.init_containers ≡ cs
            → apply_value
                (add_container init_containers_path cs c).value
                (add_container init_containers_path cs c).path
                pod
              ≡ some (with_sidecar true c pod))
  unfolding apply_value add_container
  apply-add_container c pod [] = (λ e. rw e, λ e. rw e)
  apply-add_container c pod (d ∷ cs) = (λ e. refl, λ e. refl)

  apply-injection_op :
      (inject_as_init_container : Bool) (c : Container Q) (pod : Pod Q)
      → (let op = injection_op inject_as_init_container pod c in apply_value op.value op.path pod)
        ≡ some (with_sidecar inject_as_init_container c pod)
  unfolding injection_op
  apply-injection_op true c pod = (apply-add_container c pod pod.init_containers).1 refl
  apply-injection_op false c pod = (apply-add_container c pod pod.containers).0 refl

  with_sidecar-contains :
      (inject_as_init_container : Bool) (c : Container Q) (pod : Pod Q)
      → c.name ≡ "rusid"
      → pod_contains_sidecar_container (with_sidecar inject_as_init_container c pod) ≡ true
  unfolding pod_contains_sidecar_container
  with_sidecar-contains true c pod named =
      ground (arith, has_sidecar-append pod.init_containers c, eq_iff c.name "rusid")
  with_sidecar-contains false c pod named =
      ground (arith, has_sidecar-append pod.containers c, eq_iff c.name "rusid")

module _ (Q : Type 0) where
  abbrev Additions : List (PatchOperation Q) → Type 0
  Additions = All (λ op. IsAddition op.value)

  add_missing-Additions :
      (taken added : List EnvVar) (path : String) → Additions (add_missing {Q = Q} taken path added)
  unfolding add_missing
  add_missing-Additions taken [] path = tt
  add_missing-Additions taken (e ∷ rest) path =
      elim (has_name e.name taken)
        as (λ b. Additions (
          if b
          then add_missing taken path rest
          else record { op = "add"; path = path; value = env e } ∷ add_missing taken path rest)) [
            | true ↦ add_missing-Additions taken rest path
            | false ↦ (tt, add_missing-Additions taken rest path)
          ]

  get_env_patch_operations-Additions :
      (present added : List EnvVar) (path : String)
      → Additions (get_env_patch_operations {Q = Q} present added path)
  unfolding get_env_patch_operations
  get_env_patch_operations-Additions [] added path = (tt, tt)
  get_env_patch_operations-Additions (e ∷ rest) added path =
      add_missing-Additions (e ∷ rest) added (path ⊕ "/-")

  add_env_from-Additions : (i : ℕ) (cs : List (Container Q)) → Additions (add_env_from i cs)
  unfolding add_env_from
  add_env_from-Additions i [] = tt
  add_env_from-Additions i (c ∷ rest) =
      All-append (λ op. IsAddition op.value) (get_env_patch_operations c.env port_env (env_path i))
        (add_env_from (i + 1) rest) (get_env_patch_operations-Additions c.env port_env (env_path i))
        (add_env_from-Additions (i + 1) rest)

module _ {Q : Type 0} (parse_quantity : String → Result Q) (must_parse : String → Q)
    (unmarshal_pod : String → Result (Pod Q)) (config : Config)
    (raw request_namespace namespace image image_pull_policy : String) where
  abbrev patch_for : String → Result (List (PatchOperation Q))
  patch_for object =
      get_pod_patch_operations parse_quantity must_parse unmarshal_pod config object
        request_namespace namespace image image_pull_policy

  patched-contains :
      (pod pod' : Pod Q)
      → apply_ops
          (patch_of parse_quantity must_parse unmarshal_pod config raw request_namespace namespace
            image image_pull_policy pod)
          pod
        ≡ some pod'
      → pod_contains_sidecar_container pod' ≡ true
  unfolding apply_ops add_rusi_env_vars_to_containers
  patched-contains pod pod' h =
      let sidecar =
        sidecar_container parse_quantity must_parse pod.annotations
          (get_app_id pod.name pod.annotations) image image_pull_policy request_namespace
          (get_service_address "rusi-api" namespace config.kube_cluster_domain (pos 80))
          (get_token_volume_mount pod.containers) config.inject_as_init_container in
      let inject = config.inject_as_init_container in
      apply_ops-contains (label_op ∷ add_rusi_env_vars_to_containers pod.containers)
        (with_sidecar inject sidecar pod) pod' (tt, add_env_from-Additions Q 0 pod.containers)
        (ground (arith, apply-injection_op inject sidecar pod))
        (with_sidecar-contains inject sidecar pod (
          sidecar_container-name parse_quantity must_parse pod.annotations
            (get_app_id pod.name pod.annotations) image image_pull_policy request_namespace
            (get_service_address "rusi-api" namespace config.kube_cluster_domain (pos 80))
            (get_token_volume_mount pod.containers) config.inject_as_init_container))

  -- A pod that has been patched is not patched again: if the patch for `raw` applies to the pod that
  -- `raw` decodes to, then the patch for the text of the result is empty.
  pub patch_once :
      (raw' : String) (pod pod' : Pod Q) (ops : List (PatchOperation Q))
      → unmarshal_pod raw ≡ ok pod
      → unmarshal_pod raw' ≡ ok pod'
      → patch_for raw ≡ ok ops
      → apply_ops ops pod ≡ some pod'
      → patch_for raw' ≡ ok []
  unfolding apply_ops
  patch_once raw' pod pod' ops read read' made applied = ground (
    arith,
    get_pod_patch_operations_lem parse_quantity must_parse unmarshal_pod config raw
        request_namespace namespace image image_pull_policy pod read,
    get_pod_patch_operations_lem parse_quantity must_parse unmarshal_pod config raw'
        request_namespace namespace image image_pull_policy pod' read',
    patched-contains pod pod',
  )

  -- Where a pod has no labels, the patch that is made for it does not apply.
  pub patch_without_labels :
      (pod : Pod Q) (ops : List (PatchOperation Q))
      → unmarshal_pod raw ≡ ok pod
      → patch_for raw ≡ ok ops
      → ops ≢ []
      → pod.labels ≡ none
      → apply_ops ops pod ≡ none
  unfolding apply_ops apply_value
  patch_without_labels pod ops read made some_op unlabelled =
      let sidecar =
        sidecar_container parse_quantity must_parse pod.annotations
          (get_app_id pod.name pod.annotations) image image_pull_policy request_namespace
          (get_service_address "rusi-api" namespace config.kube_cluster_domain (pos 80))
          (get_token_volume_mount pod.containers) config.inject_as_init_container in
      ground (
        arith,
        (get_pod_patch_operations_ne_nil parse_quantity must_parse unmarshal_pod config raw
            request_namespace namespace image image_pull_policy pod ops read made some_op).3,
        apply-injection_op config.inject_as_init_container sidecar pod,
      )
