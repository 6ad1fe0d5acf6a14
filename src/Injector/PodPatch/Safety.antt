-- ===== src/Injector/PodPatch/Safety.antt =====
-- When a patch is made: getPodPatchOperations of pkg/injector/pod_patch.go.
use rusi.Prelude.{
  Result-cases, inl, inr, String, ◌≡◌, ◌≢◌, true, false, not, ◌||◌, List, [], ◌∷◌, arith, ◌==◌,
  eq_iff, if◌then◌else◌, Result, ok, err,
}
use rusi.Prelude.Int.{pos}
use rusi.Injector.Kube.{Pod, PatchOperation}
use rusi.Injector.Annotations.{get_app_id, is_resource_rusi_enabled}
use rusi.Injector.Sidecar.{sidecar_container}
use rusi.Injector.EnvPatch.{add_rusi_env_vars_to_containers}
use rusi.Injector.PodPatch.{
  Config, get_pod_patch_operations, pod_contains_sidecar_container, injection_op, label_op,
  get_service_address, get_token_volume_mount,
}

module _ {Q : Type 0} (parse_quantity : String → Result Q) (must_parse : String → Q)
    (unmarshal_pod : String → Result (Pod Q)) (config : Config)
    (raw request_namespace namespace image image_pull_policy : String) where
  abbrev pub patch_of : Pod Q → List (PatchOperation Q)
  patch_of pod =
      injection_op config.inject_as_init_container pod (
        sidecar_container parse_quantity must_parse pod.annotations
          (get_app_id pod.name pod.annotations) image image_pull_policy request_namespace
          (get_service_address "rusi-api" namespace config.kube_cluster_domain (pos 80))
          (get_token_volume_mount pod.containers) config.inject_as_init_container)
      ∷ label_op
      ∷ add_rusi_env_vars_to_containers pod.containers

  -- the outcome for a pod that decodes, as one conditional
  pub get_pod_patch_operations_lem :
      (pod : Pod Q)
      → unmarshal_pod raw ≡ ok pod
      → get_pod_patch_operations parse_quantity must_parse unmarshal_pod config raw
          request_namespace namespace image image_pull_policy
        ≡ (if not (is_resource_rusi_enabled pod.annotations) || pod_contains_sidecar_container pod
            then ok []
            else if get_app_id pod.name pod.annotations == ""
            then err "value for the rusi.io/app-id annotation is empty"
            else ok (patch_of pod))
  unfolding get_pod_patch_operations
  get_pod_patch_operations_lem pod read = ground arith

  -- a result is for a pod that decodes
  pub get_pod_patch_operations-reads :
      (ops : List (PatchOperation Q))
      → get_pod_patch_operations parse_quantity must_parse unmarshal_pod config raw
          request_namespace namespace image image_pull_policy
        ≡ ok ops
      → (pod : Pod Q) × (unmarshal_pod raw ≡ ok pod)
  unfolding get_pod_patch_operations
  get_pod_patch_operations-reads ops h = elim (Result-cases (unmarshal_pod raw)) [
    | inl found ↦ found
    | inr (e, bad) ↦ absurd (ground (arith, bad))
  ]

  -- A pod gets a patch only if it is enabled, has no sidecar yet and has an app id; the patch is then
  -- the sidecar, the label and the variables.
  pub get_pod_patch_operations_ne_nil :
      (pod : Pod Q) (ops : List (PatchOperation Q))
      → unmarshal_pod raw ≡ ok pod
      → get_pod_patch_operations parse_quantity must_parse unmarshal_pod config raw
          request_namespace namespace image image_pull_policy
        ≡ ok ops
      → ops ≢ []
      → (is_resource_rusi_enabled pod.annotations ≡ true)
        × (pod_contains_sidecar_container pod ≡ false)
        × (get_app_id pod.name pod.annotations ≢ "")
        × (ops ≡ patch_of pod)
  get_pod_patch_operations_ne_nil pod ops read h some_op = ground (
    arith,
    get_pod_patch_operations_lem pod read,
    eq_iff (get_app_id pod.name pod.annotations) "",
  )
