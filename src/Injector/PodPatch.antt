-- ===== src/Injector/PodPatch.antt =====
-- getPodPatchOperations of pkg/injector/pod_patch.go, with ValidateKubernetesAppID of
-- validation.go and the configuration of config.go. `unmarshal_pod` is the JSON decoder of pods,
-- `parse_quantity` and `must_parse` are those of k8s.io/apimachinery.
pub mod Safety
pub mod Apply
pub mod Once
use rusi.Prelude.{
  ℕ, zero, suc, ◌+◌, ◌-◌, ◌*◌, ◌/◌, ◌%◌, ◌^◌, ◌≤◌, ◌<◌, String, ◌≡◌, refl, sym, ap, ◌∙◌, subst, ◌≢◌,
  ◌↔◌, ◌⊎◌, inl, inr, Bool, true, false, not, ◌&&◌, ◌||◌, Option, none, some, List, [], ◌∷◌, ◌++◌,
  map, append_assoc, append-nil, arith, ◌==◌, eq_iff, eq_refl, ltb, leb, beq, if◌then◌else◌,
  Bool-cases, Option-cases, length, is_empty, any, length-append, any-append_right, All, All-append,
  Error, Result, ok, err, ◌>>=◌, ◌>>◌, fail_if, Result-cases,
}
use rusi.Prelude.Int.{ℤ, pos, negsuc, pos_part, neg_part, neg, ltb_ℤ, IsSigned, to_uint64, to_int64}
use rusi.Prelude.Dict.{
  Dict, lookup, insert, delete, lookup-insert, lookup-delete, lookup-empty, dict_laws, get,
}
use rusi.Prelude.Text.{◌⊕◌, single, to_lower, to_lower-append, split, trim_space, replace_char}
use rusi.Prelude.Number.{parse_uint64, parse_int32, parse_int32-IsSigned, parse_uint64-lt, itoa}
use rusi.Injector.Kube.{
  VolumeMount, Container, Pod, PatchValue, containers, container, text, PatchOperation,
}
use rusi.Injector.Annotations.{get_app_id, is_resource_rusi_enabled}
use rusi.Injector.Sidecar.{get_sidecar_container, sidecar_container_name}
use rusi.Injector.EnvPatch.{containers_path, add_rusi_env_vars_to_containers}

pub record Config : Type 0 where
  pub tls_cert_file : String
  pub tls_key_file : String
  pub sidecar_image : String
  pub sidecar_image_pull_policy : String
  pub namespace : String
  pub kube_cluster_domain : String
  pub validate_service_account : Bool
  pub inject_as_init_container : Bool

abbrev pub new_config_with_defaults : Config
new_config_with_defaults = record {
  tls_cert_file = "";
  tls_key_file = "";
  sidecar_image = "";
  sidecar_image_pull_policy = "Always";
  namespace = "";
  kube_cluster_domain = "";
  validate_service_account = true;
  inject_as_init_container = false;
}

abbrev pub kubernetes_mount_path : String
kubernetes_mount_path = "/var/run/secrets/kubernetes.io/serviceaccount"

abbrev pub init_containers_path : String
init_containers_path = "/spec/initContainers"

pub validate_kubernetes_app_id : String → Result (Unit {0})
validate_kubernetes_app_id app_id =
    fail_if (app_id == "") "value for the rusi.io/app-id annotation is empty"

pub get_service_address : String → String → String → ℤ → String
get_service_address name namespace cluster_domain port =
    name ⊕ "." ⊕ namespace ⊕ ".svc." ⊕ cluster_domain ⊕ ":" ⊕ itoa port

pub find_mount : List VolumeMount → Option VolumeMount
find_mount [] = none
find_mount (v ∷ rest) = if v.mount_path == kubernetes_mount_path then some v else find_mount rest

module _ {Q : Type 0} where
  pub get_token_volume_mount : List (Container Q) → Option VolumeMount
  unfolding find_mount
  get_token_volume_mount [] = none
  get_token_volume_mount (c ∷ rest) = elim (find_mount c.volume_mounts) [
    | some v ↦ some v
    | none ↦ get_token_volume_mount rest
  ]

  pub has_sidecar : List (Container Q) → Bool
  has_sidecar [] = false
  has_sidecar (c ∷ rest) = if c.name == sidecar_container_name then true else has_sidecar rest

  unfoldable pub pod_contains_sidecar_container : Pod Q → Bool
  unfolding has_sidecar
  pod_contains_sidecar_container pod =
      if has_sidecar pod.containers then true else has_sidecar pod.init_containers

  -- the operation that adds the container: the whole list where there is none yet
  pub add_container : String → List (Container Q) → Container Q → PatchOperation Q
  add_container path [] c = record { op = "add"; path = path; value = containers (c ∷ []) }
  add_container path (_ ∷ _) c = record { op = "add"; path = path ⊕ "/-"; value = container c }

  unfoldable pub injection_op : Bool → Pod Q → Container Q → PatchOperation Q
  unfolding add_container
  injection_op inject_as_init_container pod c =
      if inject_as_init_container
      then add_container init_containers_path pod.init_containers c
      else add_container containers_path pod.containers c

  abbrev pub label_op : PatchOperation Q
  label_op = record { op = "add"; path = "/metadata/labels/app-runtime"; value = text "rusi" }

  unfoldable pub get_pod_patch_operations :
      (String → Result Q)
      → (String → Q)
      → (String → Result (Pod Q))
      → Config
      → (raw request_namespace namespace image image_pull_policy : String)
      → Result (List (PatchOperation Q))
  unfolding validate_kubernetes_app_id get_sidecar_container
  get_pod_patch_operations parse_quantity must_parse unmarshal_pod config raw request_namespace
        namespace image image_pull_policy =
      do
        pod ← unmarshal_pod raw
        if not (is_resource_rusi_enabled pod.annotations) || pod_contains_sidecar_container pod
            then ok []
            else do
              let id = get_app_id pod.name pod.annotations
              validate_kubernetes_app_id id
              let address =
                  get_service_address "rusi-api" namespace config.kube_cluster_domain (pos 80)
              sidecar ←
                  get_sidecar_container parse_quantity must_parse pod.annotations id image
                    image_pull_policy request_namespace address
                    (get_token_volume_mount pod.containers) config.inject_as_init_container
              ok (
                  injection_op config.inject_as_init_container pod sidecar
                  ∷ label_op
                  ∷ add_rusi_env_vars_to_containers pod.containers)
