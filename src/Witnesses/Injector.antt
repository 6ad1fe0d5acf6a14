-- ===== src/Witnesses/Injector.antt =====
-- A pod with one container, whose annotations ask for the sidecar.
use rusi.Prelude.{
  subst, ℕ, String, ◌≡◌, refl, true, Option, none, some, List, [], ◌∷◌, ◌++◌, arith, ◌==◌,
  if◌then◌else◌, Result, ok, err,
}
use rusi.Prelude.Dict.{Dict, lookup, insert}
use rusi.Prelude.Text.{to_lower}
use rusi.Prelude.Number.{itoa}
use rusi.Prelude.Text.{is_space}
use rusi.Injector.Annotations.{is_resource_rusi_enabled, get_app_id}
use rusi.Injector.EnvString.{string_slice_contains}
use rusi.Injector.PodPatch.{pod_contains_sidecar_container, injection_op}
use rusi.Injector.EnvPatch.{add_rusi_env_vars_to_containers}
use rusi.Prelude.Number.{itoa}
use rusi.Injector.Kube.{EnvVar, Container, Pod, PatchOperation, ResourceRequirements}
use rusi.Injector.EnvString.{parse_env_string}
use rusi.Injector.EnvString.RoundTrip.{parse_env_string-write_pairs}
use rusi.Injector.EnvPatch.{get_env_patch_operations}
use rusi.Injector.EnvPatch.Apply.{apply_env_ops, missing, apply-get_env_patch_operations}
use rusi.Injector.Resources.{
  get_resource_requirements, rusi_cpu_limit_key, rusi_memory_limit_key, rusi_cpu_request_key,
  rusi_memory_request_key,
}
use rusi.Injector.Resources.Laws.{Parses, quantity_or, get_resource_requirements-exact}
use rusi.Injector.PodPatch.{new_config_with_defaults, get_pod_patch_operations}
use rusi.Injector.PodPatch.Apply.{apply_ops, apply_value}
use rusi.Injector.PodPatch.Once.{patch_once, patch_without_labels}
use rusi.Injector.Webhook.{AdmissionRequest, AdmissionReview, Codecs, Injector, handle_request}
use rusi.Injector.Webhook.Laws.{IsAuthorised, handle_request-IsAuthorised}

abbrev vars : List EnvVar
vars = record { name = "A"; value = "1" } ∷ record { name = "B"; value = "2" } ∷ []

parse_env_string-write_pairs_example : parse_env_string "A=1,B=2" ≡ vars
unfolding is_space
parse_env_string-write_pairs_example = parse_env_string-write_pairs vars (
  ((omega arith, omega arith, refl, tt), (omega arith, omega arith, refl, tt)),
  (((omega arith, omega arith, refl, tt), (omega arith, omega arith, refl, tt)), tt),
)

apply-get_env_patch_operations_example :
    apply_env_ops "/env" vars
      (get_env_patch_operations {Q = ℕ} vars (record { name = "C"; value = "3" } ∷ []) "/env")
    ≡ some (vars ++ missing vars (record { name = "C"; value = "3" } ∷ []))
apply-get_env_patch_operations_example =
    apply-get_env_patch_operations ℕ "/env" vars (record { name = "C"; value = "3" } ∷ [])

abbrev quantity : String → Result ℕ
quantity text = if text == "1" then ok 1 else err "no quantity"

abbrev must : String → ℕ
must text = 5

abbrev limits : Dict String
limits = (rusi_memory_limit_key, "1") ∷ []

parses : (key : String) → Parses quantity limits key
unfolding lookup
parses key text h =
    let e : "1" ≡ text = ground (arith, h) in (1, subst (λ t. quantity t ≡ ok 1) e refl)

get_resource_requirements-exact_example :
    (rr : ResourceRequirements ℕ) × (get_resource_requirements quantity must limits ≡ ok (some rr))
    × (lookup "cpu" rr.limits ≡ quantity_or quantity limits rusi_cpu_limit_key none)
    × (lookup "memory" rr.limits
        ≡ quantity_or quantity limits rusi_memory_limit_key (some (must "512Mi")))
    × (lookup "cpu" rr.requests ≡ quantity_or quantity limits rusi_cpu_request_key none)
    × (lookup "memory" rr.requests
        ≡ quantity_or quantity limits rusi_memory_request_key (some (must "20Mi")))
get_resource_requirements-exact_example =
    get_resource_requirements-exact quantity limits must (parses rusi_cpu_limit_key)
      (parses rusi_memory_limit_key) (parses rusi_cpu_request_key) (parses rusi_memory_request_key)

abbrev user_container : Container ℕ
user_container = record {
  name = "web";
  image = "web";
  image_pull_policy = none;
  allow_privilege_escalation = none;
  ports = [];
  command = [];
  env = vars;
  args = [];
  readiness_probe = none;
  liveness_probe = none;
  restart_policy = none;
  volume_mounts = [];
  resources = none;
}

abbrev pod : Option (Dict String) → Pod ℕ
pod labels = record {
  name = "p";
  labels = labels;
  annotations = ("rusi.io/enabled", "true") ∷ ("rusi.io/app-id", "app") ∷ [];
  containers = user_container ∷ [];
  init_containers = [];
}

abbrev patch_of : (String → Result (Pod ℕ)) → String → Result (List (PatchOperation ℕ))
patch_of unmarshal raw =
    get_pod_patch_operations quantity must unmarshal new_config_with_defaults raw "ns" "rusi"
      "image" "Always"

abbrev ops_of : Option (Dict String) → List (PatchOperation ℕ)
ops_of labels = elim (patch_of (λ raw. ok (pod labels)) "1") [ ok ops ↦ ops | err _ ↦ [] ]

abbrev patched : Pod ℕ
patched = elim (apply_ops (ops_of (some [])) (pod (some []))) [ some p ↦ p | none ↦ pod none ]

abbrev unmarshal : String → Result (Pod ℕ)
unmarshal raw = if raw == "1" then ok (pod (some [])) else ok patched

patch_once_example : patch_of unmarshal "2" ≡ ok []
unfolding get_pod_patch_operations apply_ops apply_value is_resource_rusi_enabled lookup insert
    to_lower pod_contains_sidecar_container get_app_id injection_op add_rusi_env_vars_to_containers
    itoa
patch_once_example =
    patch_once quantity must unmarshal new_config_with_defaults "1" "ns" "rusi" "image" "Always" "2"
      (pod (some [])) patched (ops_of (some [])) refl refl refl refl

patch_without_labels_example : apply_ops (ops_of none) (pod none) ≡ none
unfolding get_pod_patch_operations is_resource_rusi_enabled lookup to_lower
    pod_contains_sidecar_container get_app_id
patch_without_labels_example =
    patch_without_labels quantity must (λ raw. ok (pod none)) new_config_with_defaults "1" "ns"
      "rusi" "image" "Always" (pod none) (ops_of none) refl refl (λ e. cc) refl

abbrev a_request : AdmissionRequest
a_request = record {
  uid = "u";
  kind = "Pod";
  namespace = "ns";
  user_uid = "c";
  username = "controller";
  raw = "1";
}

abbrev codecs : Option AdmissionRequest → Codecs ℕ
codecs request = record {
  decode = λ body. record { request = request; review_kind = "k"; gvk = some "v1"; error = none };
  marshal_ops = λ ops. ok "patch";
  marshal_review = λ review. ok "review";
  parse_quantity = quantity;
  must_parse = must;
  unmarshal_pod = λ raw. ok (pod none);
}

abbrev injector : Injector
injector = record { config = new_config_with_defaults; auth_uids = "c" ∷ [] }

abbrev a_review : AdmissionReview
a_review = record {
  gvk = "v1";
  response = record { uid = "u"; allowed = true; message = none; patch = some "patch" };
}

handle_request-IsAuthorised_example : IsAuthorised (codecs (some a_request)) injector "body" "patch"
unfolding handle_request get_pod_patch_operations string_slice_contains is_resource_rusi_enabled
    lookup to_lower pod_contains_sidecar_container get_app_id
handle_request-IsAuthorised_example =
    handle_request-IsAuthorised (codecs (some a_request)) injector "application/json" "body"
      a_review "review" "patch" refl refl
