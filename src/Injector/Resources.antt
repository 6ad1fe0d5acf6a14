-- ===== src/Injector/Resources.antt =====
-- Resource limits and requests of the sidecar: pkg/injector/pod_patch.go.
-- `parse_quantity` and `must_parse` are resource.ParseQuantity and resource.MustParse of
-- k8s.io/apimachinery.
pub mod Laws
use rusi.Prelude.{
  String, Option, none, some, List, [], ◌∷◌, Bool, ◌||◌, not, Result, ok, err, ◌>>=◌, if◌then◌else◌,
  is_empty,
}
use rusi.Prelude.Dict.{Dict, lookup, insert}
use rusi.Prelude.Text.{◌⊕◌}
use rusi.Injector.Kube.{ResourceRequirements}

abbrev pub rusi_cpu_limit_key : String
rusi_cpu_limit_key = "rusi.io/sidecar-cpu-limit"

abbrev pub rusi_memory_limit_key : String
rusi_memory_limit_key = "rusi.io/sidecar-memory-limit"

abbrev pub rusi_cpu_request_key : String
rusi_cpu_request_key = "rusi.io/sidecar-cpu-request"

abbrev pub rusi_memory_request_key : String
rusi_memory_request_key = "rusi.io/sidecar-memory-request"

module _ {Q : Type 0} (parse_quantity : String → Result Q) where
  pub append_quantity_to_resource_list : String → String → Dict Q → Result (Dict Q)
  append_quantity_to_resource_list quantity resource_name resource_list = do
    q ← parse_quantity quantity
    ok (insert resource_name q resource_list)

  -- one `if ok { … }` block: the annotation, if it is there, is parsed into the list
  pub apply_annotation : Dict String → String → String → String → Dict Q → Result (Dict Q)
  apply_annotation annotations key resource_name context resource_list =
      elim (lookup key annotations) [
        | none ↦ ok resource_list
        | some quantity ↦
            elim (append_quantity_to_resource_list quantity resource_name resource_list) [
              | ok list ↦ ok list
              | err e ↦ err (context ⊕ ": " ⊕ e)
            ]
      ]

  -- the entries that the source builds before it reads the annotations
  abbrev pub default_list : (String → Q) → String → Dict Q
  default_list must_parse quantity = ("memory", must_parse quantity) ∷ []

  unfoldable pub get_resource_requirements :
      (String → Q) → Dict String → Result (Option (ResourceRequirements Q))
  unfolding apply_annotation append_quantity_to_resource_list
  get_resource_requirements must_parse annotations = do
    limits₁ ←
        apply_annotation annotations rusi_cpu_limit_key "cpu" "error parsing sidecar cpu limit"
          (default_list must_parse "512Mi")
    limits ←
        apply_annotation annotations rusi_memory_limit_key "memory"
          "error parsing sidecar memory limit" limits₁
    requests₁ ←
        apply_annotation annotations rusi_cpu_request_key "cpu" "error parsing sidecar cpu request"
          (default_list must_parse "20Mi")
    requests ←
        apply_annotation annotations rusi_memory_request_key "memory"
          "error parsing sidecar memory request" requests₁
    if not (is_empty limits) || not (is_empty requests)
        then ok (some (record { limits = limits; requests = requests }))
        else ok none
