-- ===== src/Injector/Webhook.antt =====
-- handleRequest of pkg/injector/injector.go: one POST to /mutate, from the request to the response.
-- The decoder of admission reviews, the JSON encoders and what PodPatch takes are parameters.
pub mod Laws
use rusi.Prelude.{
  ℕ, zero, suc, ◌+◌, ◌-◌, ◌*◌, ◌/◌, ◌%◌, ◌^◌, ◌≤◌, ◌<◌, String, ◌≡◌, refl, sym, ap, ◌∙◌, subst, ◌≢◌,
  ◌↔◌, ◌⊎◌, inl, inr, Bool, true, false, not, ◌&&◌, ◌||◌, Option, none, some, List, [], ◌∷◌, ◌++◌,
  map, append_assoc, append-nil, arith, ◌==◌, eq_iff, eq_refl, ltb, leb, beq, if◌then◌else◌,
  Bool-cases, Option-cases, length, is_empty, any, length-append, any-append_right, All, All-append,
  Error, Result, ok, err, ◌>>=◌, ◌>>◌, fail_if, Result-cases,
}
use rusi.Prelude.Int.{ℤ, pos, negsuc, pos_part, neg_part, neg, ltb_ℤ, IsSigned, to_uint64, to_int64}
use rusi.Prelude.Dict.{
  Dict, lookup, insert, delete, lookup-insert, lookup-delete, lookup-empty, dict_laws, get,
}
use rusi.Prelude.Text.{◌⊕◌, single, to_lower, to_lower-append, split, trim_space, replace_char}
use rusi.Prelude.Number.{parse_uint64, parse_int32, parse_int32-IsSigned, parse_uint64-lt, itoa}
use rusi.Injector.Kube.{Pod, PatchOperation}
use rusi.Injector.Annotations.{get_app_id}
use rusi.Injector.EnvString.{string_slice_contains}
use rusi.Injector.PodPatch.{Config, get_pod_patch_operations}

pub record AdmissionRequest : Type 0 where
  pub uid : String
  pub kind : String
  pub namespace : String
  pub user_uid : String
  pub username : String
  -- Object.Raw
  pub raw : String

-- what the deserializer leaves in `ar`, the group, version and kind that it found, and its error
pub record Decoded : Type 0 where
  pub request : Option AdmissionRequest
  pub review_kind : String
  pub gvk : Option String
  pub error : Option Error

pub record AdmissionResponse : Type 0 where
  pub uid : String
  pub allowed : Bool
  pub message : Option String
  pub patch : Option String

pub record AdmissionReview : Type 0 where
  pub gvk : String
  pub response : AdmissionResponse

-- `panicked` is a nil pointer that is followed.
pub data Outcome : Type 0 where
  http_error : ℕ → String → Outcome
  written : AdmissionReview → String → Outcome
  panicked : Outcome

-- What the handler needs of code that it does not contain.
pub record Codecs (Q : Type 0) : Type 0 where
  pub decode : String → Decoded
  pub marshal_ops : List (PatchOperation Q) → Result String
  pub marshal_review : AdmissionReview → Result String
  pub parse_quantity : String → Result Q
  pub must_parse : String → Q
  pub unmarshal_pod : String → Result (Pod Q)

pub record Injector : Type 0 where
  pub config : Config
  pub auth_uids : List String

abbrev pub to_admission_response : Error → AdmissionResponse
to_admission_response e = record { uid = ""; allowed = false; message = some e; patch = none }

abbrev pub allow : Option String → AdmissionResponse
allow patch = record { uid = ""; allowed = true; message = none; patch = patch }

pub get_app_id_from_request :
    {Q : Type 0} → (String → Result (Pod Q)) → Option AdmissionRequest → String
get_app_id_from_request unmarshal_pod none = ""
get_app_id_from_request unmarshal_pod (some req) = elim (unmarshal_pod req.raw) [
  | ok pod ↦ get_app_id pod.name pod.annotations
  | err _ ↦ ""
]

module _ {Q : Type 0} (codecs : Codecs Q) (injector : Injector) where
  -- the three tests on a decoded review, and the patch
  pub review_request : String → AdmissionRequest → Result (List (PatchOperation Q))
  review_request review_kind req =
      if injector.config.validate_service_account
        && not (string_slice_contains req.user_uid injector.auth_uids)
      then err
          ("service account '" ⊕ req.username ⊕ "' not on the list of allowed controller accounts")
      else if not (req.kind == "Pod")
      then err ("invalid kind for review: " ⊕ review_kind)
      else get_pod_patch_operations codecs.parse_quantity codecs.must_parse codecs.unmarshal_pod
          injector.config req.raw req.namespace injector.config.namespace
          injector.config.sidecar_image injector.config.sidecar_image_pull_policy

  pub admission_response : Result (List (PatchOperation Q)) → AdmissionResponse
  admission_response (err e) = to_admission_response e
  admission_response (ok []) = allow none
  admission_response (ok (op ∷ ops)) = elim (codecs.marshal_ops (op ∷ ops)) [
    | err e ↦ to_admission_response e
    | ok patch_bytes ↦ allow (some patch_bytes)
  ]

  -- An encoding error is reported, and the handler goes on to write the empty text.
  pub write_review : AdmissionReview → Outcome
  write_review review = elim (codecs.marshal_review review) [
    | ok text ↦ written review text
    | err e ↦ http_error 500 e
  ]

  -- the review that goes back: `*gvk` is read only for a review that holds a request
  pub respond : Decoded → AdmissionResponse → Outcome
  unfolding write_review
  respond decoded response = elim decoded.request [
    | none ↦ write_review (record { gvk = ""; response = response })
    | some req ↦ elim decoded.gvk [
      | none ↦ panicked
      | some gvk ↦ write_review (record { gvk = gvk; response = record response { uid = req.uid } })
    ]
  ]

  -- For a review that decodes and holds no request the tests follow a nil pointer: one of
  -- `ar.Request.UserInfo` and `ar.Request.Kind` is read in any case.
  pub handle_decoded : Decoded → Outcome
  unfolding respond review_request admission_response
  handle_decoded decoded = elim decoded.error [
    | some e ↦ respond decoded (to_admission_response e)
    | none ↦ elim decoded.request [
      | none ↦ panicked
      | some req ↦ respond decoded (admission_response (review_request decoded.review_kind req))
    ]
  ]

  unfoldable pub handle_request : (content_type body : String) → Outcome
  unfolding handle_decoded
  handle_request content_type body =
      if body == ""
      then http_error 400 "empty body"
      else if not (content_type == "application/json")
      then http_error 415 "invalid Content-Type, expect `application/json`"
      else handle_decoded (codecs.decode body)
