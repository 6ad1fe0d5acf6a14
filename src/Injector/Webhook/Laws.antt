-- ===== src/Injector/Webhook/Laws.antt =====
-- Who gets a patch from handleRequest of pkg/injector/injector.go, and what is sent back.
use rusi.Prelude.{
  String, ◌≡◌, refl, ◌≢◌, inl, inr, true, false, none, some, List, [], ◌∷◌, arith, eq_iff,
  Option-cases, Result, ok, err,
}
use rusi.Injector.Kube.{Pod, PatchOperation}
use rusi.Injector.Annotations.{get_app_id, is_resource_rusi_enabled}
use rusi.Injector.EnvString.{string_slice_contains}
use rusi.Injector.PodPatch.{get_pod_patch_operations, pod_contains_sidecar_container}
use rusi.Injector.PodPatch.Safety.{get_pod_patch_operations_ne_nil, get_pod_patch_operations-reads}
use rusi.Injector.Webhook.{
  AdmissionRequest, Decoded, AdmissionResponse, AdmissionReview, written, panicked, Codecs,
  Injector, to_admission_response, review_request, admission_response, write_review, respond,
  handle_decoded, handle_request,
}

module _ {Q : Type 0} (codecs : Codecs Q) (injector : Injector) where
  -- what has been checked of the request and of its pod before a patch is sent
  pub record IsAuthorised (body patch : String) : Type 0 where
    pub req : AdmissionRequest
    pub pod : Pod Q
    pub ops : List (PatchOperation Q)
    pub decoded : (codecs.decode body).request ≡ some req
    pub known_caller :
        injector.config.validate_service_account ≡ true
        → string_slice_contains req.user_uid injector.auth_uids ≡ true
    pub is_pod : req.kind ≡ "Pod"
    pub read : codecs.unmarshal_pod req.raw ≡ ok pod
    pub enabled : is_resource_rusi_enabled pod.annotations ≡ true
    pub fresh : pod_contains_sidecar_container pod ≡ false
    pub has_app_id : get_app_id pod.name pod.annotations ≢ ""
    pub encoded : codecs.marshal_ops ops ≡ ok patch

  admission_response-patch :
      (r : Result (List (PatchOperation Q))) (patch : String)
      → (admission_response codecs injector r).patch ≡ some patch
      → (ops : List (PatchOperation Q)) × (r ≡ ok ops)
        × (ops ≢ [])
        × (codecs.marshal_ops ops ≡ ok patch)
  unfolding admission_response
  admission_response-patch (err e) patch h = absurd (ground arith)
  admission_response-patch (ok []) patch h = absurd (ground arith)
  admission_response-patch (ok (op ∷ ops)) patch h = (op ∷ ops, refl, (λ e. cc), ground arith)

  review_request-ok :
      (review_kind : String) (req : AdmissionRequest) (ops : List (PatchOperation Q))
      → review_request codecs injector review_kind req ≡ ok ops
      → (injector.config.validate_service_account ≡ true
          → string_slice_contains req.user_uid injector.auth_uids ≡ true)
        × (req.kind ≡ "Pod")
        × (get_pod_patch_operations codecs.parse_quantity codecs.must_parse codecs.unmarshal_pod
              injector.config req.raw req.namespace injector.config.namespace
              injector.config.sidecar_image injector.config.sidecar_image_pull_policy
            ≡ ok ops)
  unfolding review_request
  review_request-ok review_kind req ops h =
      (λ v. ground arith, ground (arith, eq_iff req.kind "Pod"), ground arith)

  respond-response :
      (decoded : Decoded) (response : AdmissionResponse) (review : AdmissionReview) (text : String)
      → respond codecs injector decoded response ≡ written review text
      → (review.response.patch ≡ response.patch)
        × (review.response.allowed ≡ response.allowed)
        × (review.response.message ≡ response.message)
  unfolding respond write_review
  respond-response decoded response review text h = ground arith

  handle_decoded-patch :
      (decoded : Decoded) (review : AdmissionReview) (text patch : String)
      → handle_decoded codecs injector decoded ≡ written review text
      → review.response.patch ≡ some patch
      → (req : AdmissionRequest) × (decoded.request ≡ some req)
        × ((admission_response codecs injector
              (review_request codecs injector decoded.review_kind req)).patch
            ≡ some patch)
  unfolding handle_decoded
  handle_decoded-patch decoded review text patch h p = elim (Option-cases decoded.error) [
    | inr (e, failed) ↦
        absurd
          (ground (arith, failed, respond-response decoded (to_admission_response e) review text))
    | inl fine ↦ elim (Option-cases decoded.request) [
      | inl nothing ↦ absurd (ground (arith, fine, nothing))
      | inr (req, found) ↦
          let response =
            admission_response codecs injector
              (review_request codecs injector decoded.review_kind req) in
          (req, found, ground (arith, fine, found, respond-response decoded response review text))
    ]
  ]

  -- A patch is sent only for a Pod that is enabled, has an app id and holds no sidecar yet, on the
  -- request of a caller that is on the list of allowed accounts, where callers are validated.
  pub handle_request-IsAuthorised :
      (content_type body : String) (review : AdmissionReview) (text patch : String)
      → handle_request codecs injector content_type body ≡ written review text
      → review.response.patch ≡ some patch
      → IsAuthorised body patch
  unfolding handle_request
  handle_request-IsAuthorised content_type body review text patch h p =
      let (req, found, responded) =
        handle_decoded-patch (codecs.decode body) review text patch (ground arith) p in
      let (ops, reviewed, some_op, encoded) =
        admission_response-patch
          (review_request codecs injector (codecs.decode body).review_kind req) patch responded in
      let (known, kind, made) =
        review_request-ok (codecs.decode body).review_kind req ops reviewed in
      let (pod, read) =
        get_pod_patch_operations-reads codecs.parse_quantity codecs.must_parse codecs.unmarshal_pod
          injector.config req.raw req.namespace injector.config.namespace
          injector.config.sidecar_image injector.config.sidecar_image_pull_policy ops made in
      let (enabled, fresh, named, _) =
        get_pod_patch_operations_ne_nil codecs.parse_quantity codecs.must_parse codecs.unmarshal_pod
          injector.config req.raw req.namespace injector.config.namespace
          injector.config.sidecar_image injector.config.sidecar_image_pull_policy pod ops read made
          some_op in
      record {
        req = req;
        pod = pod;
        ops = ops;
        decoded = found;
        known_caller = known;
        is_pod = kind;
        read = read;
        enabled = enabled;
        fresh = fresh;
        has_app_id = named;
        encoded = encoded;
      }

  -- A review that decodes and holds no request makes the handler follow a nil pointer.
  handle_request-panicked :
      (body : String)
      → body ≢ ""
      → (codecs.decode body).error ≡ none
      → (codecs.decode body).request ≡ none
      → handle_request codecs injector "application/json" body ≡ panicked
  unfolding handle_request
  handle_request-panicked body nonempty fine nothing = ground (arith, eq_iff body "")
