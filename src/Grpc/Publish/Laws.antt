-- ===== src/Grpc/Publish/Laws.antt =====
-- What Publish calls.
use rusi.Prelude.{
  ◌⊎◌, [], ap, String, ◌≡◌, refl, sym, ◌∙◌, ◌≢◌, ◌↔◌, inl, inr, false, Option, none, some, arith,
  ◌==◌, eq_iff, Bool-cases, Error, Result, ok, err, Result-cases,
}
use rusi.Prelude.Dict.{Dict}
use rusi.Prelude.Text.{◌⊕◌}
use rusi.Messaging.{PublishRequest}
use rusi.Grpc.Publish.{
  ProtoPublishRequest, invalid_argument, unknown_status, Failure, plain, status, to_request,
  publish, metadata_or_empty,
}

-- the request that the handler is given
pub record IsRequest (request : ProtoPublishRequest) (content : String) (r : PublishRequest)
    : Type 0 where
  pub pubsub_name : r.pubsub_name ≡ request.pubsub_name
  pub topic : r.topic ≡ request.topic
  pub payload : r.payload ≡ content
  pub type : r.type ≡ request.type
  pub data_content_type : r.data_content_type ≡ request.data_content_type
  pub given_metadata : (m : Dict String) → request.metadata ≡ some m → r.metadata ≡ m
  pub no_metadata : request.metadata ≡ none → r.metadata ≡ []

metadata_of :
    (metadata : Option (Dict String)) (held : Dict String)
    → ((m : Dict String) → metadata ≡ some m → held ≡ m)
    → (metadata ≡ none → held ≡ [])
    → metadata_or_empty metadata ≡ held
metadata_of none held given empty = sym (empty refl)
metadata_of (some m) held given empty = sym (given m refl)

module _ {W : Type 0} (unmarshal : String → Result String)
    (publish_handler : PublishRequest → W → W × Option Error) where
  abbrev outcome : W × Option Error → W × Option Failure
  outcome (w, e) = (w, unknown_status e)

  outcome-eq-none_iff : (r : W × Option Error) (w : W) → (outcome r ≡ (w, none)) ↔ (r ≡ (w, none))
  outcome-eq-none_iff (v, none) w = ground arith
  outcome-eq-none_iff (v, some e) w = ground arith

  publish_empty :
      (request : ProtoPublishRequest) (w : W)
      → request.topic ≡ ""
      → publish unmarshal publish_handler request w
        ≡ (w, some (status invalid_argument ("topic is empty in pubsub " ⊕ request.pubsub_name)))
  unfolding publish
  publish_empty request w e = rw ((eq_iff request.topic "").1 e) refl

  publish_unread :
      (request : ProtoPublishRequest) (w : W) (e : Error)
      → request.topic ≢ ""
      → unmarshal request.payload ≡ err e
      → publish unmarshal publish_handler request w ≡ (w, some (plain e))
  unfolding publish
  publish_unread request w e given failed =
      let named : (request.topic == "") ≡ false = ground (arith, given, eq_iff request.topic "") in
      rw named (rw failed refl)

  publish_read :
      (request : ProtoPublishRequest) (w : W) (content : String)
      → request.topic ≢ ""
      → unmarshal request.payload ≡ ok content
      → publish unmarshal publish_handler request w
        ≡ outcome (publish_handler (to_request request content) w)
  unfolding publish
  publish_read request w content given read =
      let named : (request.topic == "") ≡ false = ground (arith, given, eq_iff request.topic "") in
      rw named (rw read refl)

  refused :
      (request : ProtoPublishRequest) (w : W)
      → (request.topic ≡ "") ⊎ ((e : Error) × (unmarshal request.payload ≡ err e))
      → (f : Failure) × ((handler : PublishRequest → W → W × Option Error)
          → publish unmarshal handler request w ≡ (w, some f))
  unfolding publish
  refused request w h = elim (Bool-cases (request.topic == "")) [
    | inl unnamed ↦ (
      status invalid_argument ("topic is empty in pubsub " ⊕ request.pubsub_name),
      λ handler. rw unnamed refl,
    )
    | inr named ↦ elim h [
      | inl empty ↦ absurd (ground (arith, named, (eq_iff request.topic "").1 empty))
      | inr (e, failed) ↦ (plain e, λ handler. rw named (rw failed refl))
    ]
  ]

  request-eq :
      (request : ProtoPublishRequest) (content : String) (r : PublishRequest)
      → IsRequest request content r
      → to_request request content ≡ r
  request-eq request content r h = ground (
    arith,
    h.pubsub_name,
    h.topic,
    h.payload,
    h.type,
    h.data_content_type,
    metadata_of request.metadata r.metadata h.given_metadata h.no_metadata,
  )

  to_request-IsRequest :
      (request : ProtoPublishRequest) (content : String)
      → IsRequest request content (to_request request content)
  to_request-IsRequest request content = record {
    pubsub_name = refl;
    topic = refl;
    payload = refl;
    type = refl;
    data_content_type = refl;
    given_metadata = λ m e. rw e refl;
    no_metadata = λ e. rw e refl;
  }

  -- Publish succeeds exactly when the topic is given, the data can be read and the handler succeeds on
  -- the request with the fields of the call, the data that were read, and an empty map where there is no
  -- metadata; the state is then the one that the handler leaves. Where the topic is empty or the data
  -- cannot be read, the handler is not called: whatever the handler is, the state stays as it is and the
  -- same error is returned.
  pub publish_iff :
      (request : ProtoPublishRequest) (w w' : W)
      → ((publish unmarshal publish_handler request w ≡ (w', none)) ↔ (
          (request.topic ≢ "")
          × ((r : PublishRequest) × (content : String) × (unmarshal request.payload ≡ ok content)
              × IsRequest request content r
              × (publish_handler r w ≡ (w', none)))))
        × ((request.topic ≡ "") ⊎ ((e : Error) × (unmarshal request.payload ≡ err e))
            → (f : Failure) × ((handler : PublishRequest → W → W × Option Error)
                → publish unmarshal handler request w ≡ (w, some f)))
  publish_iff request w w' = ((there, back), refused request w)
    where
      there :
          publish unmarshal publish_handler request w ≡ (w', none)
          → (request.topic ≢ "")
            × ((r : PublishRequest) × (content : String) × (unmarshal request.payload ≡ ok content)
                × IsRequest request content r
                × (publish_handler r w ≡ (w', none)))
      there h = elim (Bool-cases (request.topic == "")) [
        | inl unnamed ↦
            absurd
              (ground (arith, h, publish_empty request w ((eq_iff request.topic "").0 unnamed)))
        | inr named ↦
            let given : request.topic ≢ "" =
              λ e. ground (arith, named, (eq_iff request.topic "").1 e) in
            elim (Result-cases (unmarshal request.payload)) [
              | inr (e, failed) ↦
                  absurd (ground (arith, h, publish_unread request w e given failed))
              | inl (content, read) ↦
                  let e = publish_read request w content given read in
                  let handled = publish_handler (to_request request content) w in
                  (
                    given,
                    (
                      to_request request content,
                      content,
                      read,
                      to_request-IsRequest request content,
                      (outcome-eq-none_iff handled w').0 (sym e ∙ h),
                    ),
                  )
            ]
      ]

      back :
          (request.topic ≢ "")
            × ((r : PublishRequest) × (content : String) × (unmarshal request.payload ≡ ok content)
                × IsRequest request content r
                × (publish_handler r w ≡ (w', none)))
          → publish unmarshal publish_handler request w ≡ (w', none)
      back (given, (r, content, read, same, succeeded)) =
          let handled = publish_handler (to_request request content) w in
          let made : handled ≡ (w', none) =
            ap (λ x. publish_handler x w) (request-eq request content r same) ∙ succeeded in
          publish_read request w content given read ∙ (outcome-eq-none_iff handled w').1 made
