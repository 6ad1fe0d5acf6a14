-- ===== src/Grpc/Publish.antt =====
-- Publish and messagingSubscriptionOptions of pkg/api/runtime/grpc/grpc_api.go. The handler, what it acts
-- on, `serdes.Unmarshal` and the statuses of gRPC are parameters.
pub mod Laws
use rusi.Prelude.{
  ℕ, zero, suc, ◌+◌, ◌-◌, ◌*◌, ◌/◌, ◌%◌, ◌^◌, ◌≤◌, ◌<◌, String, ◌≡◌, refl, sym, ap, ◌∙◌, subst, ◌≢◌,
  ◌↔◌, ◌⊎◌, inl, inr, Bool, true, false, not, ◌&&◌, ◌||◌, Option, none, some, List, [], ◌∷◌, ◌++◌,
  map, append_assoc, append-nil, arith, ◌==◌, eq_iff, eq_refl, ltb, leb, beq, if◌then◌else◌,
  Bool-cases, Option-cases, length, is_empty, any, length-append, any-append_right, All, All-append,
  Error, Result, ok, err, ◌>>=◌, ◌>>◌, fail_if, Result-cases, >>=-eq-ok,
}
use rusi.Prelude.Int.{ℤ, pos, negsuc, pos_part, neg_part, neg, ltb_ℤ, IsSigned, to_uint64, to_int64}
use rusi.Prelude.Dict.{
  Dict, lookup, insert, delete, lookup-insert, lookup-delete, lookup-empty, dict_laws, get,
}
use rusi.Prelude.Text.{◌⊕◌, single, to_lower, to_lower-append, split, trim_space, replace_char}
use rusi.Prelude.Number.{parse_uint64, parse_int32, parse_int32-IsSigned, parse_uint64-lt, itoa}
use rusi.Messaging.{PublishRequest, SubscriptionOptions}

-- PublishRequest of the protocol, whose metadata may be nil
pub record ProtoPublishRequest : Type 0 where
  pub pubsub_name : String
  pub topic : String
  pub payload : String
  pub type : String
  pub data_content_type : String
  pub metadata : Option (Dict String)

pub data Code : Type 0 where
  invalid_argument unknown : Code

-- an error of Go, or one with a status
pub data Failure : Type 0 where
  plain : Error → Failure
  status : Code → Error → Failure

abbrev pub metadata_or_empty : Option (Dict String) → Dict String
metadata_or_empty none = []
metadata_or_empty (some m) = m

abbrev pub to_request : ProtoPublishRequest → String → PublishRequest
to_request request content = record {
  pubsub_name = request.pubsub_name;
  topic = request.topic;
  payload = content;
  type = request.type;
  data_content_type = request.data_content_type;
  metadata = metadata_or_empty request.metadata;
}

abbrev pub unknown_status : Option Error → Option Failure
unknown_status none = none
unknown_status (some e) = some (status unknown e)

unfoldable pub publish :
    {W : Type 0}
    → (String → Result String)
    → (PublishRequest → W → W × Option Error)
    → ProtoPublishRequest
    → W
    → W × Option Failure
publish unmarshal publish_handler request w =
    if request.topic == ""
    then (w, some (status invalid_argument ("topic is empty in pubsub " ⊕ request.pubsub_name)))
    else elim (unmarshal request.payload) [
      | err e ↦ (w, some (plain e))
      | ok content ↦
          let (w', e) = publish_handler (to_request request content) w in (w', unknown_status e)
    ]

-- Duration of the protocol; `as_duration` is `AsDuration`
pub record ProtoDuration : Type 0 where
  pub seconds : ℤ
  pub nanos : ℤ

-- SubscriptionOptions of the protocol
pub record ProtoSubscriptionOptions : Type 0 where
  pub durable : Option Bool
  pub q_group : Option Bool
  pub max_concurrent_messages : Option ℤ
  pub deliver_new_messages_only : Option Bool
  pub ack_wait_time : Option ProtoDuration

abbrev pub map_option {ℓ κ} : {A : Type ℓ} {B : Type κ} → (A → B) → Option A → Option B
map_option f none = none
map_option f (some a) = some (f a)

unfoldable pub messaging_subscription_options :
    (ProtoDuration → ℤ) → Option ProtoSubscriptionOptions → Option SubscriptionOptions
messaging_subscription_options as_duration none = none
messaging_subscription_options as_duration (some o) = some (record {
  durable = o.durable;
  q_group = o.q_group;
  max_concurrent_messages = o.max_concurrent_messages;
  deliver_new_messages_only = o.deliver_new_messages_only;
  ack_wait_time = map_option as_duration o.ack_wait_time;
})
