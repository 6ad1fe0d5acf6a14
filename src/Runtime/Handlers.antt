-- ===== src/Runtime/Handlers.antt =====
-- The publish and subscribe handlers of pkg/runtime/runtime.go, and the subscriber service of
-- pkg/runtime/service/subscriber.go. Pub-subs `P`, what they act on `W`, the closers `K` of subscriptions, and the
-- tracing and metrics middlewares are parameters.
pub mod Laws
use rusi.Prelude.{
  ℕ, zero, suc, ◌+◌, ◌-◌, ◌*◌, ◌/◌, ◌%◌, ◌^◌, ◌≤◌, ◌<◌, String, ◌≡◌, refl, sym, ap, ◌∙◌, subst, ◌≢◌,
  ◌↔◌, ◌⊎◌, inl, inr, Bool, true, false, not, ◌&&◌, ◌||◌, Option, none, some, List, [], ◌∷◌, ◌++◌,
  map, append_assoc, append-nil, arith, ◌==◌, eq_iff, eq_refl, ltb, leb, beq, if◌then◌else◌,
  Bool-cases, Option-cases, length, is_empty, any, length-append, any-append_right, All, All-append,
  Error, Result, ok, err, ◌>>=◌, ◌>>◌, fail_if, Result-cases, >>=-eq-ok,
}
use rusi.Prelude.Int.{ℤ, pos, negsuc, pos_part, neg_part, neg, ltb_ℤ, IsSigned, to_uint64, to_int64}
use rusi.Prelude.Dict.{
  Dict, lookup, insert, delete, lookup-insert, lookup-delete, lookup-empty, dict_laws, get,
}
use rusi.Prelude.Text.{◌⊕◌, single, to_lower, to_lower-append, split, trim_space, replace_char}
use rusi.Prelude.Number.{parse_uint64, parse_int32, parse_int32-IsSigned, parse_uint64-lt, itoa}
use rusi.Messaging.{MessageEnvelope, SubscriptionOptions, PublishRequest, SubscribeRequest}
use rusi.Messaging.Pipeline.{build, use_middleware}
use rusi.Components.Manager.{Manager, get_middleware, get_pub_sub}

-- HandlerSpec, and of Spec of pkg/custom-resource/configuration/types.go what the handlers read
pub record HandlerSpec : Type 0 where
  pub name : String
  pub type : String
  pub version : String

pub record AppConfig : Type 0 where
  pub pub_sub_name : String
  pub subscriber_handlers : List HandlerSpec

-- A handler is given the topic of its context.
abbrev pub Handler : Type 0 → Type 0
Handler W = String → MessageEnvelope → W → W × Option Error

abbrev pub Middleware : Type 0 → Type 0
Middleware W = Handler W → Handler W

pub record Runtime (P W : Type 0) : Type 0 where
  pub app_config : AppConfig
  pub components_manager : Manager P (Middleware W)

pub record Backend (P W K : Type 0) : Type 0 where
  pub publish : P → String → MessageEnvelope → W → W × Option Error
  pub subscribe : P → String → Handler W → Option SubscriptionOptions → W → W × Result K
  pub publisher_tracing : Middleware W
  pub publisher_metrics : Middleware W
  pub subscriber_tracing : Middleware W
  pub subscriber_metrics : Middleware W

unfoldable pub pub_sub_name_of : String → AppConfig → String
pub_sub_name_of requested config = if requested == "" then config.pub_sub_name else requested

module _ {P W K : Type 0} (backend : Backend P W K) where
  -- the envelope of a request, with the id and the time that are made for it
  abbrev pub envelope : String → ℤ → PublishRequest → MessageEnvelope
  envelope id now request = record {
    id = id;
    time = now;
    spec_version = "";
    subject = request.topic;
    type = request.type;
    data_content_type = request.data_content_type;
    headers = some request.metadata;
    payload = request.payload;
  }

  abbrev pub publish_to : P → String → Handler W
  publish_to publisher topic _ env w = backend.publish publisher topic env w

  unfoldable pub publish_handler : Runtime P W → String → ℤ → PublishRequest → W → W × Option Error
  unfolding pub_sub_name_of get_pub_sub build use_middleware
  publish_handler rt id now request w =
      let name = pub_sub_name_of request.pubsub_name rt.app_config in
      if name == ""
      then (
        w,
        some
            "PubSubName is empty. Please provide a valid pubSub name in the publish request or via configuration.",
      )
      else elim (get_pub_sub name rt.components_manager) [
        | none ↦ (w, some ("pubsub " ⊕ name ⊕ " not found"))
        | some publisher ↦
            let pipe =
              use_middleware backend.publisher_metrics
                (use_middleware backend.publisher_tracing []) in
            build pipe (publish_to publisher request.topic) request.topic (envelope id now request)
              w
      ]

  -- the loop over the handlers of the subscriber pipeline
  unfoldable pub build_subscriber_pipeline :
      List HandlerSpec → Runtime P W → Result (List (Middleware W))
  unfolding get_middleware
  build_subscriber_pipeline [] rt = ok []
  build_subscriber_pipeline (spec ∷ rest) rt = do
    midlw ← get_middleware spec.type spec.name spec.version rt.components_manager
    others ← build_subscriber_pipeline rest rt
    ok (midlw ∷ others)

  -- the handler that the pub-sub is given: the topic goes into the context
  abbrev pub with_topic : String → Handler W → Handler W
  with_topic topic pipe _ env w = pipe topic env w

  unfoldable pub start_subscribing :
      P → List (Middleware W) → SubscribeRequest (Handler W) → W → W × Result K
  unfolding build use_middleware
  start_subscribing subscriber pipeline request w =
      let pipe =
        build
          (use_middleware backend.subscriber_tracing
            (use_middleware backend.subscriber_metrics pipeline))
          request.handler in
      backend.subscribe subscriber request.topic (with_topic request.topic pipe) request.options w

  unfoldable pub subscribe_handler : Runtime P W → SubscribeRequest (Handler W) → W → W × Result K
  unfolding pub_sub_name_of get_pub_sub build_subscriber_pipeline start_subscribing
  subscribe_handler rt request w =
      let name = pub_sub_name_of request.pubsub_name rt.app_config in
      if name == ""
      then (
        w,
        err
            "PubSubName is empty. Please provide a valid pubSub name in the subscribe request or via configuration.",
      )
      else elim (get_pub_sub name rt.components_manager) [
        | none ↦ (w, err ("cannot find PubsubName named " ⊕ name))
        | some subs ↦ elim (build_subscriber_pipeline rt.app_config.subscriber_handlers rt) [
          | err e ↦ (w, err e)
          | ok pipeline ↦ start_subscribing subs pipeline request w
        ]
      ]
