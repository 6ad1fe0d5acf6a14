-- ===== src/Nats/Subscribe.antt =====
-- Init, Publish, Subscribe, Close and IsHealthy of pkg/messaging/nats/nats.go. What the stan and nats
-- libraries do, the message encoder and the random client id are parameters.
pub mod Laws
use rusi.Prelude.{
  ℕ, zero, suc, ◌+◌, ◌-◌, ◌*◌, ◌/◌, ◌%◌, ◌^◌, ◌≤◌, ◌<◌, String, ◌≡◌, refl, sym, ap, ◌∙◌, subst, ◌≢◌,
  ◌↔◌, ◌⊎◌, inl, inr, Bool, true, false, not, ◌&&◌, ◌||◌, Option, none, some, List, [], ◌∷◌, ◌++◌,
  map, append_assoc, append-nil, arith, ◌==◌, eq_iff, eq_refl, ltb, leb, beq, if◌then◌else◌,
  Bool-cases, Option-cases, length, is_empty, any, length-append, any-append_right, All, All-append,
  Error, Result, ok, err, ◌>>=◌, ◌>>◌, fail_if, Result-cases, >>=-eq-ok,
}
use rusi.Prelude.Int.{ℤ, pos, negsuc, pos_part, neg_part, neg, ltb_ℤ, IsSigned, to_uint64, to_int64}
use rusi.Prelude.Dict.{
  Dict, lookup, insert, delete, lookup-insert, lookup-delete, lookup-empty, dict_laws, get,
}
use rusi.Prelude.Text.{◌⊕◌, single, to_lower, to_lower-append, split, trim_space, replace_char}
use rusi.Prelude.Number.{parse_uint64, parse_int32, parse_int32-IsSigned, parse_uint64-lt, itoa}
use rusi.Messaging.{MessageEnvelope, SubscriptionOptions, HealthResult, unhealthy, healthy_result}
use rusi.Nats.{Options, subscription_type_queue_group, subscription_type_topic}
use rusi.Nats.Parse.{empty_options, parse_nats_streaming_metadata}
use rusi.Nats.Merge.{merge_global_and_subscription_options}
use rusi.Nats.Delivery.{ServerMessage, Delivered, deliver}
use rusi.Nats.Stan.{StanOption, stan_subscription_options}

-- The libraries that the bus calls. A subscription that the server returns may be nil.
pub record Stan (Conn Sub Time : Type 0) : Type 0 where
  pub default_connect_wait : ℤ
  pub parse_duration : String → Option ℤ
  pub parse_time : String → String → Result Time
  pub gen_random_string : ℕ → String
  pub connect : (cluster client_id url : String) → ℤ → Result Conn
  pub publish : Conn → String → String → Option Error
  -- both are given the message handler
  pub subscribe :
      Conn
      → (topic : String) → (ServerMessage → Delivered)
      → List (StanOption Time)
      → Result (Option Sub)
  pub queue_subscribe :
      Conn
      → (topic group : String) → (ServerMessage → Delivered)
      → List (StanOption Time)
      → Result (Option Sub)
  -- what is filled in, and the error
  pub unmarshal : String → MessageEnvelope × Option Error
  pub marshal : MessageEnvelope → Result String
  pub is_connected : Conn → Bool
  pub close : Conn → Conn × Option Error

pub record NatsStreamingPubSub (Conn : Type 0) : Type 0 where
  pub options : Options
  pub nat_streaming_conn : Option Conn
  pub closed : Bool
  -- the context that handlers run in has been cancelled
  pub cancelled : Bool

module _ {Conn Sub Time : Type 0} (stan : Stan Conn Sub Time) where
  abbrev pub new_nats_streaming_pub_sub : NatsStreamingPubSub Conn
  new_nats_streaming_pub_sub = record {
    options = empty_options (pos 0);
    nat_streaming_conn = none;
    closed = false;
    cancelled = false;
  }

  -- Options that parse are kept, whether or not the connection is made.
  pub init : Dict String → NatsStreamingPubSub Conn → NatsStreamingPubSub Conn × Option Error
  init properties n =
      elim (parse_nats_streaming_metadata stan.parse_duration stan.default_connect_wait
        properties) [
          | err e ↦ (n, some e)
          | ok m ↦
              elim (stan.connect m.nats_streaming_cluster_id (stan.gen_random_string 20) m.nats_url
                m.connect_wait) [
                  | err e ↦ (
                    record n { options = m },
                    some (
                        "nats-streaming: error connecting to nats streaming server "
                        ⊕ m.nats_streaming_cluster_id ⊕ ": " ⊕ e),
                  )
                  | ok conn ↦ (
                    record n { options = m; nat_streaming_conn = some conn; cancelled = false },
                    none,
                  )
                ]
        ]

  pub publish : String → MessageEnvelope → Conn → Option Error
  publish topic msg conn = elim (stan.marshal msg) [
    | err e ↦ some e
    | ok msg_bytes ↦ elim (stan.publish conn topic msg_bytes) [
      | none ↦ none
      | some e ↦ some ("nats-streaming: error from publish: " ⊕ e)
    ]
  ]

  -- the call that the subscription type selects; the group is the bus's own, not the merged one
  pub open_subscription :
      NatsStreamingPubSub Conn
      → Conn
      → String
      → Options
      → (ServerMessage → Delivered)
      → List (StanOption Time)
      → Result (Option Sub)
  open_subscription n conn topic merged nats_msg_handler stan_options =
      if merged.subscription_type == subscription_type_topic
      then stan.subscribe conn topic nats_msg_handler stan_options
      else if merged.subscription_type == subscription_type_queue_group
      then stan.queue_subscribe conn topic n.options.nats_queue_group_name nats_msg_handler
          stan_options
      else ok none

  abbrev pub with_context : {A : Type 0} → String → Result A → Result A
  with_context context (ok a) = ok a
  with_context context (err e) = err (context ⊕ e)

  abbrev pub not_nil : Option Sub → Result Sub
  not_nil (some sub) = ok sub
  not_nil none = err "nats-streaming: subscribe error %!s(<nil>)"

  -- the subscription of a bus that is connected; `handler` is the subscriber's, in the context of the bus
  unfoldable pub subscribe :
      NatsStreamingPubSub Conn
      → Conn
      → String
      → (MessageEnvelope → Option Error)
      → Option SubscriptionOptions
      → Result Sub
  unfolding open_subscription
  subscribe n conn topic handler options = do
    merged ←
        with_context "nats-streaming: error getting subscription options "
          (merge_global_and_subscription_options n.options options)
    stan_options ←
        with_context "nats-streaming: error getting stan subscription options "
          (stan_subscription_options stan.parse_time merged)
    subs ←
        with_context "nats-streaming: subscribe error "
          (open_subscription n conn topic merged (deliver stan.unmarshal handler) stan_options)
    not_nil subs

  pub close : NatsStreamingPubSub Conn → Conn → NatsStreamingPubSub Conn × Option Error
  close n conn =
      let (conn', e) = stan.close conn in
      (record n { cancelled = true; nat_streaming_conn = some conn' }, e)

  pub is_healthy : NatsStreamingPubSub Conn → HealthResult
  is_healthy n =
      let down : HealthResult = record {
        status = unhealthy;
        description = "nats pubsub connection is closed";
      } in
      if n.closed then down else elim n.nat_streaming_conn [
        | none ↦ down
        | some conn ↦ if stan.is_connected conn then healthy_result else down
      ]
