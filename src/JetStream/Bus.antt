-- ===== src/JetStream/Bus.antt =====
-- Init, Publish, Subscribe, Close and IsHealthy of pkg/messaging/jetstream/jetstream.go. What the nats
-- and jetstream libraries do and the message encoder are parameters.
pub mod Laws
use rusi.Prelude.{
  ℕ, zero, suc, ◌+◌, ◌-◌, ◌*◌, ◌/◌, ◌%◌, ◌^◌, ◌≤◌, ◌<◌, String, ◌≡◌, refl, sym, ap, ◌∙◌, subst, ◌≢◌,
  ◌↔◌, ◌⊎◌, inl, inr, Bool, true, false, not, ◌&&◌, ◌||◌, Option, none, some, List, [], ◌∷◌, ◌++◌,
  map, append_assoc, append-nil, arith, ◌==◌, eq_iff, eq_refl, ltb, leb, beq, if◌then◌else◌,
  Bool-cases, Option-cases, length, is_empty, any, length-append, any-append_right, All, All-append,
  Error, Result, ok, err, ◌>>=◌, ◌>>◌, fail_if, Result-cases, >>=-eq-ok,
}
use rusi.Prelude.Int.{ℤ, pos, negsuc, pos_part, neg_part, neg, ltb_ℤ, IsSigned, to_uint64, to_int64}
use rusi.Prelude.Dict.{
  Dict, lookup, insert, delete, lookup-insert, lookup-delete, lookup-empty, dict_laws, get,
}
use rusi.Prelude.Text.{◌⊕◌, single, to_lower, to_lower-append, split, trim_space, replace_char}
use rusi.Prelude.Number.{parse_uint64, parse_int32, parse_int32-IsSigned, parse_uint64-lt, itoa}
use rusi.Messaging.{MessageEnvelope, SubscriptionOptions, HealthResult, unhealthy, healthy_result}
use rusi.JetStream.{Options}
use rusi.JetStream.Parse.{empty_options, parse_metadata}
use rusi.JetStream.Merge.{merge_global_and_subscription_options}
use rusi.JetStream.Consumer.{ConsumerConfig, consumer_config, max_in_flight_of}
use rusi.JetStream.Pull.{Pull, start}

-- The libraries that the bus calls. An iterator that the server returns may be nil.
pub record Nats (Conn Consumer Iterator : Type 0) : Type 0 where
  pub default_timeout : ℤ
  pub parse_duration : String → Option ℤ
  pub next_nuid : String
  pub connect : String → ℤ → Result Conn
  pub publish : Conn → String → String → Option Error
  pub stream_name_by_subject : Conn → String → Result String
  pub create_or_update_consumer : Conn → String → ConsumerConfig → Result Consumer
  pub messages : Consumer → Result (Option Iterator)
  pub marshal : MessageEnvelope → Result String
  pub is_connected : Conn → Bool
  pub close : Conn → Conn

pub record JetStreamPubSub (Conn : Type 0) : Type 0 where
  pub options : Options
  pub nats_conn : Option Conn
  pub closed : Bool
  pub cancelled : Bool

-- what Subscribe leaves running: the iterator and the workers that pull from it
pub record Subscription (Iterator : Type 0) : Type 0 where
  pub iterator : Iterator
  pub pull : Pull

module _ {Conn Consumer Iterator : Type 0} (nats : Nats Conn Consumer Iterator) where
  abbrev pub new_jet_stream_pub_sub : JetStreamPubSub Conn
  new_jet_stream_pub_sub = record {
    options = empty_options (pos 0);
    nats_conn = none;
    closed = false;
    cancelled = false;
  }

  -- Options that parse are kept, whether or not the connection is made; a connection that is not made
  -- leaves nil.
  pub init : Dict String → JetStreamPubSub Conn → JetStreamPubSub Conn × Option Error
  init properties n = elim (parse_metadata nats.parse_duration nats.default_timeout properties) [
    | err e ↦ (n, some e)
    | ok m ↦ elim (nats.connect m.nats_url m.connect_wait) [
      | err e ↦ (
        record n { options = m; nats_conn = none },
        some ("jetStream: error connecting to nats server " ⊕ m.nats_url ⊕ ": " ⊕ e),
      )
      | ok conn ↦ (record n { options = m; nats_conn = some conn; cancelled = false }, none)
    ]
  ]

  pub publish : String → MessageEnvelope → Conn → Option Error
  publish topic msg conn = elim (nats.marshal msg) [
    | err e ↦ some e
    | ok msg_bytes ↦ elim (nats.publish conn topic msg_bytes) [
      | none ↦ none
      | some e ↦ some ("jetStream: error from publish: " ⊕ e)
    ]
  ]

  abbrev pub with_context : {A : Type 0} → String → Result A → Result A
  with_context context (ok a) = ok a
  with_context context (err e) = err (context ⊕ e)

  abbrev pub not_nil : Option Iterator → Result Iterator
  not_nil (some iterator) = ok iterator
  not_nil none = err "jetStream: subscribe error %!w(<nil>)"

  -- the subscription of a bus that is connected
  unfoldable pub subscribe :
      JetStreamPubSub Conn
      → Conn
      → String
      → Option SubscriptionOptions
      → Result (Subscription Iterator)
  subscribe n conn topic options = do
    merged ←
        with_context "jetStream: error getting subscription options "
          (merge_global_and_subscription_options n.options options)
    stream ←
        with_context ("jetStream: cannot find stream for topic " ⊕ topic ⊕ ": ")
          (nats.stream_name_by_subject conn topic)
    consumer ←
        nats.create_or_update_consumer conn stream (consumer_config nats.next_nuid merged topic)
    messages ← with_context "jetStream: subscribe error " (nats.messages consumer)
    iterator ← not_nil messages
    ok (record { iterator = iterator; pull = start (pos_part (max_in_flight_of merged)) })

  pub close : JetStreamPubSub Conn → Conn → JetStreamPubSub Conn
  close n conn = record n { cancelled = true; nats_conn = some (nats.close conn) }

  pub is_healthy : JetStreamPubSub Conn → HealthResult
  is_healthy n =
      let down : HealthResult = record {
        status = unhealthy;
        description = "jetStream pubsub connection is closed";
      } in
      if n.closed then down else elim n.nats_conn [
        | none ↦ down
        | some conn ↦ if nats.is_connected conn then healthy_result else down
      ]
