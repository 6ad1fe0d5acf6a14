-- ===== src/JetStream/Bus/Laws.antt =====
-- What a JetStream subscription is set up with.
use rusi.Prelude.{
  String, ◌≡◌, ◌≢◌, refl, ap, ◌∙◌, true, false, Option, none, some, arith, eq_iff, Result, ok, err,
  >>=-eq-ok,
}
use rusi.Prelude.Int.{pos, pos_part, ltb_ℤ}
use rusi.Prelude.Text.{◌⊕◌, replace_char}
use rusi.Messaging.{SubscriptionOptions}
use rusi.JetStream.{Options}
use rusi.JetStream.Merge.{merge_global_and_subscription_options}
use rusi.JetStream.Merge.Laws.{IsMerged, jet_merge-IsMerged, merge-none}
use rusi.JetStream.Consumer.{ConsumerConfig, consumer_name, consumer_config, max_in_flight_of}
use rusi.JetStream.Pull.{start}
use rusi.JetStream.Bus.{Nats, JetStreamPubSub, Subscription, with_context, not_nil, subscribe}

-- the options that a subscription is made with: its own over the bus's, or the bus's
abbrev pub MadeWith : Options → Option SubscriptionOptions → Options → Type 0
MadeWith global none merged = merged ≡ global
MadeWith global (some options) merged = IsMerged global options merged

MadeWith-merge :
    (global merged : Options) (options : Option SubscriptionOptions)
    → merge_global_and_subscription_options global options ≡ ok merged
    → MadeWith global options merged
MadeWith-merge global merged none h = merge-none global merged h
MadeWith-merge global merged (some options) h = jet_merge-IsMerged global merged options h

-- a name of a consumer: the dots of the subscriber's name and of the topic are underscores
abbrev pub named : String → String → String
named name topic = replace_char b'.' "_" (name ⊕ "__" ⊕ topic)

-- what the server is asked for: a consumer of the topic with acknowledgement of each message that is kept
-- for an hour; a queue group shares it, by its durable name where it has one and else by the name of the
-- consumer, and without a group it has a name of its own
pub record IsConsumerOf (nuid : String) (merged : Options) (topic : String)
    (config : ConsumerConfig) : Type 0 where
  pub filter_subject : config.filter_subject ≡ topic
  pub ack_explicit : config.ack_explicit ≡ true
  pub inactive_threshold : config.inactive_threshold ≡ pos 3600000000000
  pub ack_wait_given :
      ltb_ℤ (pos 1) merged.ack_wait_time ≡ true → config.ack_wait ≡ merged.ack_wait_time
  pub ack_wait_default : ltb_ℤ (pos 1) merged.ack_wait_time ≡ false → config.ack_wait ≡ pos 0
  pub shared_durable :
      merged.queue_group ≡ true
      → merged.durable_subscription_name ≢ ""
      → (config.durable ≡ named merged.durable_subscription_name topic) × (config.name ≡ "")
  pub shared :
      merged.queue_group ≡ true
      → merged.durable_subscription_name ≡ ""
      → (config.durable ≡ "") × (config.name ≡ named merged.consumer_id topic)
  pub own :
      merged.queue_group ≡ false
      → (config.durable ≡ "") × (config.name ≡ named merged.consumer_id topic ⊕ "__" ⊕ nuid)

consumer_config-IsConsumerOf :
    (nuid : String) (merged : Options) (topic : String)
    → IsConsumerOf nuid merged topic (consumer_config nuid merged topic)
unfolding consumer_config consumer_name
consumer_config-IsConsumerOf nuid merged topic = record {
  filter_subject = refl;
  ack_explicit = refl;
  inactive_threshold = refl;
  ack_wait_given = λ h. ground (arith, h);
  ack_wait_default = λ h. ground (arith, h);
  shared_durable = λ g d. ground (arith, g, d, eq_iff merged.durable_subscription_name "");
  shared = λ g d. ground (arith, g, d, eq_iff merged.durable_subscription_name "");
  own = λ g. ground (arith, g);
}

slots_one : (m : Options) → ltb_ℤ m.max_in_flight (pos 1) ≡ true → pos_part (max_in_flight_of m) ≡ 1
unfolding max_in_flight_of
slots_one m h = ground (arith, h)

slots_many :
    (m : Options)
    → ltb_ℤ m.max_in_flight (pos 1) ≡ false
    → pos (pos_part (max_in_flight_of m)) ≡ m.max_in_flight
unfolding max_in_flight_of
slots_many m h = ground (arith, h)

module _ {Conn Consumer Iterator : Type 0} (nats : Nats Conn Consumer Iterator)
    (n : JetStreamPubSub Conn) (conn : Conn) (topic : String) where
  with_context-ok :
      {A : Type 0} (context : String) (r : Result A) (a : A)
      → with_context nats context r ≡ ok a
      → r ≡ ok a
  with_context-ok context (ok b) a h = h
  with_context-ok context (err e) a h = absurd (cc)

  -- A subscription that is made has a consumer of its options, its own over the bus's, on the topic's
  -- stream, with the fields that IsConsumerOf lists, and the iterator over that consumer's messages. It
  -- starts with an idle semaphore of as many slots as messages may be in flight, one at least.
  pub subscribe_lem :
      (options : Option SubscriptionOptions) (s : Subscription Iterator)
      → subscribe nats n conn topic options ≡ ok s
      → (merged : Options) × (stream : String) × (config : ConsumerConfig) × (consumer : Consumer)
        × MadeWith n.options options merged
        × (nats.stream_name_by_subject conn topic ≡ ok stream)
        × IsConsumerOf nats.next_nuid merged topic config
        × (nats.create_or_update_consumer conn stream config ≡ ok consumer)
        × (nats.messages consumer ≡ ok (some s.iterator))
        × (s.pull ≡ start s.pull.cap)
        × (ltb_ℤ merged.max_in_flight (pos 1) ≡ true → s.pull.cap ≡ 1)
        × (ltb_ℤ merged.max_in_flight (pos 1) ≡ false → pos s.pull.cap ≡ merged.max_in_flight)
  unfolding subscribe
  subscribe_lem options s h =
      let (merged, e₁, h₁) =
        >>=-eq-ok
          (with_context nats "jetStream: error getting subscription options "
            (merge_global_and_subscription_options n.options options))
          _ h in
      let (stream, e₂, h₂) =
        >>=-eq-ok
          (with_context nats ("jetStream: cannot find stream for topic " ⊕ topic ⊕ ": ")
            (nats.stream_name_by_subject conn topic))
          _ h₁ in
      let (consumer, e₃, h₃) =
        >>=-eq-ok
          (nats.create_or_update_consumer conn stream (consumer_config nats.next_nuid merged topic))
          _ h₂ in
      let (messages, e₄, h₄) =
        >>=-eq-ok (with_context nats "jetStream: subscribe error " (nats.messages consumer)) _ h₃ in
      let (iterator, e₅, h₅) = >>=-eq-ok (not_nil nats messages) _ h₄ in
      (
        merged,
        stream,
        consumer_config nats.next_nuid merged topic,
        consumer,
        MadeWith-merge n.options merged options (with_context-ok _ _ merged e₁),
        with_context-ok _ _ stream e₂,
        consumer_config-IsConsumerOf nats.next_nuid merged topic,
        e₃,
        with_context-ok _ _ messages e₄ ∙ ground (arith, e₅, h₅),
        ground (arith, h₅),
        λ few. ground (arith, h₅, slots_one merged few),
        λ many. ap pos (ground (arith, h₅)) ∙ slots_many merged many,
      )
