-- ===== src/Nats/Subscribe/Laws.antt =====
-- When a NATS streaming subscription can be opened.
use rusi.Prelude.{
  Error, String, ◌≡◌, ◌∙◌, ◌⊎◌, Option, some, List, arith, eq_iff, Result, ok, err, >>=-eq-ok,
}
use rusi.Messaging.{MessageEnvelope, SubscriptionOptions}
use rusi.Nats.{Options}
use rusi.Nats.Merge.{merge_global_and_subscription_options}
use rusi.Nats.Delivery.{deliver}
use rusi.Nats.Stan.{StanOption, stan_subscription_options}
use rusi.Nats.Subscribe.{Stan, NatsStreamingPubSub, open_subscription, with_context, subscribe}

-- how a subscription was opened
abbrev pub IsOpened :
    {Conn Sub Time : Type 0}
    → Stan Conn Sub Time
    → NatsStreamingPubSub Conn
    → Conn
    → String
    → (MessageEnvelope → Option Error)
    → Options
    → List (StanOption Time)
    → Sub
    → Type 0
IsOpened stan n conn topic handler merged l sub =
    let nats_msg_handler = deliver stan.unmarshal handler in
    ((merged.subscription_type ≡ "topic")
      × (stan.subscribe conn topic nats_msg_handler l ≡ ok (some sub)))
    ⊎ ((merged.subscription_type ≡ "queue")
        × (stan.queue_subscribe conn topic n.options.nats_queue_group_name nats_msg_handler l
            ≡ ok (some sub)))

module _ {Conn Sub Time : Type 0} (stan : Stan Conn Sub Time) (n : NatsStreamingPubSub Conn)
    (conn : Conn) (topic : String) (handler : MessageEnvelope → Option Error) where
  open_subscription-IsOpened :
      (merged : Options) (l : List (StanOption Time)) (sub : Sub)
      → open_subscription stan n conn topic merged (deliver stan.unmarshal handler) l
        ≡ ok (some sub)
      → IsOpened stan n conn topic handler merged l sub
  unfolding open_subscription
  open_subscription-IsOpened merged l sub h =
      ground
        (arith, eq_iff merged.subscription_type "topic", eq_iff merged.subscription_type "queue")

  with_context-ok :
      {A : Type 0} (context : String) (r : Result A) (a : A)
      → with_context stan context r ≡ ok a
      → r ≡ ok a
  with_context-ok context (ok b) a h = h
  with_context-ok context (err e) a h = absurd (cc)

  -- A subscription is opened with the merged options and the message handler that delivers to the
  -- subscriber's, by a call for a topic or for the bus's queue group as the merged type says; without a
  -- type there is no subscription.
  pub subscribe-IsOpened :
      (options : Option SubscriptionOptions) (sub : Sub)
      → subscribe stan n conn topic handler options ≡ ok sub
      → (merged : Options) × (l : List (StanOption Time)) × (merge_global_and_subscription_options
            n.options options
          ≡ ok merged)
        × (stan_subscription_options stan.parse_time merged ≡ ok l)
        × IsOpened stan n conn topic handler merged l sub
  unfolding subscribe
  subscribe-IsOpened options sub h =
      let (merged, e₁, h₁) =
        >>=-eq-ok
          (with_context stan "nats-streaming: error getting subscription options "
            (merge_global_and_subscription_options n.options options))
          _ h in
      let (l, e₂, h₂) =
        >>=-eq-ok
          (with_context stan "nats-streaming: error getting stan subscription options "
            (stan_subscription_options stan.parse_time merged))
          _ h₁ in
      let (subs, e₃, h₃) =
        >>=-eq-ok
          (with_context stan "nats-streaming: subscribe error "
            (open_subscription stan n conn topic merged (deliver stan.unmarshal handler) l))
          _ h₂ in
      (
        merged,
        l,
        with_context-ok _ _ merged e₁,
        with_context-ok _ _ l e₂,
        open_subscription-IsOpened merged l sub (with_context-ok _ _ subs e₃ ∙ ground (arith, h₃)),
      )
