-- ===== src/Nats/Merge/Laws.antt =====
-- What a subscription's own options change in those of the bus.
use rusi.Prelude.{◌≡◌, ◌↔◌, true, Option, none, some, arith, ◌==◌, eq_iff, if◌then◌else◌, ok, err}
use rusi.Prelude.Int.{to_uint64}
use rusi.Messaging.{SubscriptionOptions}
use rusi.Nats.{Options}
use rusi.Nats.Merge.{merge_global_and_subscription_options}

-- a value of the subscription, or else the bus's
abbrev pub or_global : {A B : Type 0} → Option A → (A → B) → B → B
or_global none f global = global
or_global (some a) f global = f a

-- the merged options, field by field
pub record IsMerged (global : Options) (s : SubscriptionOptions) (m : Options) : Type 0 where
  pub url : m.nats_url ≡ global.nats_url
  pub cluster : m.nats_streaming_cluster_id ≡ global.nats_streaming_cluster_id
  pub durable :
      m.durable_subscription_name
      ≡ or_global s.durable
          (λ d.
            if d
            then (if global.durable_subscription_name == ""
                then "durable"
                else global.durable_subscription_name)
            else "")
          global.durable_subscription_name
  pub type :
      m.subscription_type
      ≡ or_global s.q_group (λ q. if q then "queue" else "topic") global.subscription_type
  pub max : m.max_in_flight ≡ or_global s.max_concurrent_messages to_uint64 global.max_in_flight
  pub deliver_new :
      m.deliver_new
      ≡ or_global s.deliver_new_messages_only
          (λ d. if d then "true" else global.deliver_new)
          global.deliver_new
  pub deliver_all :
      m.deliver_all
      ≡ or_global s.deliver_new_messages_only
          (λ d. if d then global.deliver_all else "true")
          global.deliver_all
  pub ack_wait : m.ack_wait_time ≡ or_global s.ack_wait_time (λ d. d) global.ack_wait_time

-- Options that merge are the subscription's where it sets them and the bus's elsewhere.
pub merge-IsMerged :
    (global m : Options) (s : SubscriptionOptions)
    → merge_global_and_subscription_options global (some s) ≡ ok m
    → IsMerged global s m
unfolding merge_global_and_subscription_options
merge-IsMerged global m s h = ground arith

-- The merge is refused exactly when a queue group is asked for and the bus has no group name.
merge_refused_iff :
    (global : Options) (s : SubscriptionOptions)
    → (merge_global_and_subscription_options global (some s)
        ≡ err "nats-streaming error: missing queue group name")
      ↔ ((s.q_group ≡ some true) × (global.nats_queue_group_name ≡ ""))
unfolding merge_global_and_subscription_options
merge_refused_iff global s = ground (arith, eq_iff global.nats_queue_group_name "")
