-- ===== src/JetStream/Merge/Laws.antt =====
-- What a subscription's own options change in those of the JetStream bus.
use rusi.Prelude.{◌≡◌, ◌≢◌, true, none, some, arith, eq_iff, if◌then◌else◌, ok}
use rusi.Messaging.{SubscriptionOptions}
use rusi.JetStream.{Options}
use rusi.JetStream.Merge.{merge_global_and_subscription_options, or_else}

pub record IsMerged (global : Options) (s : SubscriptionOptions) (m : Options) : Type 0 where
  pub url : m.nats_url ≡ global.nats_url
  pub consumer : m.consumer_id ≡ global.consumer_id
  pub durable :
      m.durable_subscription_name
      ≡ elim s.durable [ none ↦ "" | some d ↦ if d then global.durable_subscription_name else "" ]
  pub named : s.durable ≡ some true → m.durable_subscription_name ≢ ""
  pub group : m.queue_group ≡ or_else s.q_group global.queue_group
  pub max : m.max_in_flight ≡ or_else s.max_concurrent_messages global.max_in_flight
  pub ack_wait : m.ack_wait_time ≡ or_else s.ack_wait_time global.ack_wait_time

-- Options that merge are the subscription's where it sets them and the bus's elsewhere, but for the
-- durable name: the bus's is kept only where the subscription asks to be durable, and then there is one.
pub jet_merge-IsMerged :
    (global m : Options) (s : SubscriptionOptions)
    → merge_global_and_subscription_options global (some s) ≡ ok m
    → IsMerged global s m
unfolding merge_global_and_subscription_options
jet_merge-IsMerged global m s h = record {
  url = ground arith;
  consumer = ground arith;
  durable = ground arith;
  named = λ d. ground (arith, d, h, eq_iff global.durable_subscription_name "");
  group = ground arith;
  max = ground arith;
  ack_wait = ground arith;
}

-- the options of a subscription that has none of its own are the bus's
pub merge-none :
    (global m : Options) → merge_global_and_subscription_options global none ≡ ok m → m ≡ global
unfolding merge_global_and_subscription_options
merge-none global m h = ground (arith, h)
