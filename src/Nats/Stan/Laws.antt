-- ===== src/Nats/Stan/Laws.antt =====
-- The options that a subscription is opened with.
use rusi.Prelude.{
  ℕ, ◌+◌, ◌^◌, ◌≤◌, ◌<◌, String, ◌≡◌, Bool, true, false, some, List, [], ◌∷◌, arith, eq_iff,
  if◌then◌else◌, Result, ok,
}
use rusi.Prelude.Int.{negsuc}
use rusi.Messaging.{SubscriptionOptions}
use rusi.Nats.{Options}
use rusi.Nats.Merge.{merge_global_and_subscription_options}
use rusi.Nats.Merge.Laws.{merge-IsMerged}
use rusi.Nats.Stan.{
  StanOption, start_at_new_only, start_at_sequence, start_with_last_received, deliver_all_available,
  start_at_time_delta, start_at_time, set_manual_ack_mode, max_inflight, time_options,
  start_position, inflight_options, stan_subscription_options,
}

module _ {Time : Type 0} where
  abbrev pub is_start : StanOption Time → Bool
  is_start start_at_new_only = true
  is_start (start_at_sequence _) = true
  is_start start_with_last_received = true
  is_start deliver_all_available = true
  is_start (start_at_time_delta _) = true
  is_start (start_at_time _) = true
  is_start _ = false

  abbrev pub is_manual_ack : StanOption Time → Bool
  is_manual_ack set_manual_ack_mode = true
  is_manual_ack _ = false

  abbrev pub count : (StanOption Time → Bool) → List (StanOption Time) → ℕ
  count p [] = 0
  count p (o ∷ os) = (if p o then 1 else 0) + count p os

module _ {Time : Type 0} (parse_time : String → String → Result Time) where
  -- Every subscription has one start position at most, and acknowledges by hand.
  pub stan_subscription_options-start :
      (opts : Options) (l : List (StanOption Time))
      → stan_subscription_options parse_time opts ≡ ok l
      → (count is_start l ≤ 1) × (count is_manual_ack l ≡ 1)
  unfolding stan_subscription_options start_position time_options
  stan_subscription_options-start opts l h = ground arith

  -- Where the bus is set to deliver new messages only, a subscription that asks for all of them starts
  -- with new messages nevertheless.
  start_position-deliver_new :
      (global m : Options) (s : SubscriptionOptions)
      → global.deliver_new ≡ "true"
      → s.deliver_new_messages_only ≡ some false
      → merge_global_and_subscription_options global (some s) ≡ ok m
      → start_position parse_time m ≡ ok (start_at_new_only ∷ [])
  unfolding start_position
  start_position-deliver_new global m s all asked h =
      let kept : m.deliver_new ≡ "true" =
        ground (arith, (merge-IsMerged global m s h).deliver_new) in
      ground (arith, (eq_iff m.deliver_new "true").1 kept)

  -- A negative number of concurrent messages passes the test that it is at least one, and reaches the
  -- server as it is.
  inflight_options-negative :
      (global m : Options) (s : SubscriptionOptions) (n : ℕ)
      → n < 2 ^ 31
      → s.max_concurrent_messages ≡ some (negsuc n)
      → merge_global_and_subscription_options global (some s) ≡ ok m
      → inflight_options parse_time m ≡ max_inflight (negsuc n) ∷ []
  unfolding merge_global_and_subscription_options
  inflight_options-negative global m s n small asked h = ground arith
