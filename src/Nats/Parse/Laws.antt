-- ===== src/Nats/Parse/Laws.antt =====
-- What options that parse have in common.
use rusi.Prelude.{
  ℕ, ◌+◌, ◌^◌, ◌≤◌, ◌<◌, String, ◌≡◌, refl, ◌≢◌, ◌⊎◌, inl, inr, Option, arith, ◌==◌, eq_iff, ltb,
  if◌then◌else◌, Option-cases, Error, ok, >>=-eq-ok,
}
use rusi.Prelude.Int.{ℤ, pos, ltb_ℤ}
use rusi.Prelude.Dict.{Dict, lookup}
use rusi.Prelude.Number.{parse_uint64-lt}
use rusi.Nats.{Options}
use rusi.Nats.Parse.{
  given, required, read_subscription_type, read_positive, read_duration, start_at_time,
  start_by_time, start_options, parse_nats_streaming_metadata,
}

-- one for each start option that is set
abbrev pub start_options_set : Options → ℕ
start_options_set m =
    (if ltb 0 m.start_at_sequence then 1 else 0)
    + (if m.start_with_last_received == "" then 0 else 1)
    + (if m.deliver_all == "" then 0 else 1)
    + (if m.deliver_new == "" then 0 else 1)
    + (if ltb_ℤ (pos 0) m.start_at_time_delta then 1 else 0)
    + (if m.start_at_time == "" then 0 else 1)

abbrev NoStart : Options → Type 0
NoStart m =
    (m.start_at_sequence ≡ 0)
    × (m.start_with_last_received ≡ "")
    × (m.deliver_all ≡ "")
    × (m.deliver_new ≡ "")
    × (m.start_at_time_delta ≡ pos 0)
    × (m.start_at_time ≡ "")

module _ (parse_duration : String → Option ℤ) (properties : Dict String) where
  start_at_time-set :
      (m m' : Options)
      → NoStart m
      → start_at_time parse_duration properties m ≡ ok m'
      → start_options_set m' ≤ 1
  unfolding start_at_time
  start_at_time-set m m' h e = ground (arith, eq_iff m.start_at_time "")

  start_by_time-set :
      (m m' : Options)
      → NoStart m
      → start_by_time parse_duration properties m ≡ ok m'
      → start_options_set m' ≤ 1
  unfolding start_by_time
  start_by_time-set m m' h e = ground (arith, eq_iff m.start_at_time "", start_at_time-set m m' h)

  start_options-set :
      (m m' : Options)
      → NoStart m
      → start_options parse_duration properties m ≡ ok m'
      → start_options_set m' ≤ 1
  unfolding start_options
  start_options-set m m' h e = elim (Option-cases (given "startAtSequence" properties)) [
    | inr (v, set) ↦ ground (arith, set, eq_iff m.start_at_time "")
    | inl unset ↦ elim (Option-cases (lookup "startWithLastReceived" properties)) [
      | inr (v, set) ↦ ground (arith, unset, set, eq_iff m.start_at_time "")
      | inl unset₁ ↦ elim (Option-cases (lookup "deliverAll" properties)) [
        | inr (v, set) ↦ ground (arith, unset, unset₁, set, eq_iff m.start_at_time "")
        | inl unset₂ ↦
            ground
              (arith, unset, unset₁, unset₂, eq_iff m.start_at_time "", start_by_time-set m m' h)
      ]
    ]
  ]

-- What holds of all options that parse.
pub record IsParsed (m : Options) : Type 0 where
  pub url : m.nats_url ≢ ""
  pub cluster : m.nats_streaming_cluster_id ≢ ""
  pub group : m.nats_queue_group_name ≢ ""
  pub type :
      (m.subscription_type ≡ "")
      ⊎ ((m.subscription_type ≡ "topic") ⊎ (m.subscription_type ≡ "queue"))
  pub max : m.max_in_flight < 2 ^ 64
  pub start : start_options_set m ≤ 1

required-ne-empty :
    (key : String) (message : Error) (properties : Dict String) (val : String)
    → required key message properties ≡ ok val
    → val ≢ ""
unfolding required
required-ne-empty key message properties val h = grind (arith, eq_iff)

read_positive-lt :
    (key : String) (syntax range : Error) (properties : Dict String) (n : ℕ)
    → read_positive key syntax range properties ≡ ok n
    → n < 2 ^ 64
unfolding read_positive
read_positive-lt key syntax range properties n h = grind (arith, parse_uint64-lt)

read_subscription_type-valid :
    (properties : Dict String) (t : String)
    → read_subscription_type properties ≡ ok t
    → (t ≡ "") ⊎ ((t ≡ "topic") ⊎ (t ≡ "queue"))
unfolding read_subscription_type
read_subscription_type-valid properties t h =
    elim (Option-cases (lookup "subscriptionType" properties)) [
      | inl unset ↦ ground (arith, unset)
      | inr (val, set) ↦ ground (arith, set, eq_iff val "topic", eq_iff val "queue")
    ]

-- the chain of start options leaves the other fields
abbrev SameRest : Options → Options → Type 0
SameRest m m' =
    (m'.nats_url ≡ m.nats_url)
    × (m'.nats_streaming_cluster_id ≡ m.nats_streaming_cluster_id)
    × (m'.nats_queue_group_name ≡ m.nats_queue_group_name)
    × (m'.subscription_type ≡ m.subscription_type)
    × (m'.max_in_flight ≡ m.max_in_flight)

module _ (parse_duration : String → Option ℤ) where
  start_options-SameRest :
      (properties : Dict String) (m m' : Options)
      → start_options parse_duration properties m ≡ ok m'
      → SameRest m m'
  unfolding start_options
  start_options-SameRest properties m m' e = ground arith

  -- Options that parse name a server, a cluster and a queue group, have a subscription type that is
  -- unset, topic or queue, a number of messages in flight that fits 64 bits, and one start option at
  -- most.
  pub parse_nats_streaming_metadata-IsParsed :
      (default_connect_wait : ℤ) (properties : Dict String) (m : Options)
      → parse_nats_streaming_metadata parse_duration default_connect_wait properties ≡ ok m
      → IsParsed m
  unfolding parse_nats_streaming_metadata
  parse_nats_streaming_metadata-IsParsed default_connect_wait properties m h =
      let (url, e₁, h₁) =
        >>=-eq-ok (required "natsURL" "nats-streaming error: missing nats URL" properties) _ h in
      let (cluster, e₂, h₂) =
        >>=-eq-ok
          (required "natsStreamingClusterID"
            "nats-streaming error: missing nats streaming cluster ID" properties)
          _ h₁ in
      let (type, e₃, h₃) = >>=-eq-ok (read_subscription_type properties) _ h₂ in
      let (group, e₄, h₄) =
        >>=-eq-ok
          (required "consumerID" "nats-streaming error: missing queue group name" properties) _
          h₃ in
      let (wait, e₅, h₅) =
        >>=-eq-ok
          (read_duration parse_duration "ackWaitTime" "nats-streaming error" (pos 0) properties) _
          h₄ in
      let (max, e₆, h₆) =
        >>=-eq-ok
          (read_positive "maxInFlight" "nats-streaming error in parsemetadata for maxInFlight"
            "nats-streaming error: maxInFlight should be equal to or more than 1" properties)
          _ h₅ in
      let same = start_options-SameRest properties _ m h₆ in
      record {
        url = rw same.0 (required-ne-empty _ _ properties url e₁);
        cluster = rw same.1 (required-ne-empty _ _ properties cluster e₂);
        group = rw same.2 (required-ne-empty _ _ properties group e₄);
        type = rw same.3 (read_subscription_type-valid properties type e₃);
        max = rw same.4 (read_positive-lt _ _ _ properties max e₆);
        start =
            start_options-set parse_duration properties _ m (refl, refl, refl, refl, refl, refl) h₆;
      }
