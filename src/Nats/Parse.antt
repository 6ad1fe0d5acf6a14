-- ===== src/Nats/Parse.antt =====
-- parseNATSStreamingMetadata of pkg/messaging/nats/nats.go. `parse_duration` is time.ParseDuration and
-- `default_connect_wait` is stan.DefaultConnectWait. The text that a parser's own error adds to a
-- message is left out.
pub mod Laws
use rusi.Prelude.{
  ℕ, zero, suc, ◌+◌, ◌-◌, ◌*◌, ◌/◌, ◌%◌, ◌^◌, ◌≤◌, ◌<◌, String, ◌≡◌, refl, sym, ap, ◌∙◌, subst, ◌≢◌,
  ◌↔◌, ◌⊎◌, inl, inr, Bool, true, false, not, ◌&&◌, ◌||◌, Option, none, some, List, [], ◌∷◌, ◌++◌,
  map, append_assoc, append-nil, arith, ◌==◌, eq_iff, eq_refl, ltb, leb, beq, if◌then◌else◌,
  Bool-cases, Option-cases, length, is_empty, any, length-append, any-append_right, All, All-append,
  Error, Result, ok, err, ◌>>=◌, ◌>>◌, fail_if, Result-cases, >>=-eq-ok,
}
use rusi.Prelude.Int.{ℤ, pos, negsuc, pos_part, neg_part, neg, ltb_ℤ, IsSigned, to_uint64, to_int64}
use rusi.Prelude.Dict.{
  Dict, lookup, insert, delete, lookup-insert, lookup-delete, lookup-empty, dict_laws, get,
}
use rusi.Prelude.Text.{◌⊕◌, single, to_lower, to_lower-append, split, trim_space, replace_char}
use rusi.Prelude.Number.{parse_uint64, parse_int32, parse_int32-IsSigned, parse_uint64-lt, itoa}
use rusi.Nats.{Options, subscription_type_queue_group, subscription_type_topic}

abbrev pub empty_options : ℤ → Options
empty_options connect_wait = record {
  nats_url = "";
  nats_streaming_cluster_id = "";
  subscription_type = "";
  nats_queue_group_name = "";
  durable_subscription_name = "";
  start_at_sequence = 0;
  start_with_last_received = "";
  deliver_new = "";
  deliver_all = "";
  start_at_time_delta = pos 0;
  connect_wait = connect_wait;
  start_at_time = "";
  start_at_time_format = "";
  ack_wait_time = pos 0;
  max_in_flight = 0;
}

-- `val, ok := properties[key]; ok && val != ""`
unfoldable pub given : String → Dict String → Option String
given key properties = elim (lookup key properties) [
  | none ↦ none
  | some val ↦ if val == "" then none else some val
]

unfoldable pub required : String → Error → Dict String → Result String
unfolding given
required key message properties = elim (given key properties) [
  | none ↦ err message
  | some val ↦ ok val
]

-- a key whose only valid value is "true", once it is there
unfoldable pub only_true : String → Error → Result String
only_true val message = if val == "true" then ok val else err message

pub read_subscription_type : Dict String → Result String
read_subscription_type properties = elim (lookup "subscriptionType" properties) [
  | none ↦ ok ""
  | some val ↦
      if val == subscription_type_topic || val == subscription_type_queue_group
      then ok val
      else err "nats-streaming error: valid value for subscriptionType is topic or queue"
]

-- a positive number behind a key; 0 where the key is not given
pub read_positive : String → Error → Error → Dict String → Result ℕ
unfolding given
read_positive key syntax_message range_message properties = elim (given key properties) [
  | none ↦ ok 0
  | some val ↦ elim (parse_uint64 val) [
    | none ↦ err syntax_message
    | some n ↦ if ltb n 1 then err range_message else ok n
  ]
]

module _ (parse_duration : String → Option ℤ) where
  -- a duration behind a key, or the value that the option has
  unfoldable pub read_duration : String → Error → ℤ → Dict String → Result ℤ
  unfolding given
  read_duration key message default_value properties = elim (given key properties) [
    | none ↦ ok default_value
    | some val ↦ elim (parse_duration val) [ none ↦ err message | some d ↦ ok d ]
  ]

  -- the end of the chain of start options: a time, with its format
  pub start_at_time : Dict String → Options → Result Options
  unfolding given
  start_at_time properties m = elim (given "startAtTime" properties) [
    | none ↦ ok m
    | some val ↦ elim (given "startAtTimeFormat" properties) [
      | none ↦ err "nats-streaming error: missing value for startAtTimeFormat"
      | some format ↦ ok (record m { start_at_time = val; start_at_time_format = format })
    ]
  ]

  -- the links of the chain that read a duration, and what follows them
  pub start_by_time : Dict String → Options → Result Options
  unfolding start_at_time
  start_by_time properties m = elim (given "startAtTimeDelta" properties) [
    | some val ↦ elim (parse_duration val) [
      | none ↦ err "nats-streaming error"
      | some d ↦ ok (record m { start_at_time_delta = d })
    ]
    | none ↦ elim (given "connectWait" properties) [
      | some val ↦ elim (parse_duration val) [
        | none ↦ err "nats-streaming error"
        | some wait ↦ ok (record m { connect_wait = wait })
      ]
      | none ↦ start_at_time properties m
    ]
  ]

  -- `if … else if …`: the first key that is there decides
  unfoldable pub start_options : Dict String → Options → Result Options
  unfolding start_by_time read_positive only_true
  start_options properties m = elim (given "startAtSequence" properties) [
    | some _ ↦ (do
      seq ←
          read_positive "startAtSequence" "nats-streaming error"
            "nats-streaming error: startAtSequence should be equal to or more than 1" properties
      ok (record m { start_at_sequence = seq }))
    | none ↦ elim (lookup "startWithLastReceived" properties) [
      | some val ↦ (do
        v ← only_true val "nats-streaming error: valid value for startWithLastReceived is true"
        ok (record m { start_with_last_received = v }))
      | none ↦ elim (lookup "deliverAll" properties) [
        | some val ↦ (do
          v ← only_true val "nats-streaming error: valid value for deliverAll is true"
          ok (record m { deliver_all = v }))
        | none ↦ elim (lookup "deliverNew" properties) [
          | some val ↦ (do
            v ← only_true val "nats-streaming error: valid value for deliverNew is true"
            ok (record m { deliver_new = v }))
          | none ↦ start_by_time properties m
        ]
      ]
    ]
  ]

  unfoldable pub parse_nats_streaming_metadata : ℤ → Dict String → Result Options
  unfolding required read_subscription_type read_positive read_duration given
  parse_nats_streaming_metadata default_connect_wait properties = do
    url ← required "natsURL" "nats-streaming error: missing nats URL" properties
    cluster ←
        required "natsStreamingClusterID" "nats-streaming error: missing nats streaming cluster ID"
          properties
    subscription_type ← read_subscription_type properties
    group ← required "consumerID" "nats-streaming error: missing queue group name" properties
    ack_wait_time ← read_duration "ackWaitTime" "nats-streaming error" (pos 0) properties
    max_in_flight ←
        read_positive "maxInFlight" "nats-streaming error in parsemetadata for maxInFlight"
          "nats-streaming error: maxInFlight should be equal to or more than 1" properties
    start_options properties (record (empty_options default_connect_wait) {
      nats_url = url;
      nats_streaming_cluster_id = cluster;
      subscription_type = subscription_type;
      nats_queue_group_name = group;
      durable_subscription_name = get "durableSubscriptionName" properties;
      ack_wait_time = ack_wait_time;
      max_in_flight = max_in_flight;
    })
