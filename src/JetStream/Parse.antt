-- ===== src/JetStream/Parse.antt =====
-- parseMetadata of pkg/messaging/jetstream/jetstream.go. `parse_duration` is time.ParseDuration and
-- `default_timeout` is nats.DefaultTimeout. The text that a parser's own error adds to a message is
-- left out.
use rusi.Prelude.{String, true, false, Option, none, some, if◌then◌else◌, Result, ok, err, ◌>>=◌}
use rusi.Prelude.Int.{ℤ, pos, ltb_ℤ}
use rusi.Prelude.Dict.{Dict, lookup}
use rusi.Prelude.Number.{parse_int32}
use rusi.Nats.Parse.{given, required, only_true, read_duration}
use rusi.JetStream.{Options}

abbrev pub empty_options : ℤ → Options
empty_options connect_wait = record {
  nats_url = "";
  consumer_id = "";
  durable_subscription_name = "";
  queue_group = false;
  deliver_new = "";
  deliver_all = "";
  connect_wait = connect_wait;
  ack_wait_time = pos 0;
  max_in_flight = pos 0;
}

pub read_max_in_flight : Dict String → Result ℤ
unfolding given
read_max_in_flight properties = elim (given "maxInFlight" properties) [
  | none ↦ ok (pos 0)
  | some val ↦ elim (parse_int32 val) [
    | none ↦ err "jetStream error in parsemetadata for maxInFlight"
    | some n ↦
        if ltb_ℤ n (pos 1)
        then err "jetStream error: maxInFlight should be equal to or more than 1"
        else ok n
  ]
]

-- deliverAll is looked at first, and deliverNew only where it is missing
pub read_deliver : Dict String → Options → Result Options
unfolding only_true
read_deliver properties m = elim (lookup "deliverAll" properties) [
  | some val ↦ (do
    v ← only_true val "jetStream error: valid value for deliverAll is true"
    ok (record m { deliver_all = v }))
  | none ↦ elim (lookup "deliverNew" properties) [
    | some val ↦ (do
      v ← only_true val "jetStream error: valid value for deliverNew is true"
      ok (record m { deliver_new = v }))
    | none ↦ ok m
  ]
]

pub parse_metadata : (String → Option ℤ) → ℤ → Dict String → Result Options
unfolding required read_duration read_max_in_flight read_deliver given
parse_metadata parse_duration default_timeout properties = do
  url ← required "natsURL" "jetStream error: missing nats URL" properties
  consumer ← required "consumerID" "jetStream error: missing consumer ID" properties
  ack_wait_time ← read_duration parse_duration "ackWaitTime" "jetStream error" (pos 0) properties
  max_in_flight ← read_max_in_flight properties
  connect_wait ←
      read_duration parse_duration "connectWait" "jetStream error" default_timeout properties
  read_deliver properties (record (empty_options connect_wait) {
    nats_url = url;
    consumer_id = consumer;
    durable_subscription_name = consumer;
    queue_group = true;
    ack_wait_time = ack_wait_time;
    max_in_flight = max_in_flight;
  })
