-- ===== src/Witnesses/JetStream.antt =====
-- A JetStream bus.
use rusi.Prelude.{ℕ, ◌≤◌, String, ◌≡◌, refl, Bool, true, false, Option, none, some, ok}
use rusi.Prelude.Int.{pos, ltb_ℤ}
use rusi.Messaging.{SubscriptionOptions}
use rusi.JetStream.{Options}
use rusi.JetStream.Merge.{merge_global_and_subscription_options}
use rusi.JetStream.Consumer.{ConsumerConfig, max_in_flight_of}
use rusi.JetStream.Bus.{Nats, JetStreamPubSub, Subscription, subscribe}
use rusi.JetStream.Bus.Laws.{MadeWith, IsConsumerOf, subscribe_lem}
use rusi.JetStream.Pull.{Pull, acquire, start, step, here, next}
use rusi.JetStream.Pull.Invariant.{IsBounded, Reach-IsBounded}

abbrev global : Options
global = record {
  nats_url = "u";
  consumer_id = "app";
  durable_subscription_name = "d";
  queue_group = false;
  deliver_new = "";
  deliver_all = "";
  connect_wait = pos 2;
  ack_wait_time = pos 0;
  max_in_flight = pos 0;
}

abbrev asked : Option Bool → SubscriptionOptions
asked only_new = record {
  durable = some true;
  q_group = some true;
  max_concurrent_messages = some (pos 2);
  deliver_new_messages_only = only_new;
  ack_wait_time = none;
}

abbrev nats : Nats ℕ ℕ ℕ
nats = record {
  default_timeout = pos 2;
  parse_duration = λ text. none;
  next_nuid = "x";
  connect = λ url wait. ok 1;
  publish = λ conn topic text. none;
  stream_name_by_subject = λ conn topic. ok "s";
  create_or_update_consumer = λ conn stream config. ok 5;
  messages = λ consumer. ok (some 6);
  marshal = λ msg. ok "";
  is_connected = λ conn. true;
  close = λ conn. conn;
}

abbrev bus : JetStreamPubSub ℕ
bus = record { options = global; nats_conn = some 1; closed = false; cancelled = false }

abbrev subscription : Subscription ℕ
subscription = record { iterator = 6; pull = start 2 }

subscribe_lem_example :
    (m : Options) × (stream : String) × (config : ConsumerConfig) × (consumer : ℕ) × MadeWith global
      (some (asked none))
      m
    × (nats.stream_name_by_subject 1 "t" ≡ ok stream)
    × IsConsumerOf "x" m "t" config
    × (nats.create_or_update_consumer 1 stream config ≡ ok consumer)
    × (nats.messages consumer ≡ ok (some 6))
    × (subscription.pull ≡ start subscription.pull.cap)
    × (ltb_ℤ m.max_in_flight (pos 1) ≡ true → subscription.pull.cap ≡ 1)
    × (ltb_ℤ m.max_in_flight (pos 1) ≡ false → pos subscription.pull.cap ≡ m.max_in_flight)
unfolding subscribe merge_global_and_subscription_options max_in_flight_of
subscribe_lem_example = subscribe_lem nats bus 1 "t" (some (asked none)) subscription refl

abbrev acquired : Pull
acquired = record (start 2) { sem = 1; waiting = 1 }

Reach-IsBounded_example : IsBounded 2 acquired × (acquired.handling ≤ 2)
unfolding step
Reach-IsBounded_example = Reach-IsBounded 2 {p = acquired} (next acquire here refl)
