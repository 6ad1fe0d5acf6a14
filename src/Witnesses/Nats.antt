-- ===== src/Witnesses/Nats.antt =====
-- A NATS streaming bus with a queue group.
use rusi.Prelude.{
  ℕ, ◌≤◌, String, ◌≡◌, refl, true, false, none, some, List, [], ◌∷◌, Result, ok, err,
}
use rusi.Prelude.Int.{pos}
use rusi.Prelude.Dict.{Dict, lookup, get}
use rusi.Prelude.Number.{parse_uint64}
use rusi.Messaging.{MessageEnvelope}
use rusi.Nats.{Options}
use rusi.Prelude.Dict.{get}
use rusi.Prelude.Dict.{lookup}
use rusi.Prelude.Number.{parse_uint64}
use rusi.Nats.Parse.{start_options, empty_options, parse_nats_streaming_metadata}
use rusi.Nats.Parse.Laws.{IsParsed, parse_nats_streaming_metadata-IsParsed}
use rusi.Nats.Merge.{merge_global_and_subscription_options}
use rusi.Nats.Stan.{
  StanOption, start_at_new_only, set_manual_ack_mode, start_position, stan_subscription_options,
}
use rusi.Nats.Stan.Laws.{count, is_start, is_manual_ack, stan_subscription_options-start}
use rusi.Nats.Subscribe.{Stan, NatsStreamingPubSub, subscribe}
use rusi.Nats.Subscribe.Laws.{IsOpened, subscribe-IsOpened}

abbrev global : Options
global = record (empty_options (pos 0)) {
  nats_url = "u";
  nats_streaming_cluster_id = "c";
  subscription_type = "queue";
  nats_queue_group_name = "g";
  deliver_new = "true";
}

abbrev no_time : String → String → Result ℕ
no_time format text = err "no time"

stan_subscription_options-start_example :
    (count {Time = ℕ} is_start (start_at_new_only ∷ set_manual_ack_mode ∷ []) ≤ 1)
    × (count {Time = ℕ} is_manual_ack (start_at_new_only ∷ set_manual_ack_mode ∷ []) ≡ 1)
unfolding stan_subscription_options start_position
stan_subscription_options-start_example =
    stan_subscription_options-start no_time global (start_at_new_only ∷ set_manual_ack_mode ∷ [])
      refl

abbrev properties : Dict String
properties =
    ("natsURL", "u")
    ∷ ("natsStreamingClusterID", "c")
    ∷ ("consumerID", "g")
    ∷ ("maxInFlight", "3")
    ∷ []

abbrev parsed : Options
parsed = record (empty_options (pos 2)) {
  nats_url = "u";
  nats_streaming_cluster_id = "c";
  nats_queue_group_name = "g";
  max_in_flight = 3;
}

parse_nats_streaming_metadata-IsParsed_example : IsParsed parsed
unfolding parse_nats_streaming_metadata lookup parse_uint64 start_options get
parse_nats_streaming_metadata-IsParsed_example =
    parse_nats_streaming_metadata-IsParsed (λ text. none) (pos 2) properties parsed refl

abbrev a_message : MessageEnvelope
a_message = record {
  id = "";
  type = "";
  spec_version = "";
  data_content_type = "";
  time = pos 0;
  subject = "";
  headers = none;
  payload = "";
}

abbrev stan : Stan ℕ ℕ ℕ
stan = record {
  default_connect_wait = pos 2;
  parse_duration = λ text. none;
  parse_time = no_time;
  gen_random_string = λ n. "";
  connect = λ cluster client url wait. ok 1;
  publish = λ conn topic text. none;
  subscribe = λ conn topic handler options. err "no topic";
  queue_subscribe = λ conn topic group handler options. ok (some 9);
  unmarshal = λ bytes. (a_message, none);
  marshal = λ msg. ok "";
  is_connected = λ conn. true;
  close = λ conn. (conn, none);
}

abbrev bus : NatsStreamingPubSub ℕ
bus = record { options = global; nat_streaming_conn = some 1; closed = false; cancelled = false }

subscribe-IsOpened_example :
    (m : Options) × (l : List (StanOption ℕ)) × (merge_global_and_subscription_options bus.options
        none
      ≡ ok m)
    × (stan_subscription_options no_time m ≡ ok l)
    × IsOpened stan bus 1 "t" (λ msg. none) m l 9
unfolding subscribe merge_global_and_subscription_options stan_subscription_options start_position
subscribe-IsOpened_example = subscribe-IsOpened stan bus 1 "t" (λ msg. none) none 9 refl
