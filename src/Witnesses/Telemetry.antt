-- ===== src/Witnesses/Telemetry.antt =====
-- Two configurations of telemetry, and a publication that is traced.
use rusi.Prelude.{
  inr, ℕ, String, ◌≡◌, refl, true, false, Option, none, some, List, [], ◌∷◌, ◌++◌, arith, Error,
  Result, err,
}
use rusi.Prelude.Int.{pos}
use rusi.Prelude.Dict.{Dict, lookup}
use rusi.Messaging.{MessageEnvelope, SubscriptionOptions, PublishRequest}
use rusi.Runtime.Handlers.{Backend, Runtime, Handler, envelope, publish_handler, pub_sub_name_of}
use rusi.Diagnostics.{
  TelemetrySpec, Otel, watch_config, otel_tracers, changed, valid_config, watch_loop, on_config,
}
use rusi.Diagnostics.Laws.{
  Log, recording, is_stopped, watch_config-AllStopped, watch_config-shut_down,
}
use rusi.Middleware.{started, producer}
use rusi.Middleware.Laws.{
  Entry, span, publish_count, published, ending, traced, traced_envelope, publish_handler-traced,
}

abbrev configs : List TelemetrySpec
configs =
    record { collector_endpoint = "a:1"; propagator = "w3c" }
    ∷ record { collector_endpoint = "b:1"; propagator = "jaeger" }
    ∷ []

abbrev no_log : Log
no_log = record { started = 0; stopped = [] }

watch_config-AllStopped_example :
    is_stopped 1 (watch_config (recording (λ _ _. none)) no_log configs).stopped ≡ true
unfolding watch_config watch_loop on_config changed valid_config
watch_config-AllStopped_example = watch_config-AllStopped (λ _ _. none) configs 1 (omega arith)

abbrev no_otel : Otel
no_otel = record { tracer_provider = none; propagator = none; made = []; shut_down = [] }

watch_config-shut_down_example :
    (watch_config (otel_tracers (λ _. none)) no_otel configs).shut_down ≡ []
watch_config-shut_down_example = watch_config-shut_down (λ _. none) no_otel configs

abbrev extract_id : Option (Dict String) → ℕ
extract_id _ = 0

abbrev inject_id : ℕ → Option (Dict String) → Option (Dict String)
inject_id n headers = some (("uber-trace-id", "1") ∷ [])

abbrev refuse : ℕ → String → MessageEnvelope → Option Error
refuse p topic env = some "no connection"

abbrev no_subscription :
    ℕ
    → String
    → Handler (List Entry)
    → Option SubscriptionOptions
    → List Entry
    → List Entry × Result ℕ
no_subscription p topic handler options w = (w, err "none")

abbrev a_runtime : Runtime ℕ (List Entry)
a_runtime = record {
  app_config = record { pub_sub_name = "bus"; subscriber_handlers = [] };
  components_manager = record {
    app_id = "app";
    pub_sub_instances = ("bus", 3) ∷ [];
    components = [];
    notifications = [];
    pub_sub_registry = [];
    middleware_registry = [];
  };
}

abbrev a_publication : PublishRequest
a_publication = record {
  pubsub_name = "";
  topic = "t";
  payload = "1";
  type = "";
  data_content_type = "";
  metadata = [];
}

abbrev backend : Backend ℕ (List Entry) ℕ
backend = traced extract_id inject_id (λ n. n) refuse no_subscription

publish_handler-traced_example :
    (let env =
        traced_envelope {K = ℕ} extract_id inject_id
          (λ n. n)
          refuse
          no_subscription
          (envelope backend "id" (pos 1) a_publication) in
      publish_handler backend a_runtime "id" (pos 1) a_publication [] ≡ (
        ending (some "no connection")
            ++ (publish_count "t" false
                ∷ published "t" env (some "no connection")
                ∷ span (
                    started "t send" producer (
                      ("component", "Rusi")
                      ∷ ("messaging.destination.name", "t")
                      ∷ ("messaging.destination.kind", "topic")
                      ∷ []))
                ∷ []),
        some "no connection",
      ))
unfolding pub_sub_name_of lookup
publish_handler-traced_example =
    publish_handler-traced extract_id inject_id (λ n. n) refuse no_subscription a_runtime "id"
      (pos 1) a_publication [] 3 (inr (refl, (λ e. cc), refl))
