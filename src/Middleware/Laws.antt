-- ===== src/Middleware/Laws.antt =====
-- What the middlewares leave as it is, and what they record.
use rusi.Prelude.{
  String, ◌≡◌, refl, ap, ◌∙◌, Bool, Option, none, some, List, [], ◌∷◌, ◌++◌, Error, Result,
}
use rusi.Prelude.Int.{ℤ, pos}
use rusi.Prelude.Dict.{Dict}
use rusi.Prelude.Text.{◌⊕◌}
use rusi.Messaging.{MessageEnvelope, SubscriptionOptions, PublishRequest}
use rusi.Runtime.Handlers.{Handler, Runtime, Backend, envelope, publish_handler}
use rusi.Runtime.Handlers.Laws.{Chosen, publish_handler_lem}
use rusi.Middleware.{
  SpanEvent, started, status, recorded, ended, Telemetry, is_nil, subscriber_metrics_middleware,
  publisher_metrics_middleware, set_status, status_ok, status_error, publisher_tracing_middleware,
  subscriber_tracing_middleware, producer,
}

-- what is recorded, the last first
pub data Entry : Type 0 where
  span : SpanEvent → Entry
  publish_count : String → Bool → Entry
  duration : String → Bool → Entry
  -- a publication on a topic, with the error that it gave
  published : String → MessageEnvelope → Option Error → Entry

-- OpenTelemetry that records what it is told
abbrev pub recording :
    {C : Type 0}
    → (Option (Dict String) → C)
    → (C → Option (Dict String) → Option (Dict String))
    → (C → C)
    → Telemetry (List Entry) C
recording extract inject child = record {
  extract = extract;
  inject = inject;
  new_span = λ parent _. child parent;
  span_event = λ e w. span e ∷ w;
  add_publish_count = λ topic success w. publish_count topic success ∷ w;
  record_duration_ms = λ topic success elapsed w. w;
  record_duration_sec = λ topic success elapsed w. duration topic success ∷ w;
  elapsed = λ _ _. pos 0;
  show_headers = λ _. "";
  shorten = λ text _. text;
}

-- what is recorded of the end of a call, the last first
abbrev pub ending : Option Error → List Entry
ending none = span ended ∷ span (status status_ok) ∷ []
ending (some e) = span ended ∷ span (recorded e) ∷ span (status (status_error e)) ∷ []

module _ {P C K : Type 0} (extract : Option (Dict String) → C)
    (inject : C → Option (Dict String) → Option (Dict String)) (child : C → C)
    (outcome : P → String → MessageEnvelope → Option Error)
    (subscribe : P
      → String
      → Handler (List Entry)
      → Option SubscriptionOptions
      → List Entry
      → List Entry × Result K) where
  -- pub-subs that record what is published, under the middlewares
  abbrev pub traced : Backend P (List Entry) K
  traced = record {
    publish = λ p topic env w. (published topic env (outcome p topic env) ∷ w, outcome p topic env);
    subscribe = subscribe;
    publisher_tracing = publisher_tracing_middleware (recording extract inject child);
    publisher_metrics = publisher_metrics_middleware (recording extract inject child);
    subscriber_tracing = subscriber_tracing_middleware (recording extract inject child);
    subscriber_metrics = subscriber_metrics_middleware (recording extract inject child);
  }

  -- the envelope with the trace context of the span in its headers
  abbrev pub traced_envelope : MessageEnvelope → MessageEnvelope
  traced_envelope env = record env { headers = inject (child (extract env.headers)) env.headers }

  ending-append :
      (e : Option Error) (w : List Entry)
      → span ended ∷ set_status (recording extract inject child) e w ≡ ending e ++ w
  unfolding set_status
  ending-append none w = refl
  ending-append (some e) w = refl

  -- A request whose pub-sub exists is published once, with the trace context of its own span in the
  -- headers; the span is started before and ended after, with the status of the publication, which is
  -- counted as a success just when it gave no error; and that error is returned.
  pub publish_handler-traced :
      (rt : Runtime P (List Entry)) (id : String) (now : ℤ) (request : PublishRequest)
      (w : List Entry) (publisher : P)
      → Chosen traced rt request.pubsub_name publisher
      → (let env = traced_envelope (envelope traced id now request) in
          let e = outcome publisher request.topic env in
          publish_handler traced rt id now request w ≡ (
            ending e
                ++ (publish_count request.topic (is_nil e)
                    ∷ published request.topic env e
                    ∷ span (
                        started (request.topic ⊕ " send") producer (
                          ("component", "Rusi")
                          ∷ ("messaging.destination.name", request.topic)
                          ∷ ("messaging.destination.kind", "topic")
                          ∷ []))
                    ∷ w),
            e,
          ))
  publish_handler-traced rt id now request w publisher h =
      let env = traced_envelope (envelope traced id now request) in
      let e = outcome publisher request.topic env in
      let attrs =
        ("component", "Rusi")
        ∷ ("messaging.destination.name", request.topic)
        ∷ ("messaging.destination.kind", "topic")
        ∷ [] in
      let before =
        publish_count request.topic (is_nil e)
        ∷ published request.topic env e
        ∷ span (started (request.topic ⊕ " send") producer attrs)
        ∷ w in
      publish_handler_lem traced rt id now request w publisher h
      ∙ ap (λ l. (l, e)) (ending-append e before)
