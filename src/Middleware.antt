-- ===== src/Middleware.antt =====
-- The middlewares of pkg/middleware/tracing.go and metrics.go, and the records of internal/metrics/metrics.go.
-- OpenTelemetry is a parameter: `W` is the world that the handlers change, and a message's trace context
-- is of type `C`.
pub mod Laws
use rusi.Prelude.{
  ℕ, zero, suc, ◌+◌, ◌-◌, ◌*◌, ◌/◌, ◌%◌, ◌^◌, ◌≤◌, ◌<◌, String, ◌≡◌, refl, sym, ap, ◌∙◌, subst, ◌≢◌,
  ◌↔◌, ◌⊎◌, inl, inr, Bool, true, false, not, ◌&&◌, ◌||◌, Option, none, some, List, [], ◌∷◌, ◌++◌,
  map, append_assoc, append-nil, arith, ◌==◌, eq_iff, eq_refl, ltb, leb, beq, if◌then◌else◌,
  Bool-cases, Option-cases, length, is_empty, any, length-append, any-append_right, All, All-append,
  Error, Result, ok, err, ◌>>=◌, ◌>>◌, fail_if, Result-cases, >>=-eq-ok,
}
use rusi.Prelude.Int.{ℤ, pos, negsuc, pos_part, neg_part, neg, ltb_ℤ, IsSigned, to_uint64, to_int64}
use rusi.Prelude.Dict.{
  Dict, lookup, insert, delete, lookup-insert, lookup-delete, lookup-empty, dict_laws, get,
}
use rusi.Prelude.Text.{◌⊕◌, single, to_lower, to_lower-append, split, trim_space, replace_char}
use rusi.Prelude.Number.{parse_uint64, parse_int32, parse_int32-IsSigned, parse_uint64-lt, itoa}
use rusi.Messaging.{MessageEnvelope}
use rusi.Runtime.Handlers.{Handler, Middleware}

pub data SpanKind : Type 0 where
  producer consumer : SpanKind

pub data Status : Type 0 where
  status_ok : Status
  status_error : String → Status

-- what is done with a span
pub data SpanEvent : Type 0 where
  started : String → SpanKind → List (String × String) → SpanEvent
  attributes : List (String × String) → SpanEvent
  -- an event with its name and its attributes
  happened : String → List (String × String) → SpanEvent
  status : Status → SpanEvent
  recorded : Error → SpanEvent
  ended : SpanEvent

pub record Telemetry (W C : Type 0) : Type 0 where
  -- the propagator, over the headers of the message
  pub extract : Option (Dict String) → C
  pub inject : C → Option (Dict String) → Option (Dict String)
  -- the context of the span that a call starts, and something that is done with it
  pub new_span : C → W → C
  pub span_event : SpanEvent → W → W
  -- the instruments of the meter: the topic and the success
  pub add_publish_count : String → Bool → W → W
  pub record_duration_ms : String → Bool → ℤ → W → W
  pub record_duration_sec : String → Bool → ℤ → W → W
  -- `time.Since(start)` between two worlds, in nanoseconds
  pub elapsed : W → W → ℤ
  -- `fmt.Sprintf("%v", headers)`
  pub show_headers : Option (Dict String) → String
  -- ShortenString of k8s.io/utils/strings
  pub shorten : String → ℕ → String

abbrev pub is_nil : Option Error → Bool
is_nil none = true
is_nil (some _) = false

module _ {W C : Type 0} (telemetry : Telemetry W C) where
  abbrev pub record_publish_message : String → Bool → W → W
  record_publish_message topic success w = telemetry.add_publish_count topic success w

  abbrev pub record_subscriber_processing_time : String → Bool → ℤ → W → W
  record_subscriber_processing_time topic success elapsed w =
      telemetry.record_duration_sec topic success elapsed
        (telemetry.record_duration_ms topic success elapsed w)

  abbrev pub subscriber_metrics_middleware : Middleware W
  subscriber_metrics_middleware next context_topic msg start =
      let r = next context_topic msg start in
      let topic = if msg.subject == "" then context_topic else msg.subject in
      (record_subscriber_processing_time topic (is_nil r.1) (telemetry.elapsed start r.0) r.0, r.1)

  abbrev pub publisher_metrics_middleware : Middleware W
  publisher_metrics_middleware next context_topic msg w =
      let r = next context_topic msg w in (record_publish_message msg.subject (is_nil r.1) r.0, r.1)

  -- the status at the end, and the error
  unfoldable pub set_status : Option Error → W → W
  set_status none w = telemetry.span_event (status status_ok) w
  set_status (some e) w =
      telemetry.span_event (recorded e) (telemetry.span_event (status (status_error e)) w)

  -- Inject into the headers of the message
  abbrev pub injected : C → MessageEnvelope → MessageEnvelope
  injected c msg = record msg { headers = telemetry.inject c msg.headers }

  -- the call of the next handler, with the status and the deferred end of the span
  abbrev pub call_next : Handler W → String → MessageEnvelope → W → W × Option Error
  call_next next topic msg w =
      let r = next topic msg w in (telemetry.span_event ended (set_status r.1 r.0), r.1)

  abbrev pub publisher_tracing_middleware : Middleware W
  publisher_tracing_middleware next topic msg w =
      let span = telemetry.new_span (telemetry.extract msg.headers) w in
      let attrs =
        ("component", "Rusi")
        ∷ ("messaging.destination.name", topic)
        ∷ ("messaging.destination.kind", "topic")
        ∷ [] in
      call_next next topic (injected span msg)
        (telemetry.span_event (started (topic ⊕ " send") producer attrs) w)

  abbrev pub subscriber_tracing_middleware : Middleware W
  subscriber_tracing_middleware next topic msg w =
      let span = telemetry.new_span (telemetry.extract msg.headers) w in
      let attrs =
        ("component", "Rusi")
        ∷ ("messaging.destination.name", topic)
        ∷ ("messaging.destination.kind", "topic")
        ∷ ("messaging.operation", "receive")
        ∷ [] in
      let started_span = telemetry.span_event (started (topic ⊕ " receive") consumer attrs) w in
      let received =
        telemetry.span_event
          (happened "new message received" (("headers", telemetry.show_headers msg.headers) ∷ []))
          started_span in
      let with_payload =
        telemetry.span_event
          (attributes (("messaging.message_payload", telemetry.shorten msg.payload 500) ∷ []))
          received in
      call_next next topic (injected span msg)
        (telemetry.span_event (attributes (("messaging.message_id", msg.id) ∷ [])) with_payload)
