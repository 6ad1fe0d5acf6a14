-- ===== src/Diagnostics.antt =====
-- WatchConfig of internal/diagnostics and SetTracing of internal/tracing. The creation of an exporter is a
-- parameter; the tracer providers are numbered in the order in which they are made.
pub mod Laws
use Prim.Native.Char.{code}
use Prim.Native.String
use rusi.Prelude.{
  ℕ, zero, suc, ◌+◌, ◌-◌, ◌*◌, ◌/◌, ◌%◌, ◌^◌, ◌≤◌, ◌<◌, String, ◌≡◌, refl, sym, ap, ◌∙◌, subst, ◌≢◌,
  ◌↔◌, ◌⊎◌, inl, inr, Bool, true, false, not, ◌&&◌, ◌||◌, Option, none, some, List, [], ◌∷◌, ◌++◌,
  map, append_assoc, append-nil, arith, ◌==◌, eq_iff, eq_refl, ltb, leb, beq, if◌then◌else◌,
  Bool-cases, Option-cases, length, is_empty, any, length-append, any-append_right, All, All-append,
  Error, Result, ok, err, ◌>>=◌, ◌>>◌, fail_if, Result-cases, >>=-eq-ok,
}
use rusi.Prelude.Int.{ℤ, pos, negsuc, pos_part, neg_part, neg, ltb_ℤ, IsSigned, to_uint64, to_int64}
use rusi.Prelude.Dict.{
  Dict, lookup, insert, delete, lookup-insert, lookup-delete, lookup-empty, dict_laws, get,
}
use rusi.Prelude.Text.{◌⊕◌, single, to_lower, to_lower-append, split, trim_space, replace_char}
use rusi.Prelude.Number.{parse_uint64, parse_int32, parse_int32-IsSigned, parse_uint64-lt, itoa}

pub record TelemetrySpec : Type 0 where
  pub collector_endpoint : String
  pub propagator : String

pub data Propagator : Type 0 where
  jaeger trace_context_and_baggage : Propagator

-- OpenTelemetry's globals, and the providers
pub record Otel : Type 0 where
  pub tracer_provider : Option ℕ
  pub propagator : Option Propagator
  -- the endpoint of each provider that was made, the last first
  pub made : List String
  pub shut_down : List ℕ

strip : String → String → Option String
strip String.[] s = some s
strip (String.◌∷◌ p ps) String.[] = none
strip (String.◌∷◌ p ps) (String.◌∷◌ c cs) = if beq (code p) (code c) then strip ps cs else none

-- `strings.TrimPrefix`
unfoldable pub trim_prefix : String → String → String
unfolding strip
trim_prefix s prefix = elim (strip prefix s) [ some rest ↦ rest | none ↦ s ]

-- `tp.Shutdown(ctx)` in the function that flushTracer returns
unfoldable pub flush_tracer : ℕ → Otel → Otel
flush_tracer tp o = record o { shut_down = tp ∷ o.shut_down }

-- The function that SetTracing returns with the provider: it makes the function of flushTracer, and does
-- not call it.
unfoldable pub stopper : ℕ → Otel → Otel
unfolding flush_tracer
stopper tp o = let closure : Otel → Otel = flush_tracer tp in o

-- the provider for an endpoint, where the exporter can be made
unfoldable pub get_tracer_provider : (String → Option Error) → String → Otel → Result ℕ × Otel
unfolding trim_prefix
get_tracer_provider new_exporter url o =
    let endpoint = trim_prefix url "http://" in
    elim (new_exporter endpoint) [
      | some failure ↦ (err ("failed to create trace exporter: " ⊕ failure), o)
      | none ↦ (ok (length o.made), record o { made = endpoint ∷ o.made })
    ]

-- the provider stands for the function that stops it
unfoldable pub set_tracing : (String → Option Error) → String → String → Otel → Result ℕ × Otel
unfolding get_tracer_provider
set_tracing new_exporter url propagator o = elim (get_tracer_provider new_exporter url o).0 [
  | err failure ↦ (err failure, (get_tracer_provider new_exporter url o).1)
  | ok tp ↦
      let set = if propagator == "jaeger" then jaeger else trace_context_and_baggage in
      (
        ok tp,
        record ((get_tracer_provider new_exporter url o).1) {
          tracer_provider = some tp;
          propagator = some set;
        },
      )
]

unfoldable pub changed : TelemetrySpec → TelemetrySpec → Bool
changed cfg prev =
    not (cfg.collector_endpoint == prev.collector_endpoint)
    || not (cfg.propagator == prev.propagator)

unfoldable pub valid_config : TelemetrySpec → Bool
valid_config cfg = not (cfg.collector_endpoint == "") && not (cfg.propagator == "")

-- `W` is what the tracer's functions change, and `T` stands for the function that stops a tracer
pub record Tracers (T W : Type 0) : Type 0 where
  pub tracer_func : String → String → W → Result T × W
  pub stop : T → W → W

abbrev pub no_telemetry : TelemetrySpec
no_telemetry = record { collector_endpoint = ""; propagator = "" }

module _ {T W : Type 0} (tracers : Tracers T W) where
  abbrev pub stop_prev : Option T → W → W
  stop_prev none w = w
  stop_prev (some t) w = tracers.stop t w

  -- the stopper after `tracingStopper, err = tracerFunc(...)`: nil where it fails
  abbrev pub new_stopper : Result T → Option T
  new_stopper (ok t) = some t
  new_stopper (err _) = none

  -- one configuration
  unfoldable pub on_config : TelemetrySpec → TelemetrySpec → Option T → W → Option T × W
  unfolding changed valid_config
  on_config prev cfg tracing_stopper w =
      if changed cfg prev
      then if valid_config cfg
        then (
          new_stopper
              (tracers.tracer_func cfg.collector_endpoint cfg.propagator
                (stop_prev tracing_stopper w)).0,
          (tracers.tracer_func cfg.collector_endpoint cfg.propagator
              (stop_prev tracing_stopper w)).1,
        )
        else (tracing_stopper, stop_prev tracing_stopper w)
      else (tracing_stopper, w)

  -- the loop over the channel, and the stop at its end
  unfoldable pub watch_loop : TelemetrySpec → Option T → W → List TelemetrySpec → W
  unfolding on_config
  watch_loop prev tracing_stopper w [] = stop_prev tracing_stopper w
  watch_loop prev tracing_stopper w (cfg ∷ rest) =
      watch_loop cfg (on_config prev cfg tracing_stopper w).0
        (on_config prev cfg tracing_stopper w).1 rest

  unfoldable pub watch_config : W → List TelemetrySpec → W
  unfolding watch_loop
  watch_config w configs = watch_loop no_telemetry none w configs

unfoldable pub otel_tracers : (String → Option Error) → Tracers ℕ Otel
unfolding set_tracing stopper
otel_tracers new_exporter = record { tracer_func = set_tracing new_exporter; stop = stopper }
