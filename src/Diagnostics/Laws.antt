-- ===== src/Diagnostics/Laws.antt =====
-- What WatchConfig does to the tracers.
use rusi.Prelude.{
  ℕ, ◌+◌, ◌<◌, String, ◌≡◌, refl, ◌∙◌, ◌≢◌, inl, inr, Bool, true, false, ◌||◌, Option, none, some,
  List, [], ◌∷◌, arith, beq, Bool-cases, Option-cases, Error, ok, err,
}
use rusi.Diagnostics.{
  TelemetrySpec, Otel, stopper, get_tracer_provider, set_tracing, changed, valid_config, Tracers,
  no_telemetry, stop_prev, new_stopper, on_config, watch_loop, watch_config, otel_tracers,
}

-- What is kept of the tracers that are started: each has a number, and what was started and stopped is
-- recorded.
pub record Log : Type 0 where
  pub started : ℕ
  pub stopped : List ℕ

pub is_stopped : ℕ → List ℕ → Bool
is_stopped n [] = false
is_stopped n (m ∷ ms) = beq m n || is_stopped n ms

-- tracers that fail where `fails` says so
abbrev pub recording : (String → String → Option Error) → Tracers ℕ Log
recording fails = record {
  tracer_func = λ url propagator w. elim (fails url propagator) [
    | some e ↦ (err e, w)
    | none ↦ (ok w.started, record w { started = w.started + 1 })
  ];
  stop = λ n w. record w { stopped = n ∷ w.stopped };
}

-- every tracer that was started was stopped, but for the one whose stopper is held
abbrev AllStopped : Option ℕ → Log → Type 0
AllStopped none w = (n : ℕ) → n < w.started → is_stopped n w.stopped ≡ true
AllStopped (some t) w = (n : ℕ) → n < w.started → n ≢ t → is_stopped n w.stopped ≡ true

module _ (fails : String → String → Option Error) where
  stop_prev-AllStopped :
      (held : Option ℕ) (w : Log)
      → AllStopped held w
      → AllStopped none (stop_prev (recording fails) held w)
  unfolding is_stopped
  stop_prev-AllStopped none w h = h
  stop_prev-AllStopped (some t) w h = λ n lt. elim (Bool-cases (beq t n)) [
    | inl same ↦ ground (arith, same)
    | inr other ↦ ground (arith, other, h n lt)
  ]

  weaken : (held : Option ℕ) (w : Log) → AllStopped none w → AllStopped held w
  weaken none w h = h
  weaken (some t) w h = λ n lt differ. h n lt

  start-AllStopped :
      (url propagator : String) (w : Log)
      → AllStopped none w
      → (let r = (recording fails).tracer_func url propagator w in
          AllStopped (new_stopper (recording fails) r.0) r.1)
  start-AllStopped url propagator w h = elim (Option-cases (fails url propagator)) [
    | inr (e, bad) ↦ rw bad h
    | inl good ↦ rw good (λ n lt differ. h n (omega (arith, lt, differ)))
  ]

  on_config-AllStopped :
      (prev cfg : TelemetrySpec) (held : Option ℕ) (w : Log)
      → AllStopped held w
      → (let r = on_config (recording fails) prev cfg held w in AllStopped r.0 r.1)
  unfolding on_config
  on_config-AllStopped prev cfg held w h = elim (Bool-cases (changed cfg prev)) [
    | inr same ↦ rw same h
    | inl differ ↦ elim (Bool-cases (valid_config cfg)) [
      | inr invalid ↦
          rw (differ, invalid)
            (weaken held (stop_prev (recording fails) held w) (stop_prev-AllStopped held w h))
      | inl valid ↦
          rw (differ, valid)
            (start-AllStopped cfg.collector_endpoint cfg.propagator
              (stop_prev (recording fails) held w) (stop_prev-AllStopped held w h))
    ]
  ]

  watch_loop-AllStopped :
      (prev : TelemetrySpec) (held : Option ℕ) (w : Log) (configs : List TelemetrySpec)
      → AllStopped held w
      → AllStopped none (watch_loop (recording fails) prev held w configs)
  unfolding watch_loop
  watch_loop-AllStopped prev held w [] h = stop_prev-AllStopped held w h
  watch_loop-AllStopped prev held w (cfg ∷ rest) h =
      watch_loop-AllStopped cfg (on_config (recording fails) prev cfg held w).0
        (on_config (recording fails) prev cfg held w).1 rest
        (on_config-AllStopped prev cfg held w h)

  -- When the channel of configurations is closed, every tracer that was started has been stopped,
  -- whatever the configurations are and whichever tracers cannot be started.
  pub watch_config-AllStopped :
      (configs : List TelemetrySpec) (n : ℕ)
      → (let w : Log = record { started = 0; stopped = [] } in
          let w' = watch_config (recording fails) w configs in
          n < w'.started → is_stopped n w'.stopped ≡ true)
  unfolding watch_config
  watch_config-AllStopped configs n lt =
      let w : Log = record { started = 0; stopped = [] } in
      watch_loop-AllStopped no_telemetry none w configs
        (λ k none_yet. absurd (omega (arith, none_yet))) n lt

module _ (new_exporter : String → Option Error) where
  set_tracing-shut_down :
      (url propagator : String) (o : Otel)
      → (set_tracing new_exporter url propagator o).1.shut_down ≡ o.shut_down
  unfolding set_tracing get_tracer_provider
  set_tracing-shut_down url propagator o = ground arith

  stop_prev-shut_down :
      (held : Option ℕ) (o : Otel)
      → (stop_prev (otel_tracers new_exporter) held o).shut_down ≡ o.shut_down
  unfolding otel_tracers stopper
  stop_prev-shut_down none o = refl
  stop_prev-shut_down (some tp) o = refl

  on_config-shut_down :
      (prev cfg : TelemetrySpec) (held : Option ℕ) (o : Otel)
      → (on_config (otel_tracers new_exporter) prev cfg held o).1.shut_down ≡ o.shut_down
  unfolding on_config otel_tracers
  on_config-shut_down prev cfg held o =
      let before = stop_prev (otel_tracers new_exporter) held o in
      ground (
        arith,
        stop_prev-shut_down held o,
        set_tracing-shut_down cfg.collector_endpoint cfg.propagator before,
      )

  watch_loop-shut_down :
      (prev : TelemetrySpec) (held : Option ℕ) (o : Otel) (configs : List TelemetrySpec)
      → (watch_loop (otel_tracers new_exporter) prev held o configs).shut_down ≡ o.shut_down
  unfolding watch_loop
  watch_loop-shut_down prev held o [] = stop_prev-shut_down held o
  watch_loop-shut_down prev held o (cfg ∷ rest) =
      watch_loop-shut_down cfg (on_config (otel_tracers new_exporter) prev cfg held o).0
        (on_config (otel_tracers new_exporter) prev cfg held o).1 rest
      ∙ on_config-shut_down prev cfg held o

  -- With the tracers of SetTracing, WatchConfig shuts down no provider, whatever the configurations are:
  -- not when a tracer is replaced, and not when the channel is closed.
  pub watch_config-shut_down :
      (o : Otel) (configs : List TelemetrySpec)
      → (watch_config (otel_tracers new_exporter) o configs).shut_down ≡ o.shut_down
  unfolding watch_config
  watch_config-shut_down o configs = watch_loop-shut_down no_telemetry none o configs
