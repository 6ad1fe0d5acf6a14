-- ===== src/Runtime/Start.antt =====
-- NewRuntime and IsHealthy of pkg/runtime/runtime.go.
use rusi.Prelude.{
  String, ◌≡◌, refl, Bool, true, false, not, ◌&&◌, List, [], ◌∷◌, arith, ◌==◌, ltb, beq,
  if◌then◌else◌, Error, Result, ok, err, Option, none, some,
}
use Prim.Native.Char.{code}
use rusi.Messaging.{HealthResult, unhealthy, healthy_result}
use rusi.Components.Manager.{Manager}
use rusi.Runtime.Handlers.{AppConfig, Middleware, Runtime}

-- `<` on texts, character by character
unfoldable pub text_ltb : String → String → Bool
text_ltb s String.[] = false
text_ltb String.[] (String.◌∷◌ d t) = true
text_ltb (String.◌∷◌ c s) (String.◌∷◌ d t) =
    let rest = text_ltb s t in
    if ltb (code c) (code d) then true else if beq (code c) (code d) then rest else false

-- the version of the runtime, and the one that the configuration asks for
unfoldable pub is_healthy : String → String → HealthResult
unfolding text_ltb
is_healthy version min_runtime_version =
    if not (min_runtime_version == "") && text_ltb version min_runtime_version
    then record { status = unhealthy; description = "a bigger minimum runtime version is required" }
    else healthy_result

-- A configuration channel: what it brings in its order, and whether it is closed after that.
record ConfigChan : Type 0 where
  values : List AppConfig
  closed : Bool

-- What the start comes to: the runtime, with the channel of the configurations that are still to come.
data Started (P W : Type 0) : Type 0 where
  running : Runtime P W → ConfigChan → Started P W
  refused : Error → Started P W
  -- no configuration comes, and the channel stays open
  waiting : Started P W

-- the zero value that a receive from a closed channel gives
abbrev no_config : AppConfig
no_config = record { pub_sub_name = ""; subscriber_handlers = [] }

-- `<-configChan`: what is received, and the channel after it
unfoldable receive_config : ConfigChan → Option (AppConfig × ConfigChan)
receive_config chan = elim chan.values [
  | [] ↦ if chan.closed then some (no_config, chan) else none
  | first ∷ updates ↦ some (first, record { values = updates; closed = chan.closed })
]

-- The loader gives its channel or an error.
new_runtime : {P W : Type 0} → Result ConfigChan → Manager P (Middleware W) → Started P W
unfolding receive_config
new_runtime (err e) manager = refused e
new_runtime (ok chan) manager = elim (receive_config chan) [
  | none ↦ waiting
  | some (first, updates) ↦
      running (record { app_config = first; components_manager = manager }) updates
]

-- On a channel that is closed the start comes to an end.
new_runtime-closed :
    {P W : Type 0} (values : List AppConfig) (manager : Manager P (Middleware W))
    → (rt : Runtime P W) × (updates : ConfigChan) × (new_runtime
          (ok (record { values = values; closed = true }))
          manager
        ≡ running rt updates)
unfolding new_runtime receive_config
new_runtime-closed [] manager = (
  record { app_config = no_config; components_manager = manager },
  record { values = []; closed = true },
  refl,
)
new_runtime-closed (first ∷ values) manager = (
  record { app_config = first; components_manager = manager },
  record { values = values; closed = true },
  refl,
)

text_ltb_irrefl : (s : String) → text_ltb s s ≡ false
unfolding text_ltb
text_ltb_irrefl String.[] = refl
text_ltb_irrefl (String.◌∷◌ c s) = ground (arith, text_ltb_irrefl s)

-- A runtime of just the version that is asked for is healthy.
is_healthy_same : (version : String) → is_healthy version version ≡ healthy_result
unfolding is_healthy
is_healthy_same version = ground (arith, text_ltb_irrefl version)
