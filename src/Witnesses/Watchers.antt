-- ===== src/Witnesses/Watchers.antt =====
-- Streams of the operator with a configuration and a component.
use rusi.Prelude.{ℕ, ◌≡◌, refl, true, map, Option, none, some, List, [], ◌∷◌, ◌++◌, Error}
use rusi.Components.{Spec}
use rusi.Components.Uuid.{count_open}
use rusi.Configuration.{ConfigurationSpec}
use rusi.Diagnostics.{no_telemetry}
use rusi.Operator.Types.{V1ConfigurationSpec}
use rusi.Operator.Server.{
  Component, Configuration, WatchConfigurationRequest, object, stream_done, watch_components,
  watch_configuration, encode_all,
}
use rusi.Operator.Server.Laws.{of_namespace, AreSame, watch_components-total}
use rusi.Operator.Client.{watch_loop, closed}
use rusi.Operator.Client.Laws.{connections, to_runtime, sent, session, wanted, watch_loop-wanted}

abbrev a_request : WatchConfigurationRequest
a_request = record { config_name = "c"; namespace = "n" }

abbrev a_spec : V1ConfigurationSpec
a_spec = record {
  subscriber_pipeline = record { name = "trace"; type = "middleware.pubsub.trace" } ∷ [];
  publisher_pipeline = [];
  telemetry = no_telemetry;
  features = record { name = "f"; enabled = true } ∷ [];
  pub_sub_name = "bus";
  min_runtime_version = "";
}

abbrev a_configuration : Configuration
a_configuration = record { name = "c"; namespace = "n"; spec = a_spec }

abbrev another : Configuration
another = record { name = "c"; namespace = "m"; spec = a_spec }

-- a codec whose messages are the specifications that the operator has
abbrev encode : V1ConfigurationSpec → V1ConfigurationSpec
encode s = s

abbrev decode : V1ConfigurationSpec → ConfigurationSpec × Option Error
decode s = (to_runtime s, none)

watch_loop-wanted_example :
    watch_loop decode
      (some (
        encode_all encode
          (watch_configuration a_request (session (a_configuration ∷ another ∷ [])))))
      (connections decode encode to_runtime (sent a_request ((a_configuration ∷ []) ∷ [])))
    ≡ (
      map to_runtime
          (wanted a_request ((a_configuration ∷ another ∷ []) ++ (a_configuration ∷ []))),
      closed,
    )
watch_loop-wanted_example =
    watch_loop-wanted decode encode (λ s. refl) a_request (a_configuration ∷ another ∷ [])
      ((a_configuration ∷ []) ∷ [])

abbrev a_component : Component
a_component = record {
  name = "bus";
  namespace = "n";
  type = "pubsub.x";
  version = "v1";
  metadata = [];
  scopes = [];
}

uuid-plain : (n : ℕ) → count_open "0-0" ≡ 0
unfolding count_open
uuid-plain n = refl

watch_components-total_example :
    (specs : List Spec) × (watch_components
        (λ _. none)
        (λ _. "0-0")
        "n"
        0
        (object a_component ∷ stream_done ∷ [])
      ≡ some specs)
    × AreSame (of_namespace "n" (object a_component ∷ stream_done ∷ [])) specs
watch_components-total_example =
    watch_components-total (λ _. none) (λ _. "0-0") uuid-plain "n" 0
      (object a_component ∷ stream_done ∷ [])
