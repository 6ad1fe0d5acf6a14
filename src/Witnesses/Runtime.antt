-- ===== src/Witnesses/Runtime.antt =====
-- A runtime with one pub-sub, `3`, which acts on a number.
use rusi.Prelude.{
  ℕ, ◌+◌, ◌*◌, String, ◌≡◌, refl, ◌↔◌, inr, true, Option, none, some, if◌then◌else◌, ◌==◌, [], ◌∷◌,
  Error, ok,
}
use rusi.Prelude.Int.{pos}
use rusi.Prelude.Dict.{Dict, lookup, insert, get}
use rusi.Messaging.{SubscribeRequest, unhealthy}
use rusi.Messaging.Pipeline
use rusi.Messaging.Pipeline.Laws.{nest, build-eq-nest}
use rusi.Prelude.Text.{to_lower}
use rusi.Components.Registry.{find_factory}
use rusi.Components.Manager.{find_component}
use rusi.Components.{Spec, is_initial_version, ChangeNotification, middleware, update}
use rusi.Runtime.Config
use rusi.Runtime.Config.{ConfigBuilder, configured, variables, set_env_variables}
use rusi.Runtime.Config.Laws.{IsUsable, Takes, HasValues, build_iff}
use rusi.Runtime.Start.{is_healthy, text_ltb}
use rusi.Runtime.Handlers.{HandlerSpec, Handler, Middleware, Runtime, Backend, subscribe_handler}
use rusi.Runtime.Handlers.Laws.{subscribe_handler_lem}
use rusi.Runtime.Updates.{watch_components_updates}
use rusi.Runtime.Updates.Laws.{refreshed, updates, watch_components_updates_lem}

build-eq-nest_example :
    Pipeline.build ((λ n. n + 1) ∷ (λ n. n * 2) ∷ []) 5 ≡ nest ((λ n. n + 1) ∷ (λ n. n * 2) ∷ []) 5
build-eq-nest_example = build-eq-nest ((λ n. n + 1) ∷ (λ n. n * 2) ∷ []) 5

abbrev backend : Backend ℕ ℕ ℕ
backend = record {
  publish = λ p topic env w. (w + p, none);
  subscribe = λ p topic handler options w. (w + p, ok 1);
  publisher_tracing = λ h. h;
  publisher_metrics = λ h. h;
  subscriber_tracing = λ h. h;
  subscriber_metrics = λ h. h;
}

abbrev to_subscribe : SubscribeRequest (Handler ℕ)
to_subscribe = record {
  pubsub_name = "";
  topic = "t";
  handler = λ topic env w. (w, none);
  options = none;
}

-- adds a number when a message comes
abbrev adding : ℕ → Middleware ℕ
adding n next topic env w = next topic env (w + n)

abbrev a_middleware : String → Spec
a_middleware name = record {
  name = name;
  type = "middleware.pubsub.add";
  version = "v1";
  metadata = some (("of", name) ∷ []);
  scopes = [];
}

abbrev handler_spec : String → HandlerSpec
handler_spec name = record { name = name; type = "middleware.pubsub.add"; version = "v1" }

abbrev added : Option (Dict String) → Middleware ℕ
added none = adding 0
added (some metadata) = if get "of" metadata == "one" then adding 1 else adding 2

abbrev with_two : Runtime ℕ ℕ
with_two = record {
  app_config = record {
    pub_sub_name = "bus";
    subscriber_handlers = handler_spec "one" ∷ handler_spec "two" ∷ [];
  };
  components_manager = record {
    app_id = "app";
    pub_sub_instances = ("bus", 3) ∷ [];
    components = ("1", a_middleware "one") ∷ ("2", a_middleware "two") ∷ [];
    notifications = [];
    pub_sub_registry = [];
    middleware_registry = ("middleware.pubsub.add", added) ∷ [];
  };
}

subscribe_handler_lem_example :
    subscribe_handler backend with_two to_subscribe 4
    ≡ backend.subscribe 3 "t"
        (λ _.
          nest
            (adding 1 ∷ adding 2 ∷ [])
            (backend.subscriber_metrics (backend.subscriber_tracing to_subscribe.handler))
            "t")
        none
        4
unfolding lookup find_component find_factory to_lower is_initial_version get
subscribe_handler_lem_example =
    subscribe_handler_lem backend with_two to_subscribe 4 3 (adding 1 ∷ adding 2 ∷ [])
      (inr (refl, (λ e. cc), refl))
      (
        (a_middleware "one", added, refl, refl, refl),
        ((a_middleware "two", added, refl, refl, refl), tt),
      )

abbrev builder : ConfigBuilder
builder = record {
  mode = "standalone";
  rusi_grpc_port = pos 50003;
  rusi_grpc_host = "localhost";
  diagnostics_port = pos 8080;
  enable_metrics = true;
  components_path = "";
  config = "c";
  control_plane_address = "";
  app_id = "app";
}

abbrev setenv : String → String → Dict String → Dict String × Option Error
setenv key value env = (insert key value env, none)

abbrev taken : Dict String
taken = ("APP_ID", "app") ∷ ("RUSI_GRPC_HOST", "localhost") ∷ ("RUSI_GRPC_PORT", "50003") ∷ []

build_iff_example : (Config.build setenv builder [] ≡ (taken, ok (configured builder))) ↔ (
    IsUsable (configured builder)
    × Takes setenv builder [] taken
    × HasValues builder (configured builder))
build_iff_example = build_iff setenv builder [] taken (configured builder)

abbrev refresh : ℕ → ℕ × Option Error
refresh n = (n + 1, none)

abbrev a_change : ChangeNotification
a_change = record {
  component_category = middleware;
  operation = update;
  component_spec = record { name = "m"; type = "t"; version = "v1"; metadata = none; scopes = [] };
}

watch_components_updates_lem_example :
    watch_components_updates refresh (a_change ∷ []) 0
    ≡ refreshed refresh (updates (a_change ∷ [])) 0
watch_components_updates_lem_example = watch_components_updates_lem refresh (a_change ∷ []) 0

-- The versions are compared as texts: version 10.0.0 is refused where 9.0.0 is asked for.
is_healthy_ten : (is_healthy "10.0.0" "9.0.0").status ≡ unhealthy
unfolding is_healthy text_ltb
is_healthy_ten = refl
