-- ===== src/Runtime/Handlers/Laws.antt =====
-- What the publish and subscribe handlers do.
use rusi.Prelude.{
  String, ◌≡◌, refl, ap, ◌∙◌, ◌≢◌, ◌⊎◌, inl, inr, false, true, some, Option, List, [], ◌∷◌, arith,
  ◌==◌, eq_iff, Bool-cases, Option-cases, Error, ok, err,
}
use rusi.Prelude.Int.{ℤ}
use rusi.Prelude.Dict.{Dict, lookup}
use rusi.Prelude.Text.{◌⊕◌}
use rusi.Messaging.{PublishRequest, SubscribeRequest}
use rusi.Messaging.Pipeline.{use_middleware}
use rusi.Messaging.Pipeline.Laws.{nest, build-eq-nest, build-use_middleware}
use rusi.Components.{Spec}
use rusi.Components.Registry.{find_factory, create}
use rusi.Components.Manager.{get_pub_sub, get_middleware, find_component}
use rusi.Runtime.Handlers.{
  HandlerSpec, Handler, Middleware, Runtime, Backend, pub_sub_name_of, envelope, publish_handler,
  build_subscriber_pipeline, with_topic, start_subscribing, subscribe_handler,
}

module _ {P W K : Type 0} (backend : Backend P W K) where
  -- the pub-sub that a request goes to: the one it names, or, where it names none, the one of the
  -- configuration
  abbrev pub Chosen : Runtime P W → String → P → Type 0
  Chosen rt requested p =
      let instances = rt.components_manager.pub_sub_instances in
      let configured = rt.app_config.pub_sub_name in
      ((requested ≢ "") × (lookup requested instances ≡ some p))
      ⊎ ((requested ≡ "") × (configured ≢ "") × (lookup configured instances ≡ some p))

  not_empty : (s : String) → s ≢ "" → (s == "") ≡ false
  not_empty s h = ground (arith, h, eq_iff s "")

  -- what the handlers come to for the name that they take
  Chosen-name :
      (rt : Runtime P W) (requested : String) (p : P)
      → Chosen rt requested p
      → (let name = pub_sub_name_of requested rt.app_config in
          (name ≢ "") × (lookup name rt.components_manager.pub_sub_instances ≡ some p))
  unfolding pub_sub_name_of
  Chosen-name rt requested p (inl (named, found)) =
      let e : (requested == "") ≡ false = not_empty requested named in rw e (named, found)
  Chosen-name rt requested p (inr (unnamed, configured, found)) =
      let e : (requested == "") ≡ true = (eq_iff requested "").1 unnamed in rw e (configured, found)

  -- A request whose pub-sub exists is published there, on its topic, once, inside the tracing and then
  -- the metrics middleware, and what they return is returned.
  pub publish_handler_lem :
      (rt : Runtime P W) (id : String) (now : ℤ) (request : PublishRequest) (w : W) (publisher : P)
      → Chosen rt request.pubsub_name publisher
      → publish_handler backend rt id now request w
        ≡ backend.publisher_tracing
            (backend.publisher_metrics (λ _ env v. backend.publish publisher request.topic env v))
            request.topic
            (envelope backend id now request)
            w
  unfolding publish_handler
  publish_handler_lem rt id now request w publisher chosen =
      let h = Chosen-name rt request.pubsub_name publisher chosen in
      let named = not_empty (pub_sub_name_of request.pubsub_name rt.app_config) h.0 in
      rw named (rw h.1 refl)

  start_subscribing-eq :
      (rt : Runtime P W) (request : SubscribeRequest (Handler W)) (w : W) (subscriber : P)
      (pipeline : List (Middleware W))
      → start_subscribing backend subscriber pipeline request w
        ≡ backend.subscribe subscriber request.topic
            (λ _.
              nest pipeline
                (backend.subscriber_metrics (backend.subscriber_tracing request.handler))
                request.topic)
            request.options
            w
  unfolding start_subscribing
  start_subscribing-eq rt request w subscriber pipeline =
      let handler = request.handler in
      let metered = use_middleware backend.subscriber_metrics pipeline in
      let traced = build-use_middleware backend.subscriber_tracing metered handler in
      let both =
        build-use_middleware backend.subscriber_metrics pipeline
          (backend.subscriber_tracing handler) in
      let nested =
        build-eq-nest pipeline (backend.subscriber_metrics (backend.subscriber_tracing handler)) in
      ap
        (λ pipe.
          backend.subscribe subscriber request.topic (with_topic backend request.topic pipe)
            request.options w)
        (traced ∙ both ∙ nested)

  -- a configured middleware: the factory that the registry has for its type and version, given the
  -- metadata of the component of its type and name
  abbrev pub IsConfigured : Runtime P W → HandlerSpec → Middleware W → Type 0
  IsConfigured rt spec middleware =
      let manager = rt.components_manager in
      (component : Spec) × (factory : Option (Dict String) → Middleware W) × (find_component
          spec.type spec.name manager.components
        ≡ some component)
      × (find_factory spec.type spec.version manager.middleware_registry ≡ some factory)
      × (factory component.metadata ≡ middleware)

  -- the middlewares of the specifications, one for each, in their order
  abbrev pub AreConfigured : Runtime P W → List HandlerSpec → List (Middleware W) → Type 0
  AreConfigured rt [] [] = Unit {0}
  AreConfigured rt [] (_ ∷ _) = ⊥
  AreConfigured rt (_ ∷ _) [] = ⊥
  AreConfigured rt (spec ∷ specs) (middleware ∷ middlewares) =
      IsConfigured rt spec middleware × AreConfigured rt specs middlewares

  get_middleware-IsConfigured :
      (rt : Runtime P W) (spec : HandlerSpec) (middleware : Middleware W)
      → IsConfigured rt spec middleware
      → get_middleware spec.type spec.name spec.version rt.components_manager ≡ ok middleware
  unfolding get_middleware create
  get_middleware-IsConfigured rt spec middleware (component, factory, found, registered, made) =
      ground (arith, found, registered) ∙ ap ok made

  build_subscriber_pipeline-AreConfigured :
      (rt : Runtime P W) (specs : List HandlerSpec) (middlewares : List (Middleware W))
      → AreConfigured rt specs middlewares
      → build_subscriber_pipeline backend specs rt ≡ ok middlewares
  unfolding build_subscriber_pipeline
  build_subscriber_pipeline-AreConfigured rt [] [] h = refl
  build_subscriber_pipeline-AreConfigured rt [] (_ ∷ _) h = absurd h
  build_subscriber_pipeline-AreConfigured rt (_ ∷ _) [] h = absurd h
  build_subscriber_pipeline-AreConfigured rt (spec ∷ specs) (m ∷ ms) (first, others) =
      rw (get_middleware-IsConfigured rt spec m first)
        (rw (build_subscriber_pipeline-AreConfigured rt specs ms others) refl)

  -- A subscription is opened on the pub-sub that the request names, or else on the configuration's, with
  -- the configured middlewares in their order, the first one outermost, then metrics, then tracing,
  -- around the request's handler. Each configured middleware is what the factory of its type and version
  -- makes of the metadata of the component of its type and name.
  pub subscribe_handler_lem :
      (rt : Runtime P W) (request : SubscribeRequest (Handler W)) (w : W) (subscriber : P)
      (middlewares : List (Middleware W))
      → Chosen rt request.pubsub_name subscriber
      → AreConfigured rt rt.app_config.subscriber_handlers middlewares
      → subscribe_handler backend rt request w
        ≡ backend.subscribe subscriber request.topic
            (λ _.
              nest middlewares
                (backend.subscriber_metrics (backend.subscriber_tracing request.handler))
                request.topic)
            request.options
            w
  unfolding subscribe_handler
  subscribe_handler_lem rt request w subscriber middlewares chosen configured =
      let h = Chosen-name rt request.pubsub_name subscriber chosen in
      let named = not_empty (pub_sub_name_of request.pubsub_name rt.app_config) h.0 in
      let built =
        build_subscriber_pipeline-AreConfigured rt rt.app_config.subscriber_handlers middlewares
          configured in
      rw named (rw h.1 (rw built (start_subscribing-eq rt request w subscriber middlewares)))

  -- Where a configured middleware is missing, no subscription is opened, and an error is returned.
  subscribe_handler-refused :
      (rt : Runtime P W) (request : SubscribeRequest (Handler W)) (w : W) (e : Error)
      → build_subscriber_pipeline backend rt.app_config.subscriber_handlers rt ≡ err e
      → (x : Error) × (subscribe_handler backend rt request w ≡ (w, err x))
  unfolding subscribe_handler
  subscribe_handler-refused rt request w e failed =
      let name = pub_sub_name_of request.pubsub_name rt.app_config in
      elim (Bool-cases (name == "")) [
        | inl unnamed ↦ (
          "PubSubName is empty. Please provide a valid pubSub name in the subscribe request or via configuration.",
          rw unnamed refl,
        )
        | inr named ↦ elim (Option-cases (get_pub_sub name rt.components_manager)) [
          | inl missing ↦ ("cannot find PubsubName named " ⊕ name, rw named (rw missing refl))
          | inr (subs, found) ↦ (e, rw named (rw found (rw failed refl)))
        ]
      ]
