-- ===== src/Operator/Client/Laws.antt =====
-- What goes from the operator's objects to the runtime: the streams of pkg/operator/server.go and the
-- watchers of pkg/operator/client.go.
use rusi.Prelude.{
  ◌≡◌, refl, ap, ◌∙◌, ◌↔◌, Bool, true, false, ◌&&◌, Option, none, some, List, [], ◌∷◌, ◌++◌, map,
  arith, ◌==◌, if◌then◌else◌, Error,
}
use mathlib.Core.List.{map-append}
use rusi.Runtime.Handlers.{HandlerSpec}
use rusi.Configuration.{ConfigurationSpec}
use rusi.Operator.Types.{V1HandlerSpec, V1ConfigurationSpec}
use rusi.Operator.Server.{
  Configuration, WatchConfigurationRequest, Selected, object, stream_done, watch_configuration,
  encode_all,
}
use rusi.Operator.Client.{
  Stream, Round, ctx_done, reconnected, closed, panicked, received_specs, watch_loop,
}

-- encoding and then decoding gives the converted value, and no error
module _ {M A S : Type 0} (unmarshal : M → S × Option Error) (marshal : A → M)
    (converted : A → S) where
  abbrev pub IsCodec : Type 0
  IsCodec = (a : A) → unmarshal (marshal a) ≡ (converted a, none)

  received_specs-encode_all :
      IsCodec
      → (specs : List A) → received_specs unmarshal (encode_all marshal specs) ≡ map converted specs
  unfolding received_specs encode_all
  received_specs-encode_all codec [] = refl
  received_specs-encode_all codec (a ∷ rest) =
      let ih = received_specs-encode_all codec rest in ground (arith, ih, codec a)

abbrev pub concat : {A : Type 0} → List (List A) → List A
concat [] = []
concat (specs ∷ rest) = specs ++ concat rest

module _ {M A S : Type 0} (unmarshal : M → S × Option Error) (marshal : A → M)
    (converted : A → S) where
  -- the rounds of a client whose further streams bring these specifications, until its context is done
  abbrev pub connections : List (List A) → List (Round M)
  connections [] = reconnected none ∷ ctx_done ∷ []
  connections (specs ∷ rest) = reconnected (some (encode_all marshal specs)) ∷ connections rest

  -- Whatever is sent over the streams of a client, one after the other, reaches its channel as it is
  -- decoded, in its order and once; then the channel is closed.
  watch_loop-connections :
      IsCodec unmarshal marshal converted
      → (first : List A) (rest : List (List A))
      → watch_loop unmarshal (some (encode_all marshal first)) (connections rest)
        ≡ (map converted (concat (first ∷ rest)), closed)
  unfolding watch_loop
  watch_loop-connections codec first [] = ground (
    arith,
    received_specs-encode_all unmarshal marshal converted codec first,
    map-append converted first [],
  )
  watch_loop-connections codec first (next ∷ rest) =
      let ih = watch_loop-connections codec next rest in
      ground (
        arith,
        ih,
        received_specs-encode_all unmarshal marshal converted codec first,
        map-append converted first (concat (next ∷ rest)),
      )

module _ {M S : Type 0} (unmarshal : M → S × Option Error) where
  -- a round ends with a call that fails, and the context is not done at the start of the next
  lost : Stream M → List (Round M) → Bool
  lost stream [] = false
  lost stream (ctx_done ∷ rest) = false
  lost none (reconnected next ∷ rest) = true
  lost (some _) (reconnected next ∷ rest) = lost next rest

  panicked-lost :
      (stream : Stream M) (rounds : List (Round M))
      → (watch_loop unmarshal stream rounds).1 ≡ panicked
      → lost stream rounds ≡ true
  unfolding watch_loop lost
  panicked-lost stream [] h = ground (arith, h)
  panicked-lost stream (ctx_done ∷ rest) h = ground (arith, h)
  panicked-lost none (reconnected next ∷ rest) h = refl
  panicked-lost (some messages) (reconnected next ∷ rest) h = panicked-lost next rest h

  lost-panicked :
      (stream : Stream M) (rounds : List (Round M))
      → lost stream rounds ≡ true
      → (watch_loop unmarshal stream rounds).1 ≡ panicked
  unfolding watch_loop lost
  lost-panicked stream [] h = ground (arith, h)
  lost-panicked stream (ctx_done ∷ rest) h = ground (arith, h)
  lost-panicked none (reconnected next ∷ rest) h = refl
  lost-panicked (some messages) (reconnected next ∷ rest) h = lost-panicked next rest h

  -- The watcher panics just when it could not open a stream again and its context was not done by then.
  watch_loop-panicked :
      (stream : Stream M) (rounds : List (Round M))
      → ((watch_loop unmarshal stream rounds).1 ≡ panicked) ↔ (lost stream rounds ≡ true)
  watch_loop-panicked stream rounds = (panicked-lost stream rounds, lost-panicked stream rounds)

-- a handler of the cluster's object, as the runtime reads it: the object has no version
abbrev pub to_handler : V1HandlerSpec → HandlerSpec
to_handler h = record { name = h.name; type = h.type; version = "" }

-- the specification of the cluster's object, as the runtime reads it: the JSON names of the fields of both
-- types are the same
abbrev pub to_runtime : V1ConfigurationSpec → ConfigurationSpec
to_runtime s = record {
  subscriber_pipeline = map to_handler s.subscriber_pipeline;
  publisher_pipeline = map to_handler s.publisher_pipeline;
  telemetry = s.telemetry;
  features = s.features;
  pub_sub_name = s.pub_sub_name;
  min_runtime_version = s.min_runtime_version;
}

abbrev is_wanted : WatchConfigurationRequest → Configuration → Bool
is_wanted request obj = (obj.namespace == request.namespace) && (obj.name == request.config_name)

-- the configurations of this name and namespace among these objects
pub wanted : WatchConfigurationRequest → List Configuration → List V1ConfigurationSpec
wanted request [] = []
wanted request (obj ∷ rest) =
    if is_wanted request obj then obj.spec ∷ wanted request rest else wanted request rest

-- a stream that meets these objects and is then done
abbrev pub session : List Configuration → List (Selected Configuration)
session [] = stream_done ∷ []
session (obj ∷ rest) = object obj ∷ session rest

abbrev pub all_objects : List (List Configuration) → List Configuration
all_objects [] = []
all_objects (objs ∷ rest) = objs ++ all_objects rest

-- what the operator sends over each stream
abbrev pub sent :
    WatchConfigurationRequest → List (List Configuration) → List (List V1ConfigurationSpec)
sent request [] = []
sent request (objs ∷ rest) = watch_configuration request (session objs) ∷ sent request rest

watch_configuration-session :
    (request : WatchConfigurationRequest) (objs : List Configuration)
    → watch_configuration request (session objs) ≡ wanted request objs
unfolding watch_configuration wanted
watch_configuration-session request [] = refl
watch_configuration-session request (obj ∷ rest) =
    let ih = watch_configuration-session request rest in ground (arith, ih)

wanted-append :
    (request : WatchConfigurationRequest) (xs ys : List Configuration)
    → wanted request (xs ++ ys) ≡ wanted request xs ++ wanted request ys
unfolding wanted
wanted-append request [] ys = refl
wanted-append request (x ∷ xs) ys = let ih = wanted-append request xs ys in ground (arith, ih)

concat-sent :
    (request : WatchConfigurationRequest) (objss : List (List Configuration))
    → concat (sent request objss) ≡ wanted request (all_objects objss)
unfolding wanted
concat-sent request [] = refl
concat-sent request (objs ∷ rest) =
    let ih = concat-sent request rest in
    ground (
      arith,
      ih,
      watch_configuration-session request objs,
      wanted-append request objs (all_objects rest),
    )

-- From the operator's objects to the runtime: over any number of streams, the watcher of a configuration
-- sends to the runtime exactly the specifications of the objects with its name and namespace that the
-- streams met, in their order, each as the runtime's own type, whose handlers have no version, and then
-- closes its channel, where encoding one of the operator's specifications and decoding it gives its
-- fields.
pub watch_loop-wanted :
    {M : Type 0} (unmarshal : M → ConfigurationSpec × Option Error)
    (marshal : V1ConfigurationSpec → M)
    → IsCodec unmarshal marshal to_runtime
    → (request : WatchConfigurationRequest) (first : List Configuration)
      (rest : List (List Configuration))
    → watch_loop unmarshal
        (some (encode_all marshal (watch_configuration request (session first))))
        (connections unmarshal marshal to_runtime (sent request rest))
      ≡ (map to_runtime (wanted request (first ++ all_objects rest)), closed)
watch_loop-wanted unmarshal marshal codec request first rest =
    watch_loop-connections unmarshal marshal to_runtime codec
      (watch_configuration request (session first)) (sent request rest)
    ∙ ap (λ specs. (map to_runtime specs, closed)) (concat-sent request (first ∷ rest))
