-- ===== src/Witnesses/Grpc.antt =====
-- Acknowledgements that are lost, and a request that is published.
use rusi.Prelude.{
  ℕ, ◌⊎◌, err, ◌+◌, String, ◌≡◌, refl, ◌≢◌, ◌↔◌, Option, none, some, [], ◌∷◌, Error, ok,
}
use rusi.Prelude.Dict.{lookup}
use rusi.Messaging.{PublishRequest}
use rusi.Messaging.InMemory.{InMemoryBus, handlers_of, subscribe, unsubscribe}
use rusi.Messaging.InMemory.Laws.{unsubscribe-subscribe}
use rusi.Healthcheck.{serve_http, empty_response}
use rusi.Healthcheck.Laws.{serve_http_lem, fails, is_some}
use rusi.Grpc.Acks.{Acks, sending, start, message, step, Reach, here, next, is_waiting}
use rusi.Grpc.Acks.Stuck.{IsStuck, IsFrozen, Reach-IsStuck, Reach-lost_ack}
use rusi.Grpc.Publish.{ProtoPublishRequest, Failure, publish}
use rusi.Grpc.Publish.Laws.{IsRequest, publish_iff}

abbrev blocked_acks : Acks
blocked_acks = record {
  sub_ack_map = ("m", 0) ∷ [];
  waiting = [];
  leaving = [];
  returned = [];
  receiver = sending 0 none;
  next_chan = 1;
}

abbrev refused_acks : Acks
refused_acks = record blocked_acks {
  returned = (1, some "message id is missing for topic ") ∷ [];
  next_chan = 2;
}

Reach-IsStuck_example : IsStuck 0 none refused_acks × IsFrozen blocked_acks refused_acks
unfolding step is_waiting
Reach-IsStuck_example =
    Reach-IsStuck 0 none {a = blocked_acks} {b = refused_acks}
      (record { blocked = refl; unread = refl }) (next (message "" none) here refl)

Reach-lost_ack_example :
    (a : Acks) × Reach start a
    × (lookup "m" a.sub_ack_map ≡ some 0)
    × (a.leaving ≡ record { id = "m"; chan = 0; outcome = some "context canceled" } ∷ [])
    × (a.returned ≡ [])
    × IsStuck 0 none a
Reach-lost_ack_example = Reach-lost_ack "m" none "context canceled" (λ e. cc)

abbrev a_request : ProtoPublishRequest
a_request = record {
  pubsub_name = "";
  topic = "t";
  payload = "1";
  type = "";
  data_content_type = "";
  metadata = none;
}

abbrev count_calls : PublishRequest → ℕ → ℕ × Option Error
count_calls request n = (n + 1, none)

publish_iff_example :
    ((publish ok count_calls a_request 0 ≡ (1, none)) ↔ (
      (a_request.topic ≢ "")
      × ((request : PublishRequest) × (content : String) × (ok a_request.payload ≡ ok content)
          × IsRequest a_request content request
          × (count_calls request 0 ≡ (1, none)))))
    × ((a_request.topic ≡ "") ⊎ ((e : Error) × (ok a_request.payload ≡ err e))
        → (f : Failure) × ((handler : PublishRequest → ℕ → ℕ × Option Error)
            → publish ok handler a_request 0 ≡ (0, some f)))
publish_iff_example = publish_iff ok count_calls a_request 0 1

serve_http_lem_example :
    ((serve_http (("a", none) ∷ []) empty_response).code ≡ 503)
    × ((key : String)
        → is_some (lookup key (serve_http (("a", none) ∷ []) empty_response).errors)
          ≡ fails key (("a", none) ∷ []))
unfolding serve_http
serve_http_lem_example = serve_http_lem (("a", none) ∷ [])

abbrev a_bus : InMemoryBus ℕ
a_bus = record { handlers = []; next_pointer = 0 }

unsubscribe-subscribe_example :
    (let (subscribed, pointer) = subscribe "t" 5 a_bus in
      handlers_of "t" (unsubscribe "t" pointer subscribed) ≡ handlers_of "t" a_bus)
unfolding handlers_of lookup
unsubscribe-subscribe_example = unsubscribe-subscribe "t" "t" 5 a_bus (λ topic. tt)
