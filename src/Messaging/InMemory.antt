-- ===== src/Messaging/InMemory.antt =====
-- inMemoryBus of pkg/messaging/inmemory.go. A pointer to a handler is a number, and `H` is the type of
-- handlers. A published message is given to the handlers in a goroutine: `publish` returns what it runs.
pub mod Laws
use rusi.Prelude.{
  ℕ, zero, suc, ◌+◌, ◌-◌, ◌*◌, ◌/◌, ◌%◌, ◌^◌, ◌≤◌, ◌<◌, String, ◌≡◌, refl, sym, ap, ◌∙◌, subst, ◌≢◌,
  ◌↔◌, ◌⊎◌, inl, inr, Bool, true, false, not, ◌&&◌, ◌||◌, Option, none, some, List, [], ◌∷◌, ◌++◌,
  map, append_assoc, append-nil, arith, ◌==◌, eq_iff, eq_refl, ltb, leb, beq, if◌then◌else◌,
  Bool-cases, Option-cases, length, is_empty, any, length-append, any-append_right, All, All-append,
  Error, Result, ok, err, ◌>>=◌, ◌>>◌, fail_if, Result-cases, >>=-eq-ok,
}
use rusi.Prelude.Int.{ℤ, pos, negsuc, pos_part, neg_part, neg, ltb_ℤ, IsSigned, to_uint64, to_int64}
use rusi.Prelude.Dict.{
  Dict, lookup, insert, delete, lookup-insert, lookup-delete, lookup-empty, dict_laws, get,
}
use rusi.Prelude.Text.{◌⊕◌, single, to_lower, to_lower-append, split, trim_space, replace_char}
use rusi.Prelude.Number.{parse_uint64, parse_int32, parse_int32-IsSigned, parse_uint64-lt, itoa}
use rusi.Messaging.{MessageEnvelope}

pub record InMemoryBus (H : Type 0) : Type 0 where
  pub handlers : Dict (List (ℕ × H))
  -- the pointers that are taken are below this one
  pub next_pointer : ℕ

abbrev pub headers_or_empty : Option (Dict String) → Dict String
headers_or_empty none = []
headers_or_empty (some m) = m

module _ {H : Type 0} where
  abbrev pub or_nil : Option (List (ℕ × H)) → List (ℕ × H)
  or_nil none = []
  or_nil (some hs) = hs

  -- `c.handlers[topic]`
  unfoldable pub handlers_of : String → InMemoryBus H → List (ℕ × H)
  handlers_of topic c = or_nil (lookup topic c.handlers)

  -- the handlers that a message is given to, and the message with its topic in the headers
  unfoldable pub publish : String → MessageEnvelope → InMemoryBus H → List (ℕ × H) × MessageEnvelope
  unfolding handlers_of
  publish topic env c = (
    handlers_of topic c,
    record env { headers = some (insert "topic" topic (headers_or_empty env.headers)) },
  )

  -- the pointer is what the returned function closes over
  pub subscribe : String → H → InMemoryBus H → InMemoryBus H × ℕ
  unfolding handlers_of
  subscribe topic handler c =
      let pointer = c.next_pointer in
      (
        record c {
          handlers = insert topic (handlers_of topic c ++ (pointer, handler) ∷ []) c.handlers;
          next_pointer = pointer + 1;
        },
        pointer,
      )

  -- the loop of the function that Subscribe returns
  pub without : ℕ → List (ℕ × H) → List (ℕ × H)
  without pointer [] = []
  without pointer ((p, h) ∷ rest) =
      if beq p pointer then without pointer rest else (p, h) ∷ without pointer rest

  pub unsubscribe : String → ℕ → InMemoryBus H → InMemoryBus H
  unfolding handlers_of without
  unsubscribe topic pointer c = record c {
    handlers = insert topic (without pointer (handlers_of topic c)) c.handlers;
  }

  unfoldable pub get_subscribers_count : String → InMemoryBus H → ℕ
  unfolding handlers_of
  get_subscribers_count topic c = length (handlers_of topic c)
