-- ===== src/Messaging/InMemory/Laws.antt =====
-- Subscribing and unsubscribing.
use rusi.Prelude.{
  ℕ, ◌+◌, ◌<◌, String, ◌≡◌, subst, inl, inr, some, List, [], ◌∷◌, ◌++◌, arith, ◌==◌, eq_iff,
  eq_refl, Bool-cases, All,
}
use rusi.Prelude.Dict.{lookup, insert, lookup-insert}
use rusi.Messaging.InMemory.{InMemoryBus, or_nil, handlers_of, subscribe, without, unsubscribe}

module _ {H : Type 0} where
  -- every pointer of the bus is below the next one
  abbrev pub IsFresh : InMemoryBus H → Type 0
  IsFresh c = (topic : String) → All (λ entry. entry.0 < c.next_pointer) (handlers_of topic c)

  without-append :
      (pointer : ℕ) (h : H) (hs : List (ℕ × H))
      → All (λ entry. entry.0 < pointer) hs
      → without pointer (hs ++ (pointer, h) ∷ []) ≡ hs
  unfolding without
  without-append pointer h [] fresh = ground arith
  without-append pointer h ((p, x) ∷ rest) fresh =
      let ih = without-append pointer h rest fresh.1 in
      let below = fresh.0 in ground (arith, ih, below)

  -- On a bus whose pointers are below the next one, a subscription that is closed leaves no trace: every
  -- topic has the handlers that it had before, in their order.
  pub unsubscribe-subscribe :
      (topic other : String) (handler : H) (c : InMemoryBus H)
      → IsFresh c
      → (let (subscribed, pointer) = subscribe topic handler c in
          handlers_of other (unsubscribe topic pointer subscribed) ≡ handlers_of other c)
  unfolding unsubscribe subscribe handlers_of
  unsubscribe-subscribe topic other handler c fresh =
      let hs = handlers_of topic c in
      let back = without-append c.next_pointer handler hs (fresh topic) in
      let added = hs ++ (c.next_pointer, handler) ∷ [] in
      let with_it = insert topic added c.handlers in
      let found : lookup topic with_it ≡ some added =
        ground (arith, lookup-insert topic topic added c.handlers, eq_refl topic) in
      let outer =
        lookup-insert topic other (without c.next_pointer (or_nil (lookup topic with_it)))
          with_it in
      let inner = lookup-insert topic other added c.handlers in
      let removed : without c.next_pointer (or_nil (lookup topic with_it)) ≡ hs = rw found back in
      elim (Bool-cases (topic == other)) [
        | inl same ↦
            let e : topic ≡ other = (eq_iff topic other).0 same in
            let outer' : handlers_of other
                  (unsubscribe topic c.next_pointer (subscribe topic handler c).0)
                ≡ hs =
              ground (arith, outer, same, removed) in
            subst
              (λ t.
                handlers_of other (unsubscribe topic c.next_pointer (subscribe topic handler c).0)
                ≡ handlers_of t c)
              e outer'
        | inr differ ↦ ground (arith, outer, inner, differ)
      ]

  -- A new subscription keeps the pointers below the next one.
  pub subscribe-IsFresh :
      (topic : String) (handler : H) (c : InMemoryBus H)
      → IsFresh c
      → IsFresh (subscribe topic handler c).0
  unfolding subscribe handlers_of
  subscribe-IsFresh topic handler c fresh other =
      let added = handlers_of topic c ++ (c.next_pointer, handler) ∷ [] in
      let stored = lookup-insert topic other added c.handlers in
      elim (Bool-cases (topic == other)) [
        | inl same ↦
            let e : lookup other (insert topic added c.handlers) ≡ some added =
              ground (arith, stored, same) in
            rw e (grows (handlers_of topic c) (fresh topic))
        | inr differ ↦
            let e : lookup other (insert topic added c.handlers) ≡ lookup other c.handlers =
              ground (arith, stored, differ) in
            rw e (rises (handlers_of other c) (fresh other))
      ]
    where
      rises :
          (hs : List (ℕ × H))
          → All (λ entry. entry.0 < c.next_pointer) hs
          → All (λ entry. entry.0 < c.next_pointer + 1) hs
      rises [] h = tt
      rises ((p, x) ∷ rest) h = (omega (arith, h.0), rises rest h.1)

      grows :
          (hs : List (ℕ × H))
          → All (λ entry. entry.0 < c.next_pointer) hs
          → All (λ entry. entry.0 < c.next_pointer + 1) (hs ++ (c.next_pointer, handler) ∷ [])
      grows [] h = (omega arith, tt)
      grows ((p, x) ∷ rest) h = (omega (arith, h.0), grows rest h.1)
