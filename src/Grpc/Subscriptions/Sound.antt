-- ===== src/Grpc/Subscriptions/Sound.antt =====
-- What holds of the subscriptions and the refresh channels in every reachable state.
use rusi.Prelude.{
  ℕ, zero, suc, ◌-◌, ◌≤◌, ◌≡◌, refl, subst, inl, inr, true, false, Option, some, List, [], ◌∷◌,
  arith, ltb, beq, if◌then◌else◌, Bool-cases, Option-cases, is_empty, Error,
}
use rusi.Grpc.Subscriptions.{
  Phase, receiving, awaiting_chan, selecting, returned, Received, Server, member, remove, count,
  is_order, start, is_selecting, recv, subscribe, get_refresh_chan, exit, remove_refresh_chan,
  refresh, take_refreshing, signal, refreshed, Event, received, subscribed, got_chan, done, removed,
  refresh_started, signalled, refresh_ended, step, Reach, here, next,
}

-- the subscriptions of a call that are open in this phase
abbrev pub opened : Phase → ℕ
opened awaiting_chan = 1
opened selecting = 1
opened _ = 0

-- how many refresh channels a call has in this phase, at least and at most
abbrev pub fewest : Phase → ℕ
fewest selecting = 1
fewest _ = 0

abbrev pub most : Phase → ℕ
most receiving = 0
most (returned _) = 0
most _ = 1

-- the most often that one call of Refresh still has to send on this channel
pub most_waits : ℕ → List (List ℕ) → ℕ
most_waits i [] = 0
most_waits i (x ∷ xs) =
    let others = most_waits i xs in if ltb others (count i x) then count i x else others

pub record IsSound (i : ℕ) (s : Server) : Type 0 where
  -- one open subscription from the subscribe handler's return until the call unsubscribes, else none
  pub one_open : count i s.open_subscriptions ≡ opened (s.calls i)
  pub at_least : fewest (s.calls i) ≤ count i s.refresh_channels
  pub at_most : count i s.refresh_channels ≤ most (s.calls i)
  -- Refresh waits only on channels of the map
  pub held : most_waits i s.refreshing ≤ count i s.refresh_channels

pub count-remove :
    (i j : ℕ) (xs : List ℕ)
    → count i (remove j xs) ≡ (if beq j i then count i xs - 1 else count i xs)
unfolding count remove
count-remove i j [] = ground arith
count-remove i j (x ∷ xs) = let ih = count-remove i j xs in ground (arith, ih)

pub member-count : (i : ℕ) (xs : List ℕ) → member i xs ≡ ltb 0 (count i xs)
unfolding member count
member-count i [] = refl
member-count i (x ∷ xs) = let ih = member-count i xs in ground (arith, ih)

pub count-is_order :
    (i : ℕ) (order keys : List ℕ) → is_order order keys ≡ true → count i order ≡ count i keys
unfolding is_order count
count-is_order i [] [] h = refl
count-is_order i [] (k ∷ keys) h = ground (arith, h)
count-is_order i (x ∷ xs) keys h =
    let rest : is_order xs (remove x keys) ≡ true = ground (arith, h) in
    let first : member x keys ≡ true = ground (arith, h) in
    let ih = count-is_order i xs (remove x keys) rest in
    let c = count-remove i x keys in
    elim (Bool-cases (beq x i)) [
      | inr other ↦ ground (arith, ih, c, other)
      | inl same ↦
          let e : x ≡ i = ground (arith, same) in
          let some_one : member i keys ≡ true = subst (λ y. member y keys ≡ true) e first in
          ground (arith, ih, c, same, some_one, member-count i keys)
    ]

most_waits-empty : (i : ℕ) (xs : List (List ℕ)) → is_empty xs ≡ true → most_waits i xs ≡ 0
unfolding most_waits
most_waits-empty i [] h = refl
most_waits-empty i (x ∷ xs) h = ground (arith, h)

take_refreshing-most_waits :
    (i k : ℕ) (xs others : List (List ℕ)) (x : List ℕ)
    → take_refreshing k xs ≡ some (x, others)
    → (most_waits i others ≤ most_waits i xs) × (count i x ≤ most_waits i xs)
unfolding take_refreshing most_waits
take_refreshing-most_waits i k [] others x h = absurd (ground (arith, h))
take_refreshing-most_waits i zero (y ∷ xs) others x h = ground (arith, h)
take_refreshing-most_waits i (suc k) (y ∷ xs) others x h =
    elim (Option-cases (take_refreshing k xs)) [
      | inl gone ↦ absurd (ground (arith, gone, h))
      | inr ((z, left), taken) ↦
          let ih = take_refreshing-most_waits i k xs left z taken in ground (arith, taken, h, ih)
    ]

most_waits-cons :
    (i n : ℕ) (x : List ℕ) (xs : List (List ℕ))
    → count i x ≤ n
    → most_waits i xs ≤ n
    → most_waits i (x ∷ xs) ≤ n
unfolding most_waits
most_waits-cons i n x xs h k = ground (arith, h, k)

pub beq-eq : (i j : ℕ) → beq j i ≡ true → j ≡ i
beq-eq i j h = ground (arith, h)

recv-own :
    (i : ℕ) (message : Received) (s t : Server)
    → IsSound i s
    → recv i message s ≡ some t
    → IsSound i t
unfolding recv
recv-own i message s t h e = record {
  one_open = ground (arith, e, h.one_open, h.at_most);
  at_least = ground (arith, e, h.at_least, h.at_most);
  at_most = ground (arith, e, h.at_least, h.at_most);
  held = ground (arith, e, h.held, h.at_most);
}

recv-other :
    (i j : ℕ) (message : Received) (s t : Server)
    → beq j i ≡ false
    → IsSound i s
    → recv j message s ≡ some t
    → IsSound i t
unfolding recv
recv-other i j message s t n h e = record {
  one_open = ground (arith, e, n, h.one_open);
  at_least = ground (arith, e, n, h.at_least);
  at_most = ground (arith, e, n, h.at_most);
  held = ground (arith, e, n, h.held);
}

recv-IsSound :
    (i j : ℕ) (message : Received) (s t : Server)
    → IsSound i s
    → recv j message s ≡ some t
    → IsSound i t
recv-IsSound i j message s t h e = elim (Bool-cases (beq j i)) [
  | inr n ↦ recv-other i j message s t n h e
  | inl same ↦
      let q = beq-eq i j same in
      recv-own i message s t h (subst (λ k. recv k message s ≡ some t) q e)
]

subscribe-own :
    (i : ℕ) (failure : Option Error) (s t : Server)
    → IsSound i s
    → subscribe i failure s ≡ some t
    → IsSound i t
unfolding subscribe count
subscribe-own i failure s t h e = record {
  one_open = ground (arith, e, h.one_open, h.at_most);
  at_least = ground (arith, e, h.at_least, h.at_most);
  at_most = ground (arith, e, h.at_least, h.at_most);
  held = ground (arith, e, h.held, h.at_most);
}

subscribe-other :
    (i j : ℕ) (failure : Option Error) (s t : Server)
    → beq j i ≡ false
    → IsSound i s
    → subscribe j failure s ≡ some t
    → IsSound i t
unfolding subscribe count
subscribe-other i j failure s t n h e = record {
  one_open = ground (arith, e, n, h.one_open);
  at_least = ground (arith, e, n, h.at_least);
  at_most = ground (arith, e, n, h.at_most);
  held = ground (arith, e, n, h.held);
}

subscribe-IsSound :
    (i j : ℕ) (failure : Option Error) (s t : Server)
    → IsSound i s
    → subscribe j failure s ≡ some t
    → IsSound i t
subscribe-IsSound i j failure s t h e = elim (Bool-cases (beq j i)) [
  | inr n ↦ subscribe-other i j failure s t n h e
  | inl same ↦
      let q = beq-eq i j same in
      subscribe-own i failure s t h (subst (λ k. subscribe k failure s ≡ some t) q e)
]

get_refresh_chan-own :
    (i : ℕ) (s t : Server) → IsSound i s → get_refresh_chan i s ≡ some t → IsSound i t
unfolding get_refresh_chan count
get_refresh_chan-own i s t h e = record {
  one_open = ground (
    arith,
    e,
    h.one_open,
    h.at_most,
    member-count i s.refresh_channels,
    most_waits-empty i s.refreshing,
  );
  at_least = ground (
    arith,
    e,
    h.at_least,
    h.at_most,
    member-count i s.refresh_channels,
    most_waits-empty i s.refreshing,
  );
  at_most = ground (
    arith,
    e,
    h.at_least,
    h.at_most,
    member-count i s.refresh_channels,
    most_waits-empty i s.refreshing,
  );
  held = ground (
    arith,
    e,
    h.held,
    h.at_most,
    member-count i s.refresh_channels,
    most_waits-empty i s.refreshing,
  );
}

get_refresh_chan-other :
    (i j : ℕ) (s t : Server)
    → beq j i ≡ false
    → IsSound i s
    → get_refresh_chan j s ≡ some t
    → IsSound i t
unfolding get_refresh_chan count
get_refresh_chan-other i j s t n h e = record {
  one_open = ground (arith, e, n, h.one_open, most_waits-empty i s.refreshing);
  at_least = ground (arith, e, n, h.at_least, most_waits-empty i s.refreshing);
  at_most = ground (arith, e, n, h.at_most, most_waits-empty i s.refreshing);
  held = ground (arith, e, n, h.held, most_waits-empty i s.refreshing);
}

get_refresh_chan-IsSound :
    (i j : ℕ) (s t : Server) → IsSound i s → get_refresh_chan j s ≡ some t → IsSound i t
get_refresh_chan-IsSound i j s t h e = elim (Bool-cases (beq j i)) [
  | inr n ↦ get_refresh_chan-other i j s t n h e
  | inl same ↦
      let q = beq-eq i j same in
      get_refresh_chan-own i s t h (subst (λ k. get_refresh_chan k s ≡ some t) q e)
]

exit-own :
    (i : ℕ) (reason : Error) (s t : Server) → IsSound i s → exit i reason s ≡ some t → IsSound i t
unfolding exit
exit-own i reason s t h e = record {
  one_open = ground (arith, e, h.one_open, h.at_most, count-remove i i s.open_subscriptions);
  at_least = ground (arith, e, h.at_least, h.at_most, count-remove i i s.open_subscriptions);
  at_most = ground (arith, e, h.at_least, h.at_most, count-remove i i s.open_subscriptions);
  held = ground (arith, e, h.held, h.at_most, count-remove i i s.open_subscriptions);
}

exit-other :
    (i j : ℕ) (reason : Error) (s t : Server)
    → beq j i ≡ false
    → IsSound i s
    → exit j reason s ≡ some t
    → IsSound i t
unfolding exit
exit-other i j reason s t n h e = record {
  one_open = ground (arith, e, n, h.one_open, count-remove i j s.open_subscriptions);
  at_least = ground (arith, e, n, h.at_least, count-remove i j s.open_subscriptions);
  at_most = ground (arith, e, n, h.at_most, count-remove i j s.open_subscriptions);
  held = ground (arith, e, n, h.held, count-remove i j s.open_subscriptions);
}

exit-IsSound :
    (i j : ℕ) (reason : Error) (s t : Server) → IsSound i s → exit j reason s ≡ some t → IsSound i t
exit-IsSound i j reason s t h e = elim (Bool-cases (beq j i)) [
  | inr n ↦ exit-other i j reason s t n h e
  | inl same ↦
      let q = beq-eq i j same in exit-own i reason s t h (subst (λ k. exit k reason s ≡ some t) q e)
]

remove_refresh_chan-own :
    (i : ℕ) (s t : Server) → IsSound i s → remove_refresh_chan i s ≡ some t → IsSound i t
unfolding remove_refresh_chan
remove_refresh_chan-own i s t h e = record {
  one_open = ground (
    arith,
    e,
    h.one_open,
    h.at_most,
    count-remove i i s.refresh_channels,
    most_waits-empty i s.refreshing,
  );
  at_least = ground (
    arith,
    e,
    h.at_least,
    h.at_most,
    count-remove i i s.refresh_channels,
    most_waits-empty i s.refreshing,
  );
  at_most = ground (
    arith,
    e,
    h.at_least,
    h.at_most,
    count-remove i i s.refresh_channels,
    most_waits-empty i s.refreshing,
  );
  held = ground (
    arith,
    e,
    h.held,
    h.at_most,
    count-remove i i s.refresh_channels,
    most_waits-empty i s.refreshing,
  );
}

remove_refresh_chan-other :
    (i j : ℕ) (s t : Server)
    → beq j i ≡ false
    → IsSound i s
    → remove_refresh_chan j s ≡ some t
    → IsSound i t
unfolding remove_refresh_chan
remove_refresh_chan-other i j s t n h e = record {
  one_open = ground (
    arith,
    e,
    n,
    h.one_open,
    count-remove i j s.refresh_channels,
    most_waits-empty i s.refreshing,
  );
  at_least = ground (
    arith,
    e,
    n,
    h.at_least,
    count-remove i j s.refresh_channels,
    most_waits-empty i s.refreshing,
  );
  at_most = ground (
    arith,
    e,
    n,
    h.at_most,
    count-remove i j s.refresh_channels,
    most_waits-empty i s.refreshing,
  );
  held =
      ground
        (arith, e, n, h.held, count-remove i j s.refresh_channels, most_waits-empty i s.refreshing);
}

remove_refresh_chan-IsSound :
    (i j : ℕ) (s t : Server) → IsSound i s → remove_refresh_chan j s ≡ some t → IsSound i t
remove_refresh_chan-IsSound i j s t h e = elim (Bool-cases (beq j i)) [
  | inr n ↦ remove_refresh_chan-other i j s t n h e
  | inl same ↦
      let q = beq-eq i j same in
      remove_refresh_chan-own i s t h (subst (λ k. remove_refresh_chan k s ≡ some t) q e)
]

refresh-IsSound :
    (i : ℕ) (order : List ℕ) (s t : Server) → IsSound i s → refresh order s ≡ some t → IsSound i t
unfolding refresh
refresh-IsSound i order s t h e =
    let all : is_order order s.refresh_channels ≡ true = ground (arith, e) in
    let same = count-is_order i order s.refresh_channels all in
    let waits =
      most_waits-cons i (count i s.refresh_channels) order s.refreshing (omega (arith, same))
        h.held in
    record {
      one_open = ground (arith, e, h.one_open);
      at_least = ground (arith, e, h.at_least);
      at_most = ground (arith, e, h.at_most);
      held = ground (arith, e, waits);
    }

refreshed-IsSound : (i k : ℕ) (s t : Server) → IsSound i s → refreshed k s ≡ some t → IsSound i t
unfolding refreshed
refreshed-IsSound i k s t h e = elim (Option-cases (take_refreshing k s.refreshing)) [
  | inl gone ↦ absurd (ground (arith, gone, e))
  | inr ((x ∷ xs, others), taken) ↦ absurd (ground (arith, taken, e))
  | inr (([], others), taken) ↦
      let (fewer, _) = take_refreshing-most_waits i k s.refreshing others [] taken in
      record {
        one_open = ground (arith, e, taken, h.one_open);
        at_least = ground (arith, e, taken, h.at_least);
        at_most = ground (arith, e, taken, h.at_most);
        held = ground (arith, e, taken, fewer, h.held);
      }
]

signal-IsSound : (i k : ℕ) (s t : Server) → IsSound i s → signal k s ≡ some t → IsSound i t
unfolding signal count
signal-IsSound i k s t h e = elim (Option-cases (take_refreshing k s.refreshing)) [
  | inl gone ↦ absurd (ground (arith, gone, e))
  | inr (([], others), taken) ↦ absurd (ground (arith, taken, e))
  | inr ((j ∷ rest, others), taken) ↦
      let (fewer, held) = take_refreshing-most_waits i k s.refreshing others (j ∷ rest) taken in
      let waits =
        most_waits-cons i (count i s.refresh_channels) rest others (ground (arith, held, h.held))
          (omega (arith, fewer, h.held)) in
      let gone = count-remove i j s.open_subscriptions in
      elim (Bool-cases (beq j i)) [
        | inr other ↦ record {
          one_open = ground (arith, e, taken, other, gone, h.one_open);
          at_least = ground (arith, e, taken, other, h.at_least);
          at_most = ground (arith, e, taken, other, h.at_most);
          held = ground (arith, e, taken, waits);
        }
        | inl same ↦
            let q = beq-eq i j same in
            let chosen : is_selecting (s.calls j) ≡ true = ground (arith, e, taken) in
            let mine : is_selecting (s.calls i) ≡ true =
              subst (λ c. is_selecting (s.calls c) ≡ true) q chosen in
            record {
              one_open = ground (arith, e, taken, same, mine, gone, h.one_open);
              at_least = ground (arith, e, taken, same, mine, h.at_least);
              at_most = ground (arith, e, taken, same, mine, h.at_most);
              held = ground (arith, e, taken, waits);
            }
      ]
]

step-IsSound : (i : ℕ) (e : Event) (s t : Server) → IsSound i s → step e s ≡ some t → IsSound i t
unfolding step
step-IsSound i (received j message) s t h e = recv-IsSound i j message s t h e
step-IsSound i (subscribed j failure) s t h e = subscribe-IsSound i j failure s t h e
step-IsSound i (got_chan j) s t h e = get_refresh_chan-IsSound i j s t h e
step-IsSound i (done j reason) s t h e = exit-IsSound i j reason s t h e
step-IsSound i (removed j) s t h e = remove_refresh_chan-IsSound i j s t h e
step-IsSound i (refresh_started order) s t h e = refresh-IsSound i order s t h e
step-IsSound i (signalled k) s t h e = signal-IsSound i k s t h e
step-IsSound i (refresh_ended k) s t h e = refreshed-IsSound i k s t h e

-- In every state that is reached from the start, whatever the calls of Subscribe and of Refresh do and
-- in whatever order, a call has exactly one open subscription from the time the subscribe handler gives
-- it until the call unsubscribes and none at any other time, so none when it has returned; the map
-- holds its refresh channel at most once, does while it waits for a signal, and no more once it has
-- returned; and Refresh waits only on channels of the map.
pub Reach-IsSound : (i : ℕ) (s : Server) → Reach start s → IsSound i s
unfolding count most_waits
Reach-IsSound i s here = record {
  one_open = refl;
  at_least = omega arith;
  at_most = omega arith;
  held = omega arith;
}
Reach-IsSound i u (next {t = t} e r h) = step-IsSound i e t u (Reach-IsSound i t r) h
