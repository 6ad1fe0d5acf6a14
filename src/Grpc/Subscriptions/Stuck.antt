-- ===== src/Grpc/Subscriptions/Stuck.antt =====
-- A call of Refresh that waits for a call of Subscribe which waits for the lock.
use rusi.Prelude.{
  ℕ, zero, suc, ◌≡◌, refl, ◌∙◌, subst, inl, inr, Bool, true, false, ◌||◌, none, some, List, [], ◌∷◌,
  arith, beq, Bool-cases, Option-cases, is_empty,
}
use rusi.Grpc.Subscriptions.{
  Phase, receiving, subscribing, awaiting_chan, selecting, removing, Server, member, remove,
  is_order, set_phase, exit_error, start, is_awaiting_chan, is_selecting, is_removing, after_recv,
  subscription_request, recv, subscribe, get_refresh_chan, exit, remove_refresh_chan, refresh,
  take_refreshing, signal, refreshed, Event, received, subscribed, got_chan, done, removed,
  refresh_started, signalled, refresh_ended, step, Reach, here, next,
}
use rusi.Grpc.Subscriptions.Sound.{beq-eq}

abbrev pub is_head : ℕ → List ℕ → Bool
is_head j [] = false
is_head j (x ∷ xs) = beq x j

-- a call of Refresh waits until this call of Subscribe receives
pub heads : ℕ → List (List ℕ) → Bool
heads j [] = false
heads j (x ∷ xs) = is_head j x || heads j xs

pub record IsStuck (j : ℕ) (s : Server) : Type 0 where
  pub awaited : heads j s.refreshing ≡ true
  pub locked : is_awaiting_chan (s.calls j) || is_removing (s.calls j) ≡ true

-- nothing that takes the lock goes on
pub record IsFrozen (s t : Server) : Type 0 where
  pub same_channels : t.refresh_channels ≡ s.refresh_channels
  pub still_waiting :
      (i : ℕ) → is_awaiting_chan (s.calls i) ≡ true → is_awaiting_chan (t.calls i) ≡ true

take_refreshing-heads :
    (j k : ℕ) (xs others : List (List ℕ)) (x : List ℕ)
    → take_refreshing k xs ≡ some (x, others)
    → is_head j x ≡ false
    → heads j xs ≡ true
    → heads j others ≡ true
unfolding take_refreshing heads
take_refreshing-heads j k [] others x h n w = absurd (ground (arith, h))
take_refreshing-heads j zero (y ∷ xs) others x h n w = ground (arith, h, n, w)
take_refreshing-heads j (suc k) (y ∷ xs) others x h n w =
    elim (Option-cases (take_refreshing k xs)) [
      | inl gone ↦ absurd (ground (arith, gone, h))
      | inr ((z, left), taken) ↦ elim (Bool-cases (heads j xs)) [
        | inl there ↦
            let same : z ≡ x = ground (arith, taken, h) in
            let not_head : is_head j z ≡ false = ground (arith, same, n) in
            let ih = take_refreshing-heads j k xs left z taken not_head there in
            ground (arith, taken, h, ih)
        | inr front ↦ ground (arith, taken, h, w, front)
      ]
    ]

heads-busy : (j : ℕ) (xs : List (List ℕ)) → heads j xs ≡ true → is_empty xs ≡ false
unfolding heads
heads-busy j [] h = ground (arith, h)
heads-busy j (x ∷ xs) h = refl

kept_lock :
    (i c : ℕ) (p : Phase) (calls : ℕ → Phase)
    → is_awaiting_chan (calls i) || is_removing (calls i) ≡ false
    → is_awaiting_chan (calls c) || is_removing (calls c) ≡ true
    → is_awaiting_chan (set_phase i p calls c) || is_removing (set_phase i p calls c) ≡ true
unfolding set_phase
kept_lock i c p calls free a = elim (Bool-cases (beq i c)) [
  | inr other ↦ ground (arith, other, a)
  | inl same ↦
      let q = beq-eq c i same in
      let no_more =
        subst (λ d. is_awaiting_chan (calls d) || is_removing (calls d) ≡ false) q free in
      absurd (ground (arith, no_more, a))
]

kept_awaiting :
    (i c : ℕ) (p : Phase) (calls : ℕ → Phase)
    → is_awaiting_chan (calls i) || is_removing (calls i) ≡ false
    → is_awaiting_chan (calls c) ≡ true
    → is_awaiting_chan (set_phase i p calls c) ≡ true
unfolding set_phase
kept_awaiting i c p calls free a = elim (Bool-cases (beq i c)) [
  | inr other ↦ ground (arith, other, a)
  | inl same ↦
      let q = beq-eq c i same in
      let no_more =
        subst (λ d. is_awaiting_chan (calls d) || is_removing (calls d) ≡ false) q free in
      absurd (ground (arith, no_more, a))
]

-- a call that does not wait for the lock has moved: the others stay as they are
moved-IsStuck :
    (i j : ℕ) (p : Phase) (s t : Server)
    → is_awaiting_chan (s.calls i) || is_removing (s.calls i) ≡ false
    → t.calls ≡ set_phase i p s.calls
    → t.refresh_channels ≡ s.refresh_channels
    → heads j t.refreshing ≡ true
    → IsStuck j s
    → IsStuck j t × IsFrozen s t
moved-IsStuck i j p s t free moves same w h = (
  record { awaited = w; locked = rw moves (kept j h.locked) },
  record { same_channels = same; still_waiting = λ c a. rw moves (kept_chan c a) },
)
  where
    kept :
        (c : ℕ)
        → is_awaiting_chan (s.calls c) || is_removing (s.calls c) ≡ true
        → is_awaiting_chan (set_phase i p s.calls c) || is_removing (set_phase i p s.calls c) ≡ true
    kept c a = kept_lock i c p s.calls free a

    kept_chan :
        (c : ℕ)
        → is_awaiting_chan (s.calls c) ≡ true
        → is_awaiting_chan (set_phase i p s.calls c) ≡ true
    kept_chan c a = kept_awaiting i c p s.calls free a

heads-cons : (j : ℕ) (x : List ℕ) (xs : List (List ℕ)) → heads j xs ≡ true → heads j (x ∷ xs) ≡ true
unfolding heads
heads-cons j x xs h = ground (arith, h)

ended : (j k : ℕ) (s t : Server) → IsStuck j s → refreshed k s ≡ some t → IsStuck j t × IsFrozen s t
unfolding refreshed
ended j k s t h e = elim (Option-cases (take_refreshing k s.refreshing)) [
  | inl gone ↦ absurd (ground (arith, gone, e))
  | inr ((x ∷ xs, others), taken) ↦ absurd (ground (arith, taken, e))
  | inr (([], others), taken) ↦
      let w = take_refreshing-heads j k s.refreshing others [] taken refl h.awaited in
      (
        record {
          awaited = ground (arith, e, taken, w);
          locked = ground (arith, e, taken, h.locked);
        },
        record {
          same_channels = ground (arith, e, taken);
          still_waiting = λ i a. ground (arith, e, taken, a);
        },
      )
]

signal-IsStuck :
    (j k : ℕ) (s t : Server) → IsStuck j s → signal k s ≡ some t → IsStuck j t × IsFrozen s t
unfolding signal
signal-IsStuck j k s t h e = elim (Option-cases (take_refreshing k s.refreshing)) [
  | inl gone ↦ absurd (ground (arith, gone, e))
  | inr (([], others), taken) ↦ absurd (ground (arith, taken, e))
  | inr ((i ∷ rest, others), taken) ↦
      let chosen : is_selecting (s.calls i) ≡ true = ground (arith, e, taken) in
      let free : is_awaiting_chan (s.calls i) || is_removing (s.calls i) ≡ false =
        ground (arith, chosen) in
      elim (Bool-cases (beq i j)) [
        | inl same ↦
            let q = beq-eq j i same in
            let no_more =
              subst (λ d. is_awaiting_chan (s.calls d) || is_removing (s.calls d) ≡ false) q free in
            absurd (ground (arith, no_more, h.locked))
        | inr other ↦
            let w =
              take_refreshing-heads j k s.refreshing others (i ∷ rest) taken other h.awaited in
            let w' = heads-cons j rest others w in
            moved-IsStuck i j subscribing s t free (ground (arith, e, taken))
              (ground (arith, e, taken)) (ground (arith, e, taken, w')) h
      ]
]

step-IsStuck :
    (j : ℕ) (e : Event) (s t : Server)
    → IsStuck j s
    → step e s ≡ some t
    → IsStuck j t × IsFrozen s t
unfolding step recv subscribe get_refresh_chan exit remove_refresh_chan refresh
step-IsStuck j (received i message) s t h e =
    moved-IsStuck i j (after_recv message) s t (ground (arith, e)) (ground (arith, e))
      (ground (arith, e)) (ground (arith, e, h.awaited)) h
step-IsStuck j (subscribed i (some x)) s t h e =
    moved-IsStuck i j (removing (some x)) s t (ground (arith, e)) (ground (arith, e))
      (ground (arith, e)) (ground (arith, e, h.awaited)) h
step-IsStuck j (subscribed i none) s t h e =
    moved-IsStuck i j awaiting_chan s t (ground (arith, e)) (ground (arith, e)) (ground (arith, e))
      (ground (arith, e, h.awaited)) h
step-IsStuck j (done i reason) s t h e =
    moved-IsStuck i j (removing (some (exit_error reason))) s t (ground (arith, e))
      (ground (arith, e)) (ground (arith, e)) (ground (arith, e, h.awaited)) h
step-IsStuck j (got_chan i) s t h e =
    absurd (ground (arith, e, heads-busy j s.refreshing h.awaited))
step-IsStuck j (removed i) s t h e = absurd (ground (arith, e, heads-busy j s.refreshing h.awaited))
step-IsStuck j (refresh_started order) s t h e = (
  record {
    awaited = ground (arith, e, h.awaited, heads-cons j order s.refreshing);
    locked = ground (arith, e, h.locked);
  },
  record { same_channels = ground (arith, e); still_waiting = λ i a. ground (arith, e, a) },
)
step-IsStuck j (refresh_ended k) s t h e = ended j k s t h e
step-IsStuck j (signalled k) s t h e = signal-IsStuck j k s t h e

-- Once Refresh waits for a call of Subscribe that waits for the lock, it waits for ever: whatever
-- happens, that call of Subscribe and that of Refresh go on waiting, no refresh channel is made or
-- removed, and every call of Subscribe that waits for its channel waits for ever.
Reach-IsStuck : (j : ℕ) (s t : Server) → IsStuck j s → Reach s t → IsStuck j t × IsFrozen s t
Reach-IsStuck j s t h here = (h, record { same_channels = refl; still_waiting = λ i a. a })
Reach-IsStuck j s u h (next {t = t} e r x) =
    let (stuck, frozen) = Reach-IsStuck j s t h r in
    let (still, more) = step-IsStuck j e t u stuck x in
    (
      still,
      record {
        same_channels = more.same_channels ∙ frozen.same_channels;
        still_waiting = λ i a. more.still_waiting i (frozen.still_waiting i a);
      },
    )

abbrev phases : ℕ → Phase → List Phase → ℕ → Phase
phases i p [] = set_phase i p (λ _. receiving)
phases i p (q ∷ qs) = set_phase i p (phases i q qs)

-- the state of one call, with what it went through before
abbrev only : ℕ → Phase → List Phase → List ℕ → List (List ℕ) → List ℕ → Server
only i p before channels waits opens = record {
  calls = phases i p before;
  refresh_channels = channels;
  refreshing = waits;
  open_subscriptions = opens;
}

-- a call is refreshed, and once more while it subscribes again
refreshed_twice :
    (i : ℕ)
    → Reach start (
        only i awaiting_chan
          (subscribing ∷ selecting ∷ awaiting_chan ∷ subscribing ∷ [])
          (i ∷ [])
          ((i ∷ []) ∷ [])
          (i ∷ []))
unfolding step recv subscribe get_refresh_chan refresh signal refreshed take_refreshing is_order
    member remove set_phase
refreshed_twice i =
    let before = subscribing ∷ [] in
    let once = selecting ∷ awaiting_chan ∷ before in
    let s1 = only i subscribing [] [] [] [] in
    let s2 = only i awaiting_chan before [] [] (i ∷ []) in
    let s3 = only i selecting (awaiting_chan ∷ before) (i ∷ []) [] (i ∷ []) in
    let s4 = only i selecting (awaiting_chan ∷ before) (i ∷ []) ((i ∷ []) ∷ []) (i ∷ []) in
    let s5 = only i subscribing once (i ∷ []) ([] ∷ []) [] in
    let s6 = only i subscribing once (i ∷ []) [] [] in
    let s7 = only i subscribing once (i ∷ []) ((i ∷ []) ∷ []) [] in
    let r1 : Reach start s1 = next (received i subscription_request) here refl in
    let r2 : Reach start s2 = next (subscribed i none) r1 (ground arith) in
    let r3 : Reach start s3 = next (got_chan i) r2 (ground arith) in
    let r4 : Reach start s4 = next (refresh_started (i ∷ [])) r3 (ground arith) in
    let r5 : Reach start s5 = next (signalled 0) r4 (ground arith) in
    let r6 : Reach start s6 = next (refresh_ended 0) r5 (ground arith) in
    let r7 : Reach start s7 = next (refresh_started (i ∷ [])) r6 (ground arith) in
    next (subscribed i none) r7 (ground arith)

-- For every call of Subscribe there is a run of two calls of Refresh, the second while the call
-- subscribes again after the first, from whose end nothing leads out: that call and Refresh wait for
-- each other for ever, and no refresh channel is made or removed any more, for no call.
pub refresh_deadlock :
    (i : ℕ) → (s : Server) × Reach start s × ((t : Server) → Reach s t → IsStuck i t × IsFrozen s t)
unfolding heads set_phase
refresh_deadlock i =
    let once = subscribing ∷ selecting ∷ awaiting_chan ∷ subscribing ∷ [] in
    let s = only i awaiting_chan once (i ∷ []) ((i ∷ []) ∷ []) (i ∷ []) in
    (
      s,
      refreshed_twice i,
      λ t r. Reach-IsStuck i s t (record { awaited = ground arith; locked = ground arith }) r,
    )
