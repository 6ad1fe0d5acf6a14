-- ===== src/Operator/Watcher/Covered.antt =====
-- No object is lost on its way to a stream that stays open.
use rusi.Prelude.{
  ℕ, zero, suc, ◌+◌, ◌≤◌, String, ◌≡◌, refl, sym, ap, subst, inl, inr, Bool, true, ◌&&◌, ◌||◌, some,
  List, [], ◌∷◌, ◌++◌, arith, ltb, beq, if◌then◌else◌, Option-cases, any,
}
use rusi.Prelude.Dict.{Dict, lookup, lookup-insert}
use rusi.Operator.Watcher.{
  Feed, empty_feed, take_at, has, without, values, send_all, Event, store, announce, deliver,
  listen, begin, resume, stop, forget, act, ObjectWatcher, WatcherEvent, on_components,
  on_configurations, is_free, step, Reach, here, next,
}

pub times : ℕ → List ℕ → ℕ
times c [] = 0
times c (d ∷ ds) = (if beq c d then 1 else 0) + times c ds

has-times : (c : ℕ) (ds : List ℕ) → has c ds ≡ ltb 0 (times c ds)
unfolding has times
has-times c [] = refl
has-times c (d ∷ ds) = let ih = has-times c ds in ground (arith, ih)

times-append : (c : ℕ) (xs ys : List ℕ) → times c (xs ++ ys) ≡ times c xs + times c ys
unfolding times
times-append c [] ys = omega arith
times-append c (x ∷ xs) ys = let ih = times-append c xs ys in ground (arith, ih)

times-without :
    (c d : ℕ) (xs : List ℕ) → times c (without d xs) ≡ (if beq c d then 0 else times c xs)
unfolding times without
times-without c d [] = ground arith
times-without c d (x ∷ xs) = let ih = times-without c d xs in ground (arith, ih)

times-take_at :
    (c i d : ℕ) (xs rest : List ℕ)
    → take_at i xs ≡ some (d, rest)
    → times c xs ≡ (if beq c d then 1 else 0) + times c rest
unfolding times take_at
times-take_at c i d [] rest e = absurd (ground (arith, e))
times-take_at c zero d (x ∷ xs) rest e = ground (arith, e)
times-take_at c (suc i) d (x ∷ xs) rest e = elim (Option-cases (take_at i xs)) [
  | inl gone ↦ absurd (ground (arith, gone, e))
  | inr ((y, left), taken) ↦
      let ih = times-take_at c i y xs left taken in ground (arith, taken, e, ih)
]

any-append : {A : Type 0} (p : A → Bool) (xs ys : List A) → any p (xs ++ ys) ≡ any p xs || any p ys
any-append p [] ys = refl
any-append p (x ∷ xs) ys = let ih = any-append p xs ys in ground (arith, ih)

any-taken :
    {A : Type 0} (p : A → Bool) (i : ℕ) (x : A) (xs rest : List A)
    → take_at i xs ≡ some (x, rest)
    → any p xs ≡ p x || any p rest
unfolding take_at
any-taken p i x [] rest e = absurd (ground (arith, e))
any-taken p zero x (y ∷ ys) rest e = ground (arith, e)
any-taken p (suc i) x (y ∷ ys) rest e = elim (Option-cases (take_at i ys)) [
  | inl gone ↦ absurd (ground (arith, gone, e))
  | inr ((z, left), taken) ↦ let ih = any-taken p i z ys left taken in ground (arith, taken, e, ih)
]

module _ {O : Type 0} where
  -- a pair of this channel and an object of which the test holds
  abbrev pub goes_to : (O → Bool) → ℕ → ℕ × O → Bool
  goes_to p c (d, o) = beq c d && p o

  abbrev pub replays : (O → Bool) → ℕ → ℕ × List O → Bool
  replays p c (d, items) = beq c d && any p items

  -- an object of which the test holds has reached the channel or is on its way to it
  abbrev pub is_covered : (O → Bool) → ℕ → Feed O → Bool
  is_covered p c f =
      any p f.changes
      || any (goes_to p c) f.pending
      || any (goes_to p c) f.received
      || has c f.starting
      || any (replays p c) f.replaying

  pub record IsServed (p : O → Bool) (c : ℕ) (uid : String) (f : Feed O) : Type 0 where
    pub known : times c f.listening + times c f.leaving ≤ times c f.chans
    pub once : times c f.chans ≤ 1
    pub covered :
        (o : O)
        → lookup uid f.objects ≡ some o
        → p o ≡ true
        → has c f.listening ≡ true
        → is_covered p c f ≡ true

  any-send_all :
      (p : O → Bool) (c : ℕ) (o : O) (chans : List ℕ)
      → any (goes_to p c) (send_all o chans) ≡ has c chans && p o
  unfolding send_all has
  any-send_all p c o [] = refl
  any-send_all p c o (d ∷ ds) = let ih = any-send_all p c o ds in ground (arith, ih)

  any-values :
      (p : O → Bool) (uid : String) (o : O) (objects : Dict O)
      → lookup uid objects ≡ some o
      → p o ≡ true
      → any p (values objects) ≡ true
  unfolding values lookup
  any-values p uid o [] e h = absurd (ground (arith, e))
  any-values p uid o ((k, x) ∷ rest) e h =
      let ih = any-values p uid o rest in ground (arith, e, h, ih)

  module _ (p : O → Bool) (c : ℕ) (uid : String) where
    store-IsServed :
        (free : Bool) (key : String) (new : O) (f g : Feed O)
        → IsServed p c uid f
        → act free (store key new) f ≡ some g
        → IsServed p c uid g
    unfolding act
    store-IsServed free key new f g h e = record {
      known = ground (arith, e, h.known);
      once = ground (arith, e, h.once);
      covered = λ o found holds heard. ground (
        arith,
        e,
        found,
        holds,
        heard,
        h.covered o,
        lookup-insert key uid new f.objects,
        any-append p f.changes (new ∷ []),
      );
    }

    announce-IsServed :
        (free : Bool) (i : ℕ) (f g : Feed O)
        → IsServed p c uid f
        → act free (announce i) f ≡ some g
        → IsServed p c uid g
    unfolding act
    announce-IsServed free i f g h e = elim (Option-cases (take_at i f.changes)) [
      | inl gone ↦ absurd (ground (arith, gone, e))
      | inr ((x, rest), taken) ↦ record {
        known = ground (arith, taken, e, h.known);
        once = ground (arith, taken, e, h.once);
        covered = λ o found holds heard. ground (
          arith,
          taken,
          e,
          found,
          holds,
          heard,
          h.covered o,
          h.known,
          any-taken p i x f.changes rest taken,
          any-append (goes_to p c) f.pending (send_all x f.chans),
          any-send_all p c x f.chans,
          has-times c f.listening,
          has-times c f.chans,
        );
      }
    ]

    deliver-IsServed :
        (free : Bool) (i : ℕ) (f g : Feed O)
        → IsServed p c uid f
        → act free (deliver i) f ≡ some g
        → IsServed p c uid g
    unfolding act
    deliver-IsServed free i f g h e = elim (Option-cases (take_at i f.pending)) [
      | inl gone ↦ absurd (ground (arith, gone, e))
      | inr (((d, x), rest), taken) ↦ record {
        known = ground (arith, taken, e, h.known);
        once = ground (arith, taken, e, h.once);
        covered = λ o found holds heard. ground (
          arith,
          taken,
          e,
          found,
          holds,
          heard,
          h.covered o,
          any-taken (goes_to p c) i (d, x) f.pending rest taken,
          any-append (goes_to p c) f.received ((d, x) ∷ []),
        );
      }
    ]

    same_times : (d : ℕ) (xs : List ℕ) → beq c d ≡ true → times d xs ≡ times c xs
    same_times d xs same = let q : c ≡ d = ground (arith, same) in ap (λ n. times n xs) (sym q)

    has-append : (xs ys : List ℕ) → has c (xs ++ ys) ≡ has c xs || has c ys
    unfolding has
    has-append [] ys = refl
    has-append (x ∷ xs) ys = let ih = has-append xs ys in ground (arith, ih)

    listen-IsServed :
        (free : Bool) (d : ℕ) (f g : Feed O)
        → IsServed p c uid f
        → act free (listen d) f ≡ some g
        → IsServed p c uid g
    unfolding act has times
    listen-IsServed free d f g h e = record {
      known =
          ground (
            arith,
            e,
            h.known,
            times-append c f.listening (d ∷ []),
            times-append c f.chans (d ∷ []),
          );
      once = ground (
        arith,
        e,
        h.once,
        has-times c f.chans,
        has-times d f.chans,
        times-append c f.chans (d ∷ []),
        same_times d f.chans,
      );
      covered = λ o found holds heard. ground (
        arith,
        e,
        found,
        holds,
        heard,
        h.covered o,
        has-append f.listening (d ∷ []),
        has-append f.starting (d ∷ []),
      );
    }

    begin-IsServed :
        (free : Bool) (i : ℕ) (f g : Feed O)
        → IsServed p c uid f
        → act free (begin i) f ≡ some g
        → IsServed p c uid g
    unfolding act
    begin-IsServed free i f g h e = elim (Option-cases (take_at i f.starting)) [
      | inl gone ↦ absurd (ground (arith, gone, e))
      | inr ((d, rest), taken) ↦ record {
        known = ground (arith, taken, e, h.known);
        once = ground (arith, taken, e, h.once);
        covered = λ o found holds heard.
            let e' : lookup uid f.objects ≡ some o = ground (arith, taken, e, found) in
            ground (
              arith,
              taken,
              e,
              holds,
              heard,
              h.covered o,
              e',
              times-take_at c i d f.starting rest taken,
              has-times c f.starting,
              has-times c rest,
              any-values p uid o f.objects e' holds,
              any-append (replays p c) f.replaying ((d, values f.objects) ∷ []),
            );
      }
    ]

    resume-IsServed :
        (free : Bool) (i : ℕ) (f g : Feed O)
        → IsServed p c uid f
        → act free (resume i) f ≡ some g
        → IsServed p c uid g
    unfolding act
    resume-IsServed free i f g h e = elim (Option-cases (take_at i f.replaying)) [
      | inl gone ↦ absurd (ground (arith, gone, e))
      | inr (((d, []), rest), taken) ↦ record {
        known = ground (arith, taken, e, h.known);
        once = ground (arith, taken, e, h.once);
        covered = λ o found holds heard. ground (
          arith,
          taken,
          e,
          found,
          holds,
          heard,
          h.covered o,
          any-taken (replays p c) i (d, []) f.replaying rest taken,
        );
      }
      | inr (((d, x ∷ items), rest), taken) ↦ record {
        known = ground (arith, taken, e, h.known);
        once = ground (arith, taken, e, h.once);
        covered = λ o found holds heard. ground (
          arith,
          taken,
          e,
          found,
          holds,
          heard,
          h.covered o,
          any-taken (replays p c) i (d, x ∷ items) f.replaying rest taken,
          any-append (replays p c) rest ((d, items) ∷ []),
          any-append (goes_to p c) f.received ((d, x) ∷ []),
        );
      }
    ]

    stop-IsServed :
        (free : Bool) (d : ℕ) (f g : Feed O)
        → IsServed p c uid f
        → act free (stop d) f ≡ some g
        → IsServed p c uid g
    unfolding act times
    stop-IsServed free d f g h e = record {
      known = ground (
        arith,
        e,
        h.known,
        has-times d f.listening,
        same_times d f.listening,
        times-without c d f.listening,
        times-append c f.leaving (d ∷ []),
      );
      once = ground (arith, e, h.once);
      covered = λ o found holds heard. ground (
        arith,
        e,
        found,
        holds,
        heard,
        h.covered o,
        has-times c f.listening,
        has-times c (without d f.listening),
        times-without c d f.listening,
      );
    }

    forget-IsServed :
        (free : Bool) (i : ℕ) (f g : Feed O)
        → IsServed p c uid f
        → act free (forget i) f ≡ some g
        → IsServed p c uid g
    unfolding act
    forget-IsServed free i f g h e = elim (Option-cases (take_at i f.leaving)) [
      | inl gone ↦ absurd (ground (arith, gone, e))
      | inr ((d, rest), taken) ↦ record {
        known = ground (
          arith,
          taken,
          e,
          h.known,
          h.once,
          times-take_at c i d f.leaving rest taken,
          times-without c d f.chans,
        );
        once = ground (arith, taken, e, h.once, times-without c d f.chans);
        covered = λ o found holds heard. ground (arith, taken, e, found, holds, heard, h.covered o);
      }
    ]

    act-IsServed :
        (free : Bool) (event : Event O) (f g : Feed O)
        → IsServed p c uid f
        → act free event f ≡ some g
        → IsServed p c uid g
    act-IsServed free (store key o) f g h e = store-IsServed free key o f g h e
    act-IsServed free (announce i) f g h e = announce-IsServed free i f g h e
    act-IsServed free (deliver i) f g h e = deliver-IsServed free i f g h e
    act-IsServed free (listen d) f g h e = listen-IsServed free d f g h e
    act-IsServed free (begin i) f g h e = begin-IsServed free i f g h e
    act-IsServed free (resume i) f g h e = resume-IsServed free i f g h e
    act-IsServed free (stop d) f g h e = stop-IsServed free d f g h e
    act-IsServed free (forget i) f g h e = forget-IsServed free i f g h e

    empty_feed-IsServed : IsServed p c uid empty_feed
    unfolding times lookup
    empty_feed-IsServed = record {
      known = omega arith;
      once = omega arith;
      covered = λ o found. absurd (ground (arith, found));
    }

module _ {C D : Type 0} (p : C → Bool) (q : D → Bool) (c : ℕ) (uid : String) where
  abbrev AreServed : ObjectWatcher C D → Type 0
  AreServed ow = IsServed p c uid ow.components × IsServed q c uid ow.configurations

  step-AreServed :
      (e : WatcherEvent C D) (ow after : ObjectWatcher C D)
      → AreServed ow
      → step e ow ≡ some after
      → AreServed after
  unfolding step
  step-AreServed (on_components e) ow after (h, k) s =
      elim (Option-cases (act (is_free ow) e ow.components)) [
        | inl gone ↦ absurd (ground (arith, gone, s))
        | inr (f, acted) ↦
            let e1 : record ow { components = f } ≡ after = ground (arith, acted, s) in
            subst AreServed e1 (act-IsServed p c uid (is_free ow) e ow.components f h acted, k)
      ]
  step-AreServed (on_configurations e) ow after (h, k) s =
      elim (Option-cases (act (is_free ow) e ow.configurations)) [
        | inl gone ↦ absurd (ground (arith, gone, s))
        | inr (f, acted) ↦
            let e1 : record ow { configurations = f } ≡ after = ground (arith, acted, s) in
            subst AreServed e1 (h, act-IsServed q c uid (is_free ow) e ow.configurations f k acted)
      ]

  -- In every state that is reached from the start, whatever happens in whatever order: the object that is
  -- stored last under a UID has been received on the channel of every stream that is open, or is still on
  -- its way there, as a change that is not published yet, in a goroutine that waits to send it, or with
  -- a replay that has not begun or still has it to send; and the channel is among the listeners, once.
  pub Reach-AreServed :
      (ow : ObjectWatcher C D)
      → Reach (record { components = empty_feed; configurations = empty_feed }) ow
      → IsServed p c uid ow.components × IsServed q c uid ow.configurations
  Reach-AreServed ow here = (empty_feed-IsServed p c uid, empty_feed-IsServed q c uid)
  Reach-AreServed ow (next {v = before} e r s) =
      step-AreServed e before ow (Reach-AreServed before r) s
