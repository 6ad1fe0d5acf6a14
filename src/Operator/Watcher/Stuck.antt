-- ===== src/Operator/Watcher/Stuck.antt =====
-- A replay to a stream that is closed.
use rusi.Prelude.{
  ℕ, zero, suc, String, ◌≡◌, refl, ◌∙◌, subst, ◌⊎◌, inl, inr, Bool, true, false, not, some, List,
  [], ◌∷◌, ◌++◌, arith, eq_refl, Bool-cases, Option-cases, is_empty, any,
}
use rusi.Prelude.Dict.{insert, lookup}
use rusi.Operator.Watcher.{
  Feed, empty_feed, take_at, has, without, values, Event, store, announce, deliver, listen, begin,
  resume, stop, forget, act, ObjectWatcher, WatcherEvent, on_components, on_configurations, is_free,
  step, Reach, here, next,
}

any-take_at :
    {A : Type 0} (p : A → Bool) (i : ℕ) (xs : List A) (x : A) (rest : List A)
    → take_at i xs ≡ some (x, rest)
    → p x ≡ false
    → any p xs ≡ true
    → any p rest ≡ true
unfolding take_at
any-take_at p i [] x rest e other h = ground arith
any-take_at p zero (y ∷ ys) x rest e other h = ground arith
any-take_at p (suc i) (y ∷ ys) x rest e other h = elim (Option-cases (take_at i ys)) [
  | inl none_left ↦ ground (arith, none_left, e)
  | inr ((z, zs), taken) ↦
      let ih = any-take_at p i ys z zs taken in ground (arith, taken, e, ih, other, h)
]

has-without : (c d : ℕ) (ds : List ℕ) → has c (without d ds) ≡ true → has c ds ≡ true
unfolding has without
has-without c d [] h = h
has-without c d (x ∷ xs) h = let ih = has-without c d xs in ground (arith, ih, h)

any-is_empty : {A : Type 0} (p : A → Bool) (xs : List A) → any p xs ≡ true → is_empty xs ≡ false
any-is_empty p [] h = ground arith
any-is_empty p (x ∷ xs) h = refl

module _ {O : Type 0} where
  -- a replay that has an object to send to a channel that nobody reads
  abbrev pub is_blocked : List ℕ → ℕ × List O → Bool
  is_blocked listening (c, []) = false
  is_blocked listening (c, _ ∷ _) = not (has c listening)

  abbrev pub IsStuck : Feed O → Type 0
  IsStuck f = any (is_blocked f.listening) f.replaying ≡ true

  any-without :
      (d : ℕ) (listening : List ℕ) (xs : List (ℕ × List O))
      → any (is_blocked listening) xs ≡ true
      → any (is_blocked (without d listening)) xs ≡ true
  any-without d listening [] h = h
  any-without d listening ((c, []) ∷ rest) h = any-without d listening rest h
  any-without d listening ((c, o ∷ items) ∷ rest) h =
      let ih = any-without d listening rest in
      let kept = has-without c d listening in ground (arith, ih, kept, h)

  any_append_left :
      (p : ℕ × List O → Bool) (xs ys : List (ℕ × List O))
      → any p xs ≡ true
      → any p (xs ++ ys) ≡ true
  any_append_left p [] ys h = ground arith
  any_append_left p (x ∷ xs) ys h = ground (arith, any_append_left p xs ys, h)

  -- without the lock, neither the objects nor the listeners change
  act-locked :
      (e : Event O) (f g : Feed O)
      → act false e f ≡ some g
      → (g.objects ≡ f.objects) × (g.chans ≡ f.chans)
  unfolding act
  act-locked (store uid o) f g s = ground arith
  act-locked (announce i) f g s = ground arith
  act-locked (deliver i) f g s = ground arith
  act-locked (listen c) f g s = ground arith
  act-locked (begin i) f g s = ground arith
  act-locked (resume i) f g s = elim (Option-cases (take_at i f.replaying)) [
    | inl gone ↦ ground (arith, gone, s)
    | inr (((c, []), rest), taken) ↦ ground (arith, taken, s)
    | inr (((c, o ∷ items), rest), taken) ↦ ground (arith, taken, s)
  ]
  act-locked (stop c) f g s = ground arith
  act-locked (forget i) f g s = ground arith

  act-IsStuck : (e : Event O) (f g : Feed O) → IsStuck f → act false e f ≡ some g → IsStuck g
  unfolding act
  act-IsStuck (store uid o) f g h s = ground arith
  act-IsStuck (announce i) f g h s = ground arith
  act-IsStuck (deliver i) f g h s = ground arith
  act-IsStuck (listen c) f g h s = ground arith
  act-IsStuck (begin i) f g h s = elim (Option-cases (take_at i f.starting)) [
    | inl gone ↦ ground (arith, gone, s)
    | inr ((c, rest), taken) ↦
        let kept =
          any_append_left (is_blocked f.listening) f.replaying ((c, values f.objects) ∷ []) h in
        ground (arith, taken, s, kept)
  ]
  act-IsStuck (resume i) f g h s = elim (Option-cases (take_at i f.replaying)) [
    | inl gone ↦ ground (arith, gone, s)
    | inr (((c, []), rest), taken) ↦
        let left = any-take_at (is_blocked f.listening) i f.replaying (c, []) rest taken refl h in
        ground (arith, taken, s, left)
    | inr (((c, o ∷ items), rest), taken) ↦ elim (Bool-cases (has c f.listening)) [
      | inr deaf ↦ ground (arith, taken, deaf, s)
      | inl hears ↦
          let left =
            any-take_at (is_blocked f.listening) i f.replaying (c, o ∷ items) rest taken
              (rw hears refl) h in
          let kept = any_append_left (is_blocked f.listening) rest ((c, items) ∷ []) left in
          ground (arith, taken, hears, s, kept)
    ]
  ]
  act-IsStuck (stop c) f g h s = ground (arith, any-without c f.listening f.replaying h)
  act-IsStuck (forget i) f g h s = ground arith

module _ {C D : Type 0} where
  abbrev pub IsDeadlocked : ObjectWatcher C D → Type 0
  IsDeadlocked ow = IsStuck ow.components ⊎ IsStuck ow.configurations

  abbrev pub IsUntouched : ObjectWatcher C D → ObjectWatcher C D → Type 0
  IsUntouched v w =
      (w.components.objects ≡ v.components.objects)
      × (w.components.chans ≡ v.components.chans)
      × (w.configurations.objects ≡ v.configurations.objects)
      × (w.configurations.chans ≡ v.configurations.chans)

  not_free : (ow : ObjectWatcher C D) → IsDeadlocked ow → is_free ow ≡ false
  unfolding is_free
  not_free ow (inl h) =
      let full = any-is_empty (is_blocked ow.components.listening) ow.components.replaying h in
      ground (arith, full)
  not_free ow (inr h) =
      let full =
        any-is_empty (is_blocked ow.configurations.listening) ow.configurations.replaying h in
      ground (arith, full)

  step-IsDeadlocked :
      (e : WatcherEvent C D) (v w : ObjectWatcher C D)
      → IsDeadlocked v
      → step e v ≡ some w
      → IsDeadlocked w × IsUntouched v w
  unfolding step
  step-IsDeadlocked (on_components e) v w h s =
      let blocked = not_free v h in
      elim (Option-cases (act false e v.components)) [
        | inl none_left ↦ ground (arith, blocked, none_left, s)
        | inr (g, made) ↦
            let same = act-locked e v.components g made in
            let w_eq : record v { components = g } ≡ w = ground (arith, blocked, made, s) in
            let stays : IsDeadlocked (record v { components = g }) = elim h [
              | inl here_stuck ↦ inl (act-IsStuck e v.components g here_stuck made)
              | inr there ↦ inr there
            ] in
            subst (λ u. IsDeadlocked u × IsUntouched v u) w_eq (stays, (same.0, same.1, refl, refl))
      ]
  step-IsDeadlocked (on_configurations e) v w h s =
      let blocked = not_free v h in
      elim (Option-cases (act false e v.configurations)) [
        | inl none_left ↦ ground (arith, blocked, none_left, s)
        | inr (g, made) ↦
            let same = act-locked e v.configurations g made in
            let w_eq : record v { configurations = g } ≡ w = ground (arith, blocked, made, s) in
            let stays : IsDeadlocked (record v { configurations = g }) = elim h [
              | inr here_stuck ↦ inr (act-IsStuck e v.configurations g here_stuck made)
              | inl there ↦ inl there
            ] in
            subst (λ u. IsDeadlocked u × IsUntouched v u) w_eq (stays, (refl, refl, same.0, same.1))
      ]

  -- Once a replay that holds the read lock has an object to send to a channel that nobody reads any
  -- more, the lock is never given back: whatever happens then, the objects and the listeners, both those
  -- of components and those of configurations, stay as they are.
  pub Reach-IsDeadlocked :
      {v w : ObjectWatcher C D} → IsDeadlocked v → Reach v w → IsDeadlocked w × IsUntouched v w
  Reach-IsDeadlocked h here = (h, (refl, refl, refl, refl))
  Reach-IsDeadlocked h (next {v} {w} e before s) =
      let (d, (a, b, x, y)) = Reach-IsDeadlocked h before in
      let (d', (a', b', x', y')) = step-IsDeadlocked e v w d s in
      (d', (a' ∙ a, b' ∙ b, x' ∙ x, y' ∙ y))

-- the run: an object is stored, a listener comes, its replay takes the lock, and its stream is closed
module _ {C : Type 0} (uid : String) (o : C) where
  abbrev stored : Feed C
  stored = record empty_feed { objects = (uid, o) ∷ []; changes = o ∷ [] }

  abbrev listened : ℕ → Feed C
  listened chan = record stored { chans = chan ∷ []; starting = chan ∷ []; listening = chan ∷ [] }

  abbrev replaying_to : ℕ → Feed C
  replaying_to chan = record (listened chan) { starting = []; replaying = (chan, o ∷ []) ∷ [] }

  abbrev hung_up : ℕ → Feed C
  hung_up chan = record (replaying_to chan) { listening = []; leaving = chan ∷ [] }

abbrev with_components : {C D : Type 0} → Feed C → ObjectWatcher C D
with_components f = record { components = f; configurations = empty_feed }

module _ {C D : Type 0} (uid : String) (o : C) (chan : ℕ) where
  replaying-Reach :
      Reach {C = C} {D = D} (with_components empty_feed) (with_components (replaying_to uid o chan))
  unfolding step insert values take_at
  replaying-Reach =
      next (on_components (begin 0))
        (next {w = with_components (listened uid o chan)} (on_components (listen chan))
          (next {w = with_components (stored uid o)} (on_components (store uid o)) here refl) refl)
        refl

  hung_up-step :
      step {C = C} {D = D} (on_components (stop chan)) (with_components (replaying_to uid o chan))
      ≡ some (with_components (hung_up uid o chan))
  unfolding step has without
  hung_up-step = ground arith

  -- A watcher without objects and listeners can come to that: for every object and channel there is a
  -- run after which the object is stored, the replay to the channel still has the object to send, and
  -- the stream of the channel is closed and waits to be removed.
  pub Reach-deadlock :
      (ow : ObjectWatcher C D) × Reach {C = C} {D = D} (with_components empty_feed) ow
      × (lookup uid ow.components.objects ≡ some o)
      × (ow.components.replaying ≡ (chan, o ∷ []) ∷ [])
      × (has chan ow.components.listening ≡ false)
      × (ow.components.leaving ≡ chan ∷ [])
      × IsDeadlocked ow
  unfolding has lookup
  Reach-deadlock = (
    with_components (hung_up uid o chan),
    next (on_components (stop chan)) replaying-Reach hung_up-step,
    ground (arith, eq_refl uid),
    refl,
    refl,
    refl,
    inl refl,
  )
