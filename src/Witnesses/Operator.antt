-- ===== src/Witnesses/Operator.antt =====
-- A watcher whose replay has nobody to send to.
use rusi.Prelude.{ℕ, ◌≡◌, some, false, refl, inl, beq, [], ◌∷◌}
use rusi.Prelude.Dict.{insert, lookup}
use rusi.Operator.Watcher.{
  Feed, empty_feed, has, ObjectWatcher, on_components, announce, store, listen, step, Reach, here,
  next,
}
use rusi.Operator.Watcher.Covered.{IsServed, Reach-AreServed}
use rusi.Operator.Watcher.Stuck.{IsDeadlocked, IsUntouched, Reach-IsDeadlocked, Reach-deadlock}

abbrev stuck_feed : Feed ℕ
stuck_feed = record empty_feed {
  objects = ("a", 7) ∷ [];
  chans = 1 ∷ [];
  changes = 7 ∷ [];
  replaying = (1, 7 ∷ []) ∷ [];
  leaving = 1 ∷ [];
}

abbrev stuck_watcher : ObjectWatcher ℕ ℕ
stuck_watcher = record { components = stuck_feed; configurations = empty_feed }

abbrev announced : ObjectWatcher ℕ ℕ
announced = record {
  components = record stuck_feed { changes = []; pending = (1, 7) ∷ [] };
  configurations = empty_feed;
}

Reach-IsDeadlocked_example : IsDeadlocked announced × IsUntouched stuck_watcher announced
unfolding step has
Reach-IsDeadlocked_example =
    Reach-IsDeadlocked {v = stuck_watcher} {w = announced} (inl refl)
      (next (on_components (announce 0)) here refl)

Reach-deadlock_example :
    (ow : ObjectWatcher ℕ ℕ) × Reach
      (record { components = empty_feed; configurations = empty_feed })
      ow
    × (lookup "a" ow.components.objects ≡ some 7)
    × (ow.components.replaying ≡ (1, 7 ∷ []) ∷ [])
    × (has 1 ow.components.listening ≡ false)
    × (ow.components.leaving ≡ 1 ∷ [])
    × IsDeadlocked ow
Reach-deadlock_example = Reach-deadlock "a" 7 1

abbrev nothing : ObjectWatcher ℕ ℕ
nothing = record { components = empty_feed; configurations = empty_feed }

abbrev heard : ObjectWatcher ℕ ℕ
heard = record nothing {
  components = record empty_feed { chans = 1 ∷ []; starting = 1 ∷ []; listening = 1 ∷ [] };
}

abbrev stored : ObjectWatcher ℕ ℕ
stored = record nothing {
  components = record empty_feed {
    chans = 1 ∷ [];
    starting = 1 ∷ [];
    listening = 1 ∷ [];
    objects = ("a", 7) ∷ [];
    changes = 7 ∷ [];
  };
}

stored-Reach : Reach nothing stored
unfolding step has insert
stored-Reach =
    next {v = heard} (on_components (store "a" 7)) (next (on_components (listen 1)) here refl) refl

Reach-AreServed_example :
    IsServed (λ n. beq n 7) 1 "a" stored.components
    × IsServed (λ n. beq n 7) 1 "a" stored.configurations
Reach-AreServed_example = Reach-AreServed (λ n. beq n 7) (λ n. beq n 7) 1 "a" stored stored-Reach
