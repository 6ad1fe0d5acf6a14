-- ===== src/Operator/Watcher.antt =====
-- objectWatcher of pkg/operator/operator.go, whose code for components and for configurations is the
-- same but for the names: a `Feed` is one of the two, and the watcher has both under one lock. `O` is
-- the type of objects, and a channel is a number. The goroutines that the code starts are lists of what
-- they have left to do.
pub mod Stuck
pub mod Covered
use rusi.Prelude.{
  ℕ, zero, suc, ◌+◌, ◌-◌, ◌*◌, ◌/◌, ◌%◌, ◌^◌, ◌≤◌, ◌<◌, String, ◌≡◌, refl, sym, ap, ◌∙◌, subst, ◌≢◌,
  ◌↔◌, ◌⊎◌, inl, inr, Bool, true, false, not, ◌&&◌, ◌||◌, Option, none, some, List, [], ◌∷◌, ◌++◌,
  map, append_assoc, append-nil, arith, ◌==◌, eq_iff, eq_refl, ltb, leb, beq, if◌then◌else◌,
  Bool-cases, Option-cases, length, is_empty, any, length-append, any-append_right, All, All-append,
  Error, Result, ok, err, ◌>>=◌, ◌>>◌, fail_if, Result-cases, >>=-eq-ok,
}
use rusi.Prelude.Int.{ℤ, pos, negsuc, pos_part, neg_part, neg, ltb_ℤ, IsSigned, to_uint64, to_int64}
use rusi.Prelude.Dict.{
  Dict, lookup, insert, delete, lookup-insert, lookup-delete, lookup-empty, dict_laws, get,
}
use rusi.Prelude.Text.{◌⊕◌, single, to_lower, to_lower-append, split, trim_space, replace_char}
use rusi.Prelude.Number.{parse_uint64, parse_int32, parse_int32-IsSigned, parse_uint64-lt, itoa}

pub record Feed (O : Type 0) : Type 0 where
  -- the last object of each UID
  pub objects : Dict O
  -- the channels of the listeners
  pub chans : List ℕ
  -- objects that are stored and whose change has not been published yet
  pub changes : List O
  -- replays that have not taken the read lock yet, and those that hold it, with what they have left
  pub starting : List ℕ
  pub replaying : List (ℕ × List O)
  -- goroutines that wait to send, and what has been received
  pub pending : List (ℕ × O)
  pub received : List (ℕ × O)
  -- streams that read their channel, and those that are closed and wait for the lock
  pub listening : List ℕ
  pub leaving : List ℕ

abbrev pub empty_feed : {O : Type 0} → Feed O
empty_feed = record {
  objects = [];
  chans = [];
  changes = [];
  starting = [];
  replaying = [];
  pending = [];
  received = [];
  listening = [];
  leaving = [];
}

unfoldable pub take_at {ℓ} : {A : Type ℓ} → ℕ → List A → Option (A × List A)
take_at i [] = none
take_at zero (x ∷ xs) = some (x, xs)
take_at (suc i) (x ∷ xs) = elim (take_at i xs) [ none ↦ none | some (y, rest) ↦ some (y, x ∷ rest) ]

unfoldable pub has : ℕ → List ℕ → Bool
has c [] = false
has c (d ∷ ds) = beq c d || has c ds

unfoldable pub without : ℕ → List ℕ → List ℕ
without c [] = []
without c (d ∷ ds) = if beq d c then without c ds else d ∷ without c ds

unfoldable pub values : {O : Type 0} → Dict O → List O
values [] = []
values ((_, o) ∷ rest) = o ∷ values rest

unfoldable pub send_all : {O : Type 0} → O → List ℕ → List (ℕ × O)
send_all o [] = []
send_all o (c ∷ cs) = (c, o) ∷ send_all o cs

module _ {O : Type 0} where
  -- updateComponent and updateConfiguration, under the write lock
  pub update_object : String → O → Feed O → Feed O
  update_object uid o f = record f {
    objects = insert uid o f.objects;
    changes = f.changes ++ o ∷ [];
  }

  -- componentChange and configurationChange: one goroutine for each listener
  pub object_change : ℕ → Feed O → Option (Feed O)
  unfolding take_at send_all
  object_change i f = elim (take_at i f.changes) [
    | none ↦ none
    | some (o, rest) ↦ some (record f { changes = rest; pending = f.pending ++ send_all o f.chans })
  ]

  -- one of these goroutines is received from
  pub receive : ℕ → Feed O → Option (Feed O)
  unfolding take_at has
  receive i f = elim (take_at i f.pending) [
    | none ↦ none
    | some ((c, o), rest) ↦
        if has c f.listening
        then some (record f { pending = rest; received = f.received ++ (c, o) ∷ [] })
        else none
  ]

  -- addComponentListener and addConfigurationListener, under the write lock
  pub add_listener : ℕ → Feed O → Feed O
  add_listener c f = record f {
    chans = f.chans ++ c ∷ [];
    starting = f.starting ++ c ∷ [];
    listening = f.listening ++ c ∷ [];
  }

  -- replayComponents and replayConfigs take the read lock
  pub begin_replay : ℕ → Feed O → Option (Feed O)
  unfolding take_at values
  begin_replay i f = elim (take_at i f.starting) [
    | none ↦ none
    | some (c, rest) ↦
        some (record f { starting = rest; replaying = f.replaying ++ (c, values f.objects) ∷ [] })
  ]

  -- their loop: an object is received from them, or all are, and they give the lock back
  pub replay : ℕ → Feed O → Option (Feed O)
  unfolding take_at has
  replay i f = elim (take_at i f.replaying) [
    | none ↦ none
    | some ((c, []), rest) ↦ some (record f { replaying = rest })
    | some ((c, o ∷ items), rest) ↦
        if has c f.listening
        then some
            (record f { replaying = rest ++ (c, items) ∷ []; received = f.received ++ (c, o) ∷ [] })
        else none
  ]

  -- `<-stream.Context().Done()` of the watch of server.go
  pub hang_up : ℕ → Feed O → Option (Feed O)
  unfolding has without
  hang_up c f =
      if has c f.listening
      then some (record f { listening = without c f.listening; leaving = f.leaving ++ c ∷ [] })
      else none

  -- removeComponentListener and removeConfigurationListener, under the write lock
  pub remove_listener : ℕ → Feed O → Option (Feed O)
  unfolding take_at without
  remove_listener i f = elim (take_at i f.leaving) [
    | none ↦ none
    | some (c, rest) ↦ some (record f { leaving = rest; chans = without c f.chans })
  ]

pub data Event (O : Type 0) : Type 0 where
  store : String → O → Event O
  announce deliver : ℕ → Event O
  listen : ℕ → Event O
  begin resume : ℕ → Event O
  stop forget : ℕ → Event O

-- One step on a feed, where `free` says that no replay holds the read lock; `none` where it cannot be
-- taken. A listener's channel is a new one.
pub act : {O : Type 0} → Bool → Event O → Feed O → Option (Feed O)
unfolding update_object object_change receive add_listener begin_replay replay hang_up
    remove_listener
act free (store uid o) f = if free then some (update_object uid o f) else none
act free (announce i) f = object_change i f
act free (deliver i) f = receive i f
act free (listen c) f = if free && not (has c f.chans) then some (add_listener c f) else none
act free (begin i) f = begin_replay i f
act free (resume i) f = replay i f
act free (stop c) f = hang_up c f
act free (forget i) f = if free then remove_listener i f else none

pub record ObjectWatcher (C D : Type 0) : Type 0 where
  pub components : Feed C
  pub configurations : Feed D

pub data WatcherEvent (C D : Type 0) : Type 0 where
  on_components : Event C → WatcherEvent C D
  on_configurations : Event D → WatcherEvent C D

module _ {C D : Type 0} where
  pub is_free : ObjectWatcher C D → Bool
  is_free ow = is_empty ow.components.replaying && is_empty ow.configurations.replaying

  unfoldable pub step : WatcherEvent C D → ObjectWatcher C D → Option (ObjectWatcher C D)
  unfolding act is_free
  step (on_components e) ow = elim (act (is_free ow) e ow.components) [
    | none ↦ none
    | some f ↦ some (record ow { components = f })
  ]
  step (on_configurations e) ow = elim (act (is_free ow) e ow.configurations) [
    | none ↦ none
    | some f ↦ some (record ow { configurations = f })
  ]

  pub data Reach (ow : ObjectWatcher C D) : ObjectWatcher C D → Type 0 where
    here : Reach ow ow
    next :
        {v w : ObjectWatcher C D} (e : WatcherEvent C D)
        → Reach ow v
        → step e v ≡ some w
        → Reach ow w
