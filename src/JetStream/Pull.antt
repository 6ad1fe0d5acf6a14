-- ===== src/JetStream/Pull.antt =====
-- The goroutines of Subscribe in pkg/messaging/jetstream/jetstream.go that pull messages: the loop
-- that takes a slot of the semaphore for each worker, and the workers. A worker waits in
-- `iterator.Next()`, then runs the handler, or meets an error and closes the channel `done`.
pub mod Invariant
pub mod Race
use rusi.Prelude.{
  ℕ, zero, suc, ◌+◌, ◌-◌, ◌*◌, ◌/◌, ◌%◌, ◌^◌, ◌≤◌, ◌<◌, String, ◌≡◌, refl, sym, ap, ◌∙◌, subst, ◌≢◌,
  ◌↔◌, ◌⊎◌, inl, inr, Bool, true, false, not, ◌&&◌, ◌||◌, Option, none, some, List, [], ◌∷◌, ◌++◌,
  map, append_assoc, append-nil, arith, ◌==◌, eq_iff, eq_refl, ltb, leb, beq, if◌then◌else◌,
  Bool-cases, Option-cases, length, is_empty, any, length-append, any-append_right, All, All-append,
  Error, Result, ok, err, ◌>>=◌, ◌>>◌, fail_if, Result-cases, >>=-eq-ok,
}
use rusi.Prelude.Int.{ℤ, pos, negsuc, pos_part, neg_part, neg, ltb_ℤ, IsSigned, to_uint64, to_int64}
use rusi.Prelude.Dict.{
  Dict, lookup, insert, delete, lookup-insert, lookup-delete, lookup-empty, dict_laws, get,
}
use rusi.Prelude.Text.{◌⊕◌, single, to_lower, to_lower-append, split, trim_space, replace_char}
use rusi.Prelude.Number.{parse_uint64, parse_int32, parse_int32-IsSigned, parse_uint64-lt, itoa}

pub record Pull : Type 0 where
  -- the size of the semaphore, and its slots that are taken
  pub cap : ℕ
  pub sem : ℕ
  -- workers that wait for a message, that run the handler, that have met an error and have not looked
  -- at `done` yet, and that have found `done` open and are about to close it
  pub waiting : ℕ
  pub handling : ℕ
  pub failing : ℕ
  pub closing : ℕ
  -- the loop has not returned, `done` is closed, the connection is open, a channel was closed twice
  pub looping : Bool
  pub done : Bool
  pub connected : Bool
  pub panicked : Bool

pub data Event : Type 0 where
  acquire leave message stopped broken handled look close_done : Event

abbrev pub start : ℕ → Pull
start cap = record {
  cap = cap;
  sem = 0;
  waiting = 0;
  handling = 0;
  failing = 0;
  closing = 0;
  looping = true;
  done = false;
  connected = true;
  panicked = false;
}

abbrev pub when : Bool → Pull → Option Pull
when b p = if b then some p else none

-- One step of one goroutine; `none` where it cannot be taken. After a panic nothing runs.
pub act : Event → Pull → Option Pull
-- `sem <- struct{}{}`; `select` may choose it also when `done` is closed
act acquire p =
    when (p.looping && ltb p.sem p.cap) (record p { sem = p.sem + 1; waiting = p.waiting + 1 })
-- `<-done` of the loop
act leave p = when (p.looping && p.done) (record p { looping = false })
-- `iterator.Next()` returns a message
act message p =
    when (ltb 0 p.waiting) (record p { waiting = p.waiting - 1; handling = p.handling + 1 })
-- it returns ErrMsgIteratorClosed
act stopped p =
    when (ltb 0 p.waiting) (record p { waiting = p.waiting - 1; failing = p.failing + 1 })
-- it returns another error: the connection is closed
act broken p =
    when (ltb 0 p.waiting)
      (record p { waiting = p.waiting - 1; failing = p.failing + 1; connected = false })
-- the handler returns, and the slot is given back
act handled p = when (ltb 0 p.handling) (record p { handling = p.handling - 1; sem = p.sem - 1 })
-- `select { case <-done: default: … }`
act look p = when (ltb 0 p.failing) (
    if p.done
    then record p { failing = p.failing - 1; sem = p.sem - 1 }
    else record p { failing = p.failing - 1; closing = p.closing + 1 })
-- `close(done)`, and the slot is given back
act close_done p = when (ltb 0 p.closing) (
    if p.done
    then record p { panicked = true }
    else record p { closing = p.closing - 1; sem = p.sem - 1; done = true })

unfoldable pub step : Event → Pull → Option Pull
unfolding act
step e p = if p.panicked then none else act e p

-- the states that the goroutines can reach
pub data Reach (p : Pull) : Pull → Type 0 where
  here : Reach p p
  next : {q r : Pull} (e : Event) → Reach p q → step e q ≡ some r → Reach p r
