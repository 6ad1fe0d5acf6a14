-- ===== src/Grpc/Acks.antt =====
-- buildSubscribeHandler and startAckReceiverForStream of pkg/api/runtime/grpc/grpc_api.go: the handler
-- calls of one subscription, numbered by the channels that they make, and the goroutine that receives
-- acknowledgements. A send on a channel that nobody reads waits.
pub mod Stuck
use rusi.Prelude.{
  ℕ, zero, suc, ◌+◌, ◌-◌, ◌*◌, ◌/◌, ◌%◌, ◌^◌, ◌≤◌, ◌<◌, String, ◌≡◌, refl, sym, ap, ◌∙◌, subst, ◌≢◌,
  ◌↔◌, ◌⊎◌, inl, inr, Bool, true, false, not, ◌&&◌, ◌||◌, Option, none, some, List, [], ◌∷◌, ◌++◌,
  map, append_assoc, append-nil, arith, ◌==◌, eq_iff, eq_refl, ltb, leb, beq, if◌then◌else◌,
  Bool-cases, Option-cases, length, is_empty, any, length-append, any-append_right, All, All-append,
  Error, Result, ok, err, ◌>>=◌, ◌>>◌, fail_if, Result-cases, >>=-eq-ok,
}
use rusi.Prelude.Int.{ℤ, pos, negsuc, pos_part, neg_part, neg, ltb_ℤ, IsSigned, to_uint64, to_int64}
use rusi.Prelude.Dict.{
  Dict, lookup, insert, delete, lookup-insert, lookup-delete, lookup-empty, dict_laws, get,
}
use rusi.Prelude.Text.{◌⊕◌, single, to_lower, to_lower-append, split, trim_space, replace_char}
use rusi.Prelude.Number.{parse_uint64, parse_int32, parse_int32-IsSigned, parse_uint64-lt, itoa}

pub data Receiver : Type 0 where
  idle : Receiver
  -- it holds the read lock and sends on this channel
  sending : ℕ → Option Error → Receiver

-- a call that has left its `select` or could not send, and waits for the lock to clean up
pub record Leaving : Type 0 where
  pub id : String
  pub chan : ℕ
  pub outcome : Option Error

pub record Acks : Type 0 where
  pub sub_ack_map : Dict ℕ
  -- the calls in `select`: the id of the message and the channel
  pub waiting : List (String × ℕ)
  pub leaving : List Leaving
  -- what the calls have returned
  pub returned : List (ℕ × Option Error)
  pub receiver : Receiver
  pub next_chan : ℕ

abbrev pub start : Acks
start = record {
  sub_ack_map = [];
  waiting = [];
  leaving = [];
  returned = [];
  receiver = idle;
  next_chan = 0;
}

abbrev pub is_idle : Receiver → Bool
is_idle idle = true
is_idle (sending _ _) = false

unfoldable pub is_waiting : ℕ → List (String × ℕ) → Bool
is_waiting chan [] = false
is_waiting chan ((_, c) ∷ rest) = beq c chan || is_waiting chan rest

-- the first call with this channel, and the others
pub take_waiting : ℕ → List (String × ℕ) → Option (String × List (String × ℕ))
take_waiting chan [] = none
take_waiting chan ((id, c) ∷ rest) =
    let others = take_waiting chan rest in
    if beq c chan
    then some (id, rest)
    else elim others [ none ↦ none | some (found, left) ↦ some (found, (id, c) ∷ left) ]

pub take_leaving : ℕ → List Leaving → Option (Leaving × List Leaving)
take_leaving i [] = none
take_leaving zero (x ∷ xs) = some (x, xs)
take_leaving (suc i) (x ∷ xs) = elim (take_leaving i xs) [
  | none ↦ none
  | some (y, left) ↦ some (y, x ∷ left)
]

-- a call leaves its `select` with an outcome
pub leave : ℕ → Option Error → Acks → Option Acks
unfolding take_waiting
leave chan outcome a = elim (take_waiting chan a.waiting) [
  | none ↦ none
  | some (id, rest) ↦
      let left : Leaving = record { id = id; chan = chan; outcome = outcome } in
      some (record a { waiting = rest; leaving = a.leaving ++ left ∷ [] })
]

-- The handler is called with a message: without an id it returns at once. Then it takes the lock, puts
-- its channel under the id, and sends the message to the stream; `failure` is the error of marshalling
-- or sending.
pub handle : String → Option Error → Acks → Option Acks
handle id failure a =
    let chan = a.next_chan in
    if id == ""
    then some (record a {
      returned = a.returned ++ (chan, some "message id is missing for topic ") ∷ [];
      next_chan = chan + 1;
    })
    else if is_idle a.receiver
    then elim failure [
      | none ↦ some (record a {
        sub_ack_map = insert id chan a.sub_ack_map;
        waiting = a.waiting ++ (id, chan) ∷ [];
        next_chan = chan + 1;
      })
      | some e ↦
          let left : Leaving = record { id = id; chan = chan; outcome = some e } in
          some (record a {
            sub_ack_map = insert id chan a.sub_ack_map;
            leaving = a.leaving ++ left ∷ [];
            next_chan = chan + 1;
          })
    ]
    else none

-- the deferred cleanup, under the lock, and the return
pub clean_up : ℕ → Acks → Option Acks
unfolding take_leaving
clean_up i a = elim (take_leaving i a.leaving) [
  | none ↦ none
  | some (left, rest) ↦
      if is_idle a.receiver
      then some (record a {
        leaving = rest;
        sub_ack_map = delete left.id a.sub_ack_map;
        returned = a.returned ++ (left.chan, left.outcome) ∷ [];
      })
      else none
]

-- an acknowledgement is received from the stream, and its channel is looked up under the read lock
pub receive_ack : String → Option Error → Acks → Option Acks
receive_ack mid outcome a =
    if is_idle a.receiver
    then elim (lookup mid a.sub_ack_map) [
      | none ↦ some a
      | some chan ↦ some (record a { receiver = sending chan outcome })
    ]
    else none

-- `ack.errCh <- err` meets `err = <-ackChan`
pub hand_over : Acks → Option Acks
unfolding leave
hand_over a = elim a.receiver [
  | idle ↦ none
  | sending chan outcome ↦ elim (leave chan outcome a) [
    | none ↦ none
    | some left ↦ some (record left { receiver = idle })
  ]
]

pub data Event : Type 0 where
  message : String → Option Error → Event
  ack : String → Option Error → Event
  deliver : Event
  -- one of the contexts of a call is done
  cancel : ℕ → Error → Event
  clean : ℕ → Event

-- One step; `none` where it cannot be taken.
unfoldable pub step : Event → Acks → Option Acks
unfolding handle clean_up receive_ack hand_over
step (message id failure) a = handle id failure a
step (ack mid outcome) a = receive_ack mid outcome a
step deliver a = hand_over a
step (cancel chan reason) a = leave chan (some reason) a
step (clean i) a = clean_up i a

pub data Reach (a : Acks) : Acks → Type 0 where
  here : Reach a a
  next : {b c : Acks} (e : Event) → Reach a b → step e b ≡ some c → Reach a c
