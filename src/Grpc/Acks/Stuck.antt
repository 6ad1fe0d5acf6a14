-- ===== src/Grpc/Acks/Stuck.antt =====
-- An acknowledgement whose handler call has gone.
use rusi.Prelude.{
  ℕ, ◌≤◌, String, ◌≡◌, refl, ◌∙◌, ◌≢◌, inl, inr, false, Option, none, some, List, [], ◌∷◌, arith,
  ◌==◌, eq_iff, eq_refl, Option-cases, length, Error,
}
use rusi.Prelude.Dict.{lookup, insert}
use rusi.Grpc.Acks.{
  idle, sending, Acks, start, is_waiting, take_waiting, Event, message, ack, deliver, cancel, clean,
  step, Reach, here, next,
}

-- the receiver sends on a channel that no call reads
pub record IsStuck (chan : ℕ) (outcome : Option Error) (a : Acks) : Type 0 where
  pub blocked : a.receiver ≡ sending chan outcome
  pub unread : is_waiting chan a.waiting ≡ false

take_waiting-none :
    (chan : ℕ) (xs : List (String × ℕ)) → is_waiting chan xs ≡ false → take_waiting chan xs ≡ none
unfolding take_waiting is_waiting
take_waiting-none chan [] h = refl
take_waiting-none chan ((id, c) ∷ rest) h =
    let ih = take_waiting-none chan rest in ground (arith, ih, h)

take_waiting-is_waiting :
    (chan c : ℕ) (xs rest : List (String × ℕ)) (id : String)
    → is_waiting chan xs ≡ false
    → take_waiting c xs ≡ some (id, rest)
    → is_waiting chan rest ≡ false
unfolding take_waiting is_waiting
take_waiting-is_waiting chan c [] rest id h e = ground arith
take_waiting-is_waiting chan c ((j, d) ∷ xs) rest id h e = elim (Option-cases (take_waiting c xs)) [
  | inl gone ↦ ground (arith, gone, h, e)
  | inr ((k, left), taken) ↦
      let ih = take_waiting-is_waiting chan c xs left k in ground (arith, taken, h, e, ih)
]

take_waiting-length :
    (c : ℕ) (xs rest : List (String × ℕ)) (id : String)
    → take_waiting c xs ≡ some (id, rest)
    → length rest ≤ length xs
unfolding take_waiting
take_waiting-length c [] rest id e = ground arith
take_waiting-length c ((j, d) ∷ xs) rest id e = elim (Option-cases (take_waiting c xs)) [
  | inl gone ↦ ground (arith, gone, e)
  | inr ((k, left), taken) ↦
      let ih = take_waiting-length c xs left k in ground (arith, taken, e, ih)
]

-- the map of the calls stays as it is, and no other call comes to wait for its acknowledgement
pub record IsFrozen (a b : Acks) : Type 0 where
  pub same_map : b.sub_ack_map ≡ a.sub_ack_map
  pub no_more : length b.waiting ≤ length a.waiting

step-IsStuck :
    (chan : ℕ) (outcome : Option Error) (e : Event) (a b : Acks)
    → IsStuck chan outcome a
    → step e a ≡ some b
    → IsStuck chan outcome b × IsFrozen a b
unfolding step
step-IsStuck chan outcome (message id failure) a b h s = ground (arith, h.blocked, h.unread, s)
step-IsStuck chan outcome (ack mid o) a b h s = ground (arith, h.blocked, s)
step-IsStuck chan outcome deliver a b h s =
    let gone = take_waiting-none chan a.waiting h.unread in ground (arith, h.blocked, gone, s)
step-IsStuck chan outcome (cancel c reason) a b h s =
    elim (Option-cases (take_waiting c a.waiting)) [
      | inl gone ↦ ground (arith, gone, s)
      | inr ((id, rest), taken) ↦
          let shorter = take_waiting-length c a.waiting rest id taken in
          let unread = take_waiting-is_waiting chan c a.waiting rest id h.unread taken in
          ground (arith, taken, s, h.blocked, shorter, unread)
    ]
step-IsStuck chan outcome (clean i) a b h s = ground (arith, h.blocked, s)

-- Once the receiver of acknowledgements sends on a channel whose handler call has gone, nothing moves
-- it: whatever happens then, no acknowledgement is handed over, no call cleans up, and no other call
-- comes to wait for its acknowledgement.
pub Reach-IsStuck :
    (chan : ℕ) (outcome : Option Error) {a b : Acks}
    → IsStuck chan outcome a
    → Reach a b
    → IsStuck chan outcome b × IsFrozen a b
Reach-IsStuck chan outcome h here = (h, record { same_map = refl; no_more = omega arith })
Reach-IsStuck chan outcome {a} h (next {b} {c} e before s) =
    let (stuck, frozen) = Reach-IsStuck chan outcome h before in
    let (stuck', frozen') = step-IsStuck chan outcome e b c stuck s in
    (
      stuck',
      record {
        same_map = frozen'.same_map ∙ frozen.same_map;
        no_more = omega (arith, frozen.no_more, frozen'.no_more);
      },
    )

abbrev sent : String → Acks
sent id = record {
  sub_ack_map = (id, 0) ∷ [];
  waiting = (id, 0) ∷ [];
  leaving = [];
  returned = [];
  receiver = idle;
  next_chan = 1;
}

abbrev matched : String → Option Error → Acks
matched id outcome = record (sent id) { receiver = sending 0 outcome }

abbrev lost : String → Option Error → Error → Acks
lost id outcome reason = record (matched id outcome) {
  waiting = [];
  leaving = record { id = id; chan = 0; outcome = some reason } ∷ [];
}

sent-step : (id : String) → id ≢ "" → step (message id none) start ≡ some (sent id)
unfolding step insert
sent-step id given =
    let named : (id == "") ≡ false = ground (arith, given, eq_iff id "") in rw named refl

matched-step :
    (id : String) (outcome : Option Error)
    → step (ack id outcome) (sent id) ≡ some (matched id outcome)
unfolding step lookup
matched-step id outcome = ground (arith, eq_refl id)

-- For every message with an id, every acknowledgement and every reason there is a run that ends so: the
-- message is sent, its acknowledgement is received and looked up, and the context of the call is done
-- for that reason before the two meet. The call then waits to clean up, its channel still stands under
-- the id, and the receiver waits for ever to send the acknowledgement on it.
pub Reach-lost_ack :
    (id : String) (outcome : Option Error) (reason : Error)
    → id ≢ ""
    → (a : Acks) × Reach start a
      × (lookup id a.sub_ack_map ≡ some 0)
      × (a.leaving ≡ record { id = id; chan = 0; outcome = some reason } ∷ [])
      × (a.returned ≡ [])
      × IsStuck 0 outcome a
unfolding step is_waiting take_waiting lookup
Reach-lost_ack id outcome reason given = (
  lost id outcome reason,
  next (cancel 0 reason)
      (next {c = matched id outcome} (ack id outcome)
        (next {c = sent id} (message id none) here (sent-step id given)) (matched-step id outcome))
      refl,
  ground (arith, eq_refl id),
  refl,
  refl,
  record { blocked = refl; unread = refl },
)
