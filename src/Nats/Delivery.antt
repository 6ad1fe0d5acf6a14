-- ===== src/Nats/Delivery.antt =====
-- The message handlers of Subscribe in pkg/messaging/nats/nats.go and in
-- pkg/messaging/jetstream/jetstream.go: from a message to its acknowledgement.
pub mod Laws
use rusi.Prelude.{
  ℕ, zero, suc, ◌+◌, ◌-◌, ◌*◌, ◌/◌, ◌%◌, ◌^◌, ◌≤◌, ◌<◌, String, ◌≡◌, refl, sym, ap, ◌∙◌, subst, ◌≢◌,
  ◌↔◌, ◌⊎◌, inl, inr, Bool, true, false, not, ◌&&◌, ◌||◌, Option, none, some, List, [], ◌∷◌, ◌++◌,
  map, append_assoc, append-nil, arith, ◌==◌, eq_iff, eq_refl, ltb, leb, beq, if◌then◌else◌,
  Bool-cases, Option-cases, length, is_empty, any, length-append, any-append_right, All, All-append,
  Error, Result, ok, err, ◌>>=◌, ◌>>◌, fail_if, Result-cases, >>=-eq-ok,
}
use rusi.Prelude.Int.{ℤ, pos, negsuc, pos_part, neg_part, neg, ltb_ℤ, IsSigned, to_uint64, to_int64}
use rusi.Prelude.Dict.{
  Dict, lookup, insert, delete, lookup-insert, lookup-delete, lookup-empty, dict_laws, get,
}
use rusi.Prelude.Text.{◌⊕◌, single, to_lower, to_lower-append, split, trim_space, replace_char}
use rusi.Prelude.Number.{parse_uint64, parse_int32, parse_int32-IsSigned, parse_uint64-lt, itoa}
use rusi.Messaging.{MessageEnvelope}

-- A message of the server; `sequence` is what the handler falls back on for an id.
pub record ServerMessage : Type 0 where
  pub bytes : String
  pub sequence : ℕ

pub record Delivered : Type 0 where
  pub envelope : MessageEnvelope
  pub acked : Bool

-- `if msg.Id == "" { msg.Id = strconv.FormatUint(sequence, 10) }`
pub with_id : ℕ → MessageEnvelope → MessageEnvelope
with_id sequence msg = if msg.id == "" then record msg { id = itoa (pos sequence) } else msg

-- `unmarshal` returns what it has filled in beside its error, and the error is logged only.
pub deliver :
    (String → MessageEnvelope × Option Error)
    → (MessageEnvelope → Option Error)
    → ServerMessage
    → Delivered
unfolding with_id
deliver unmarshal handler m =
    let (msg, _) = unmarshal m.bytes in
    let sent = with_id m.sequence msg in
    elim (handler sent) [
      | none ↦ record { envelope = sent; acked = true }
      | some e ↦ record { envelope = sent; acked = false }
    ]
