-- ===== src/JetStream/Consumer.antt =====
-- The consumer that Subscribe of pkg/messaging/jetstream/jetstream.go asks for. `next_nuid` is the
-- unique id of github.com/nats-io/nuid.
pub mod Laws
use rusi.Prelude.{
  ℕ, zero, suc, ◌+◌, ◌-◌, ◌*◌, ◌/◌, ◌%◌, ◌^◌, ◌≤◌, ◌<◌, String, ◌≡◌, refl, sym, ap, ◌∙◌, subst, ◌≢◌,
  ◌↔◌, ◌⊎◌, inl, inr, Bool, true, false, not, ◌&&◌, ◌||◌, Option, none, some, List, [], ◌∷◌, ◌++◌,
  map, append_assoc, append-nil, arith, ◌==◌, eq_iff, eq_refl, ltb, leb, beq, if◌then◌else◌,
  Bool-cases, Option-cases, length, is_empty, any, length-append, any-append_right, All, All-append,
  Error, Result, ok, err, ◌>>=◌, ◌>>◌, fail_if, Result-cases, >>=-eq-ok,
}
use rusi.Prelude.Int.{ℤ, pos, negsuc, pos_part, neg_part, neg, ltb_ℤ, IsSigned, to_uint64, to_int64}
use rusi.Prelude.Dict.{
  Dict, lookup, insert, delete, lookup-insert, lookup-delete, lookup-empty, dict_laws, get,
}
use rusi.Prelude.Text.{◌⊕◌, single, to_lower, to_lower-append, split, trim_space, replace_char}
use rusi.Prelude.Number.{parse_uint64, parse_int32, parse_int32-IsSigned, parse_uint64-lt, itoa}
use rusi.JetStream.{Options}

-- the fields of jetstream.ConsumerConfig that the source sets; the others keep their zero value
pub record ConsumerConfig : Type 0 where
  pub ack_explicit : Bool
  pub inactive_threshold : ℤ
  pub durable : String
  pub name : String
  pub ack_wait : ℤ
  pub filter_subject : String

abbrev pub hour : ℤ
hour = pos 3600000000000

-- strings.ReplaceAll(name+"__"+topic, ".", "_")
unfoldable pub consumer_name : String → String → String
unfolding replace_char
consumer_name name topic = replace_char b'.' "_" (name ⊕ "__" ⊕ topic)

unfoldable pub consumer_config : String → Options → String → ConsumerConfig
consumer_config next_nuid m topic =
    let is_durable = not (m.durable_subscription_name == "") in
    record {
      ack_explicit = true;
      inactive_threshold = hour;
      durable =
          if m.queue_group && is_durable
          then consumer_name m.durable_subscription_name topic
          else "";
      name =
          if m.queue_group
          then (if is_durable then "" else consumer_name m.consumer_id topic)
          else consumer_name m.consumer_id topic ⊕ "__" ⊕ next_nuid;
      ack_wait = if ltb_ℤ (pos 1) m.ack_wait_time then m.ack_wait_time else pos 0;
      filter_subject = topic;
    }

-- the size of the semaphore
unfoldable pub max_in_flight_of : Options → ℤ
max_in_flight_of m = if ltb_ℤ m.max_in_flight (pos 1) then pos 1 else m.max_in_flight
