-- ===== src/Nats.antt =====
-- The NATS streaming bus: pkg/messaging/nats/nats.go and options.go.
pub mod Parse
pub mod Merge
pub mod Stan
pub mod Subscribe
pub mod Delivery
use rusi.Prelude.{
  ℕ, zero, suc, ◌+◌, ◌-◌, ◌*◌, ◌/◌, ◌%◌, ◌^◌, ◌≤◌, ◌<◌, String, ◌≡◌, refl, sym, ap, ◌∙◌, subst, ◌≢◌,
  ◌↔◌, ◌⊎◌, inl, inr, Bool, true, false, not, ◌&&◌, ◌||◌, Option, none, some, List, [], ◌∷◌, ◌++◌,
  map, append_assoc, append-nil, arith, ◌==◌, eq_iff, eq_refl, ltb, leb, beq, if◌then◌else◌,
  Bool-cases, Option-cases, length, is_empty, any, length-append, any-append_right, All, All-append,
  Error, Result, ok, err, ◌>>=◌, ◌>>◌, fail_if, Result-cases, >>=-eq-ok,
}
use rusi.Prelude.Int.{ℤ, pos, negsuc, pos_part, neg_part, neg, ltb_ℤ, IsSigned, to_uint64, to_int64}
use rusi.Prelude.Dict.{
  Dict, lookup, insert, delete, lookup-insert, lookup-delete, lookup-empty, dict_laws, get,
}
use rusi.Prelude.Text.{◌⊕◌, single, to_lower, to_lower-append, split, trim_space, replace_char}
use rusi.Prelude.Number.{parse_uint64, parse_int32, parse_int32-IsSigned, parse_uint64-lt, itoa}

pub record Options : Type 0 where
  pub nats_url : String
  pub nats_streaming_cluster_id : String
  pub subscription_type : String
  pub nats_queue_group_name : String
  pub durable_subscription_name : String
  pub start_at_sequence : ℕ
  pub start_with_last_received : String
  pub deliver_new : String
  pub deliver_all : String
  pub start_at_time_delta : ℤ
  pub connect_wait : ℤ
  pub start_at_time : String
  pub start_at_time_format : String
  pub ack_wait_time : ℤ
  pub max_in_flight : ℕ

abbrev pub subscription_type_queue_group : String
subscription_type_queue_group = "queue"

abbrev pub subscription_type_topic : String
subscription_type_topic = "topic"
