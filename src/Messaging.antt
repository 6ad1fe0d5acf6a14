-- ===== src/Messaging.antt =====
-- The types of pkg/messaging/types.go, and the middleware pipeline of pipeline.go.
pub mod Pipeline
pub mod InMemory
use rusi.Prelude.{
  ℕ, zero, suc, ◌+◌, ◌-◌, ◌*◌, ◌/◌, ◌%◌, ◌^◌, ◌≤◌, ◌<◌, String, ◌≡◌, refl, sym, ap, ◌∙◌, subst, ◌≢◌,
  ◌↔◌, ◌⊎◌, inl, inr, Bool, true, false, not, ◌&&◌, ◌||◌, Option, none, some, List, [], ◌∷◌, ◌++◌,
  map, append_assoc, append-nil, arith, ◌==◌, eq_iff, eq_refl, ltb, leb, beq, if◌then◌else◌,
  Bool-cases, Option-cases, length, is_empty, any, length-append, any-append_right, All, All-append,
  Error, Result, ok, err, ◌>>=◌, ◌>>◌, fail_if, Result-cases, >>=-eq-ok,
}
use rusi.Prelude.Int.{ℤ, pos, negsuc, pos_part, neg_part, neg, ltb_ℤ, IsSigned, to_uint64, to_int64}
use rusi.Prelude.Dict.{
  Dict, lookup, insert, delete, lookup-insert, lookup-delete, lookup-empty, dict_laws, get,
}
use rusi.Prelude.Text.{◌⊕◌, single, to_lower, to_lower-append, split, trim_space, replace_char}
use rusi.Prelude.Number.{parse_uint64, parse_int32, parse_int32-IsSigned, parse_uint64-lt, itoa}

pub record MessageEnvelope : Type 0 where
  pub id : String
  pub type : String
  pub spec_version : String
  pub data_content_type : String
  -- nanoseconds
  pub time : ℤ
  pub subject : String
  -- nil or a map
  pub headers : Option (Dict String)
  pub payload : String

-- Durations are numbers of nanoseconds.
pub record SubscriptionOptions : Type 0 where
  pub durable : Option Bool
  pub q_group : Option Bool
  pub max_concurrent_messages : Option ℤ
  pub deliver_new_messages_only : Option Bool
  pub ack_wait_time : Option ℤ

pub record PublishRequest : Type 0 where
  pub pubsub_name : String
  pub topic : String
  pub payload : String
  pub type : String
  pub data_content_type : String
  pub metadata : Dict String

pub record SubscribeRequest (H : Type 0) : Type 0 where
  pub pubsub_name : String
  pub topic : String
  pub handler : H
  pub options : Option SubscriptionOptions

-- the status of pkg/healthcheck/types.go
pub data HealthStatus : Type 0 where
  unhealthy degraded healthy : HealthStatus

pub record HealthResult : Type 0 where
  pub status : HealthStatus
  pub description : String

abbrev pub healthy_result : HealthResult
healthy_result = record { status = healthy; description = "" }
