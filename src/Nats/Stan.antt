-- ===== src/Nats/Stan.antt =====
-- stanSubscriptionOptions of pkg/messaging/nats/nats.go. The options are those that the stan library
-- builds, by the function that is called; `parse_time` is time.Parse.
pub mod Laws
use rusi.Prelude.{
  ℕ, zero, suc, ◌+◌, ◌-◌, ◌*◌, ◌/◌, ◌%◌, ◌^◌, ◌≤◌, ◌<◌, String, ◌≡◌, refl, sym, ap, ◌∙◌, subst, ◌≢◌,
  ◌↔◌, ◌⊎◌, inl, inr, Bool, true, false, not, ◌&&◌, ◌||◌, Option, none, some, List, [], ◌∷◌, ◌++◌,
  map, append_assoc, append-nil, arith, ◌==◌, eq_iff, eq_refl, ltb, leb, beq, if◌then◌else◌,
  Bool-cases, Option-cases, length, is_empty, any, length-append, any-append_right, All, All-append,
  Error, Result, ok, err, ◌>>=◌, ◌>>◌, fail_if, Result-cases, >>=-eq-ok,
}
use rusi.Prelude.Int.{ℤ, pos, negsuc, pos_part, neg_part, neg, ltb_ℤ, IsSigned, to_uint64, to_int64}
use rusi.Prelude.Dict.{
  Dict, lookup, insert, delete, lookup-insert, lookup-delete, lookup-empty, dict_laws, get,
}
use rusi.Prelude.Text.{◌⊕◌, single, to_lower, to_lower-append, split, trim_space, replace_char}
use rusi.Prelude.Number.{parse_uint64, parse_int32, parse_int32-IsSigned, parse_uint64-lt, itoa}
use rusi.Nats.{Options}

pub data StanOption (Time : Type 0) : Type 0 where
  durable_name : String → StanOption Time
  start_at_new_only : StanOption Time
  start_at_sequence : ℕ → StanOption Time
  start_with_last_received : StanOption Time
  deliver_all_available : StanOption Time
  start_at_time_delta : ℤ → StanOption Time
  start_at_time : Time → StanOption Time
  set_manual_ack_mode : StanOption Time
  ack_wait : ℤ → StanOption Time
  max_inflight : ℤ → StanOption Time

module _ {Time : Type 0} (parse_time : String → String → Result Time) where
  abbrev pub durable_options : Options → List (StanOption Time)
  durable_options opts =
      if opts.durable_subscription_name == ""
      then []
      else durable_name opts.durable_subscription_name ∷ []

  pub time_options : Options → Result (List (StanOption Time))
  time_options opts =
      if opts.start_at_time == "" || opts.start_at_time_format == ""
      then ok []
      else elim (parse_time opts.start_at_time_format opts.start_at_time) [
        | err e ↦ err e
        | ok t ↦ ok (start_at_time t ∷ [])
      ]

  -- the `switch`: the first case that holds; durations are compared with one nanosecond
  unfoldable pub start_position : Options → Result (List (StanOption Time))
  unfolding time_options
  start_position opts =
      if opts.deliver_new == "true"
      then ok (start_at_new_only ∷ [])
      else if leb 1 opts.start_at_sequence
      then ok (start_at_sequence opts.start_at_sequence ∷ [])
      else if opts.start_with_last_received == "true"
      then ok (start_with_last_received ∷ [])
      else if opts.deliver_all == "true"
      then ok (deliver_all_available ∷ [])
      else if ltb_ℤ (pos 1) opts.start_at_time_delta
      then ok (start_at_time_delta opts.start_at_time_delta ∷ [])
      else time_options opts

  abbrev pub ack_options : Options → List (StanOption Time)
  ack_options opts =
      if ltb_ℤ (pos 1) opts.ack_wait_time then ack_wait opts.ack_wait_time ∷ [] else []

  abbrev pub inflight_options : Options → List (StanOption Time)
  inflight_options opts =
      if leb 1 opts.max_in_flight then max_inflight (to_int64 opts.max_in_flight) ∷ [] else []

  unfoldable pub stan_subscription_options : Options → Result (List (StanOption Time))
  stan_subscription_options opts = do
    start ← start_position opts
    ok (
        durable_options opts
        ++ start
        ++ set_manual_ack_mode ∷ ack_options opts
        ++ inflight_options opts)
