-- ===== src/Nats/Merge.antt =====
-- mergeGlobalAndSubscriptionOptions of pkg/messaging/nats/nats.go.
pub mod Laws
use rusi.Prelude.{
  ℕ, zero, suc, ◌+◌, ◌-◌, ◌*◌, ◌/◌, ◌%◌, ◌^◌, ◌≤◌, ◌<◌, String, ◌≡◌, refl, sym, ap, ◌∙◌, subst, ◌≢◌,
  ◌↔◌, ◌⊎◌, inl, inr, Bool, true, false, not, ◌&&◌, ◌||◌, Option, none, some, List, [], ◌∷◌, ◌++◌,
  map, append_assoc, append-nil, arith, ◌==◌, eq_iff, eq_refl, ltb, leb, beq, if◌then◌else◌,
  Bool-cases, Option-cases, length, is_empty, any, length-append, any-append_right, All, All-append,
  Error, Result, ok, err, ◌>>=◌, ◌>>◌, fail_if, Result-cases, >>=-eq-ok,
}
use rusi.Prelude.Int.{ℤ, pos, negsuc, pos_part, neg_part, neg, ltb_ℤ, IsSigned, to_uint64, to_int64}
use rusi.Prelude.Dict.{
  Dict, lookup, insert, delete, lookup-insert, lookup-delete, lookup-empty, dict_laws, get,
}
use rusi.Prelude.Text.{◌⊕◌, single, to_lower, to_lower-append, split, trim_space, replace_char}
use rusi.Prelude.Number.{parse_uint64, parse_int32, parse_int32-IsSigned, parse_uint64-lt, itoa}
use rusi.Messaging.{SubscriptionOptions}
use rusi.Nats.{Options, subscription_type_queue_group, subscription_type_topic}

pub merge_durable : Option Bool → Options → Options
merge_durable none m = m
merge_durable (some true) m =
    if m.durable_subscription_name == ""
    then record m { durable_subscription_name = "durable" }
    else m
merge_durable (some false) m = record m { durable_subscription_name = "" }

pub merge_q_group : Option Bool → Options → Result Options
merge_q_group none m = ok m
merge_q_group (some true) m =
    if m.nats_queue_group_name == ""
    then err "nats-streaming error: missing queue group name"
    else ok (record m { subscription_type = subscription_type_queue_group })
merge_q_group (some false) m =
    ok (record m { nats_queue_group_name = ""; subscription_type = subscription_type_topic })

-- `uint64(*subscriptionOptions.MaxConcurrentMessages)`
pub merge_max : Option ℤ → Options → Options
merge_max none m = m
merge_max (some n) m = record m { max_in_flight = to_uint64 n }

pub merge_deliver : Option Bool → Options → Options
merge_deliver none m = m
merge_deliver (some true) m = record m { deliver_new = "true" }
merge_deliver (some false) m = record m { deliver_all = "true" }

pub merge_ack_wait : Option ℤ → Options → Options
merge_ack_wait none m = m
merge_ack_wait (some d) m = record m { ack_wait_time = d }

unfoldable pub merge_global_and_subscription_options :
    Options → Option SubscriptionOptions → Result Options
unfolding merge_durable merge_q_group merge_max merge_deliver merge_ack_wait
merge_global_and_subscription_options global none = ok global
merge_global_and_subscription_options global (some s) = do
  m ← merge_q_group s.q_group (merge_durable s.durable global)
  ok (
      merge_ack_wait s.ack_wait_time
        (merge_deliver s.deliver_new_messages_only (merge_max s.max_concurrent_messages m)))
