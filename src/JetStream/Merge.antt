-- ===== src/JetStream/Merge.antt =====
-- mergeGlobalAndSubscriptionOptions of pkg/messaging/jetstream/jetstream.go.
pub mod Laws
use rusi.Prelude.{
  ℕ, zero, suc, ◌+◌, ◌-◌, ◌*◌, ◌/◌, ◌%◌, ◌^◌, ◌≤◌, ◌<◌, String, ◌≡◌, refl, sym, ap, ◌∙◌, subst, ◌≢◌,
  ◌↔◌, ◌⊎◌, inl, inr, Bool, true, false, not, ◌&&◌, ◌||◌, Option, none, some, List, [], ◌∷◌, ◌++◌,
  map, append_assoc, append-nil, arith, ◌==◌, eq_iff, eq_refl, ltb, leb, beq, if◌then◌else◌,
  Bool-cases, Option-cases, length, is_empty, any, length-append, any-append_right, All, All-append,
  Error, Result, ok, err, ◌>>=◌, ◌>>◌, fail_if, Result-cases, >>=-eq-ok,
}
use rusi.Prelude.Int.{ℤ, pos, negsuc, pos_part, neg_part, neg, ltb_ℤ, IsSigned, to_uint64, to_int64}
use rusi.Prelude.Dict.{
  Dict, lookup, insert, delete, lookup-insert, lookup-delete, lookup-empty, dict_laws, get,
}
use rusi.Prelude.Text.{◌⊕◌, single, to_lower, to_lower-append, split, trim_space, replace_char}
use rusi.Prelude.Number.{parse_uint64, parse_int32, parse_int32-IsSigned, parse_uint64-lt, itoa}
use rusi.Messaging.{SubscriptionOptions}
use rusi.JetStream.{Options}

-- `Durable != nil && *Durable`; without it the subscription has no durable name
pub merge_durable : Option Bool → Options → Result Options
merge_durable (some true) m =
    if m.durable_subscription_name == ""
    then err "jetStream error: missing durable subscription name"
    else ok m
merge_durable _ m = ok (record m { durable_subscription_name = "" })

abbrev pub or_else : {A : Type 0} → Option A → A → A
or_else none a = a
or_else (some b) a = b

pub merge_deliver : Option Bool → Options → Options
merge_deliver none m = m
merge_deliver (some true) m = record m { deliver_new = "true" }
merge_deliver (some false) m = record m { deliver_all = "true" }

unfoldable pub merge_global_and_subscription_options :
    Options → Option SubscriptionOptions → Result Options
unfolding merge_durable merge_deliver
merge_global_and_subscription_options global none = ok global
merge_global_and_subscription_options global (some s) = do
  m ← merge_durable s.durable global
  let grouped = record m {
    queue_group = or_else s.q_group m.queue_group;
    max_in_flight = or_else s.max_concurrent_messages m.max_in_flight;
  }
  let delivered = merge_deliver s.deliver_new_messages_only grouped
  ok (record delivered { ack_wait_time = or_else s.ack_wait_time delivered.ack_wait_time })
