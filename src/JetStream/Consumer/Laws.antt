-- ===== src/JetStream/Consumer/Laws.antt =====
-- Which subscriptions share a consumer.
use Prim.Native.Char.{Char, code}
use text.Mathlib.TextLemmas
use rusi.Prelude.{
  ℕ, String, ◌≡◌, refl, ◌≢◌, Bool, true, false, Option, some, arith, beq, if◌then◌else◌, ok,
}
use rusi.Prelude.Int.{pos, ltb_ℤ}
use rusi.Prelude.Text.{◌⊕◌, replace_char}
use rusi.Messaging.{SubscriptionOptions}
use rusi.JetStream.{Options}
use rusi.JetStream.Merge.{merge_global_and_subscription_options}
use rusi.JetStream.Consumer.{consumer_name, consumer_config, max_in_flight_of}

abbrev pub Lacks : ℕ → String → Type 0
Lacks c String.[] = Unit {0}
Lacks c (String.◌∷◌ d s) = (code d ≢ c) × Lacks c s

replaced_ne_dot : (c : Char) (b : Bool) → beq (code c) b'.' ≡ b → code (if b then "_" else c) ≢ b'.'
replaced_ne_dot c true e = λ p. omega arith
replaced_ne_dot c false e = λ p. ground arith

Lacks-replace_char : (s : String) → Lacks b'.' (replace_char b'.' "_" s)
unfolding replace_char
Lacks-replace_char String.[] = tt
Lacks-replace_char (String.◌∷◌ c s) =
    (replaced_ne_dot c (beq (code c) b'.') refl, Lacks-replace_char s)

-- The name of a consumer holds no dot.
consumer_name-Lacks : (name topic : String) → Lacks b'.' (consumer_name name topic)
unfolding consumer_name
consumer_name-Lacks name topic = Lacks-replace_char (name ⊕ "__" ⊕ topic)

replace_char-append :
    (s t : String)
    → replace_char b'.' "_" (s ⊕ t) ≡ replace_char b'.' "_" s ⊕ replace_char b'.' "_" t
unfolding replace_char
replace_char-append String.[] t = simp TextLemmas.nil-append
replace_char-append (String.◌∷◌ c s) t = simp (TextLemmas.cons-append, replace_char-append s t)

replace_char_idem :
    (s : String) → replace_char b'.' "_" (replace_char b'.' "_" s) ≡ replace_char b'.' "_" s
unfolding replace_char
replace_char_idem String.[] = refl
replace_char_idem (String.◌∷◌ c s) = ground (arith, replace_char_idem s)

-- A topic shares its consumer's name with the topic that has underscores for its dots.
consumer_name-underscores :
    (name topic : String)
    → consumer_name name (replace_char b'.' "_" topic) ≡ consumer_name name topic
unfolding consumer_name
consumer_name-underscores name topic = simp (replace_char-append, replace_char_idem)

-- Subscribers of a queue group ask for one and the same consumer. Without a group each asks for a
-- consumer of its own, by a name that differs wherever the unique ids do, and for no durable one.
consumer_config-sharing :
    (a b : String) (m : Options) (topic : String)
    → (m.queue_group ≡ true → consumer_config a m topic ≡ consumer_config b m topic)
      × (m.queue_group ≡ false
          → (consumer_config a m topic).name ≡ (consumer_config b m topic).name
          → a ≡ b)
      × (m.queue_group ≡ false → (consumer_config a m topic).durable ≡ "")
unfolding consumer_config
consumer_config-sharing a b m topic = (
  λ h. ground (arith, h),
  λ h e. TextLemmas.append_cancel_left "__" a b (
      TextLemmas.append_cancel_left (consumer_name m.consumer_id topic) _ _ (ground (arith, h, e))),
  λ h. ground (arith, h),
)

-- At least one message is in flight.
pub max_in_flight_of-pos : (m : Options) → ltb_ℤ (max_in_flight_of m) (pos 1) ≡ false
unfolding max_in_flight_of
max_in_flight_of-pos m = ground arith

-- Whether a subscription asks for new messages only makes no difference to its consumer.
consumer_config-deliver_ignored :
    (global m m' : Options) (s : SubscriptionOptions) (d d' : Option Bool) (nuid topic : String)
    → merge_global_and_subscription_options global
        (some (record s { deliver_new_messages_only = d }))
      ≡ ok m
    → merge_global_and_subscription_options global
        (some (record s { deliver_new_messages_only = d' }))
      ≡ ok m'
    → consumer_config nuid m topic ≡ consumer_config nuid m' topic
unfolding consumer_config merge_global_and_subscription_options
consumer_config-deliver_ignored global m m' s d d' nuid topic h h' = ground arith
