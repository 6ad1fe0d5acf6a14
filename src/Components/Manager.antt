-- ===== src/Components/Manager.antt =====
-- ComponentsManager of pkg/runtime/components_manager.go. Pub-subs and middlewares are parameters: `P`
-- is a pub-sub, `M` a middleware.
pub mod Store
pub mod Updates
pub mod Health
pub mod Latest
use rusi.Prelude.{
  ℕ, zero, suc, ◌+◌, ◌-◌, ◌*◌, ◌/◌, ◌%◌, ◌^◌, ◌≤◌, ◌<◌, String, ◌≡◌, refl, sym, ap, ◌∙◌, subst, ◌≢◌,
  ◌↔◌, ◌⊎◌, inl, inr, Bool, true, false, not, ◌&&◌, ◌||◌, Option, none, some, List, [], ◌∷◌, ◌++◌,
  map, append_assoc, append-nil, arith, ◌==◌, eq_iff, eq_refl, ltb, leb, beq, if◌then◌else◌,
  Bool-cases, Option-cases, length, is_empty, any, length-append, any-append_right, All, All-append,
  Error, Result, ok, err, ◌>>=◌, ◌>>◌, fail_if, Result-cases, >>=-eq-ok,
}
use rusi.Prelude.Int.{ℤ, pos, negsuc, pos_part, neg_part, neg, ltb_ℤ, IsSigned, to_uint64, to_int64}
use rusi.Prelude.Dict.{
  Dict, lookup, insert, delete, lookup-insert, lookup-delete, lookup-empty, dict_laws, get,
}
use rusi.Prelude.Text.{◌⊕◌, single, to_lower, to_lower-append, split, trim_space, replace_char}
use rusi.Prelude.Number.{parse_uint64, parse_int32, parse_int32-IsSigned, parse_uint64-lt, itoa}
use rusi.Messaging.{HealthResult, HealthStatus, unhealthy, degraded, healthy, healthy_result}
use rusi.Components.{
  Spec, ComponentCategory, bindings, pubsub, secret_stores, middleware, Operation, insertion,
  update, ChangeNotification, extract_component_category,
}
use rusi.Components.Registry.{create}

-- What a pub-sub does when the manager calls it.
pub record PubSubs (P : Type 0) : Type 0 where
  pub init : Dict String → P → Result P
  pub close : P → P × Option Error
  -- none for a pub-sub that is no health checker
  pub is_healthy : P → Option HealthResult

-- `notifications` are the changes that were sent on the channel, in order.
pub record Manager (P M : Type 0) : Type 0 where
  pub app_id : String
  pub pub_sub_instances : Dict P
  pub components : Dict Spec
  pub notifications : List ChangeNotification
  pub pub_sub_registry : Dict P
  pub middleware_registry : Dict (Option (Dict String) → M)

abbrev pub opt_text_eq : Option String → Option String → Bool
opt_text_eq none none = true
opt_text_eq (some a) (some b) = a == b
opt_text_eq _ _ = false

-- the keys of `ks` have the same values in both maps
pub agree : Dict String → Dict String → Dict String → Bool
agree [] a b = true
agree ((k, _) ∷ ks) a b = opt_text_eq (lookup k a) (lookup k b) && agree ks a b

-- reflect.DeepEqual on maps: nil is equal to nil only
pub deep_equal : Option (Dict String) → Option (Dict String) → Bool
unfolding agree
deep_equal none none = true
deep_equal (some a) (some b) = agree a a b && agree b a b
deep_equal _ _ = false

unfoldable pub get_component_key : String → String → String
get_component_key ctype name = ctype ⊕ "-" ⊕ name

-- the loop over the components
unfoldable pub find_component : String → String → Dict Spec → Option Spec
find_component component_type name [] = none
find_component component_type name ((_, c) ∷ rest) =
    if (c.type == component_type) && (c.name == name)
    then some c
    else find_component component_type name rest

-- the clone of the metadata, with the id of the consumer
pub clone_metadata : String → Option (Dict String) → Dict String
clone_metadata app_id none = insert "consumerID" app_id []
clone_metadata app_id (some metadata) = insert "consumerID" app_id metadata

abbrev pub exists_same : Option Spec → Spec → Bool
exists_same none spec = false
exists_same (some old) spec = deep_equal old.metadata spec.metadata

abbrev pub operation_for : Option Spec → Operation
operation_for none = insertion
operation_for (some _) = update

abbrev pub operation_text : Operation → String
operation_text insertion = "insert"
operation_text update = "update"

-- `fmt` is given the name where the text says operation, and the operation where it says component
abbrev pub invalid_category : Operation → Spec → Error
invalid_category operation spec =
    "invalid category  or operation "
    ⊕ spec.name
    ⊕ " for this component "
    ⊕ operation_text operation

abbrev pub is_healthy_status : HealthStatus → Bool
is_healthy_status healthy = true
is_healthy_status _ = false

module _ {P : Type 0} (pub_subs : PubSubs P) where
  -- the loop over the instances: the first result that is not healthy
  pub first_unhealthy : Dict P → Option HealthResult
  first_unhealthy [] = none
  first_unhealthy ((_, ps) ∷ rest) = elim (pub_subs.is_healthy ps) [
    | none ↦ first_unhealthy rest
    | some r ↦ if is_healthy_status r.status then first_unhealthy rest else some r
  ]

module _ {P M : Type 0} where
  pub store_component : Spec → Manager P M → Manager P M
  store_component spec m = record m {
    components = insert (get_component_key spec.type spec.name) spec m.components;
  }

  pub publish_change : ComponentCategory → Operation → Spec → Manager P M → Manager P M
  publish_change category operation spec m =
      let change : ChangeNotification = record {
        component_category = category;
        operation = operation;
        component_spec = spec;
      } in
      record m { notifications = m.notifications ++ change ∷ [] }

  -- The component is stored also where loading it failed; only a change that succeeded is published.
  pub finish :
      ComponentCategory → Operation → Spec → Manager P M × Option Error → Manager P M × Option Error
  unfolding store_component publish_change
  finish category operation spec (m, some e) = (store_component spec m, some e)
  finish category operation spec (m, none) =
      (publish_change category operation spec (store_component spec m), none)

  unfoldable pub get_middleware : (type name version : String) → Manager P M → Result M
  unfolding find_component
  get_middleware type name version m = elim (find_component type name m.components) [
    | none ↦ err (
        "couldn't find middleware component with name " ⊕ name ⊕ " and type " ⊕ type ⊕ "/"
        ⊕ version)
    | some component ↦ do
      factory ←
          create ("Pubsub middleware " ⊕ type ⊕ "/" ⊕ version ⊕ " has not been registered") type
            version m.middleware_registry
      ok (factory component.metadata)
  ]

  -- GetPublisher and GetSubscriber; `none` is nil
  unfoldable pub get_pub_sub : String → Manager P M → Option P
  get_pub_sub name m = lookup name m.pub_sub_instances

module _ {P M : Type 0} (pub_subs : PubSubs P) where
  unfoldable pub init_pub_sub : Spec → Manager P M → Manager P M × Option Error
  unfolding clone_metadata
  init_pub_sub spec m =
      elim (create ("couldn't find message bus " ⊕ spec.type ⊕ "/" ⊕ spec.version) spec.type
        spec.version m.pub_sub_registry) [
          | err e ↦ (m, some e)
          | ok pub_sub ↦ elim (pub_subs.init (clone_metadata m.app_id spec.metadata) pub_sub) [
            | err e ↦ (m, some e)
            | ok ready ↦
                (record m { pub_sub_instances = insert spec.name ready m.pub_sub_instances }, none)
          ]
        ]

  -- the old instance is closed, and stays where the new one cannot be made
  pub update_pub_sub : Spec → Manager P M → Manager P M × Option Error
  unfolding init_pub_sub
  update_pub_sub spec m = elim (lookup spec.name m.pub_sub_instances) [
    | none ↦ init_pub_sub spec m
    | some ps ↦
        let (ps', e) = pub_subs.close ps in
        let closed = record m { pub_sub_instances = insert spec.name ps' m.pub_sub_instances } in
        elim e [ some error ↦ (closed, some error) | none ↦ init_pub_sub spec closed ]
  ]

  -- the `switch` on the category and the operation
  pub load_component :
      ComponentCategory → Operation → Spec → Manager P M → Manager P M × Option Error
  unfolding update_pub_sub
  load_component pubsub update spec m = update_pub_sub spec m
  load_component pubsub insertion spec m = init_pub_sub spec m
  load_component bindings _ spec m = (m, none)
  load_component secret_stores _ spec m = (m, none)
  load_component middleware _ spec m = (m, none)

  pub add_or_update_component : Spec → Manager P M → Manager P M × Option Error
  unfolding load_component finish deep_equal find_component
  add_or_update_component spec m =
      let old = find_component spec.type spec.name m.components in
      let operation = operation_for old in
      if exists_same old spec then (m, none) else elim (extract_component_category spec.type) [
        | none ↦ (m, some (invalid_category operation spec))
        | some category ↦ finish category operation spec (load_component category operation spec m)
      ]

  -- watchComponentsUpdates: an error is logged, and the next update is taken
  pub watch_components_updates : List Spec → Manager P M → Manager P M
  unfolding add_or_update_component
  watch_components_updates [] m = m
  watch_components_updates (spec ∷ rest) m =
      watch_components_updates rest (add_or_update_component spec m).0

  pub is_healthy : Manager P M → HealthResult
  unfolding first_unhealthy
  is_healthy m = elim (first_unhealthy pub_subs m.pub_sub_instances) [
    | some r ↦ r
    | none ↦
        if is_empty m.pub_sub_instances
        then record { status = unhealthy; description = "no pubsub instance created yet" }
        else healthy_result
  ]
