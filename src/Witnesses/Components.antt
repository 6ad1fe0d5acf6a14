-- ===== src/Witnesses/Components.antt =====
-- A manager of pub-subs that are numbers.
use rusi.Prelude.{
  ℕ, ◌+◌, String, ◌≡◌, refl, ◌≢◌, none, some, true, [], ◌∷◌, ◌++◌, ◌==◌, if◌then◌else◌, ok,
}
use rusi.Prelude.Dict.{Dict, lookup, insert}
use rusi.Prelude.Text.{to_lower}
use rusi.Messaging.{healthy_result}
use rusi.Components.{Spec, pubsub, extract_component_category}
use rusi.Components.Registry.{find_factory, create}
use rusi.Components.Manager.{
  PubSubs, Manager, get_component_key, find_component, add_or_update_component,
  watch_components_updates, init_pub_sub, exists_same,
}
use rusi.Components.Registry.Laws.{IsRegistered}
use rusi.Components.Manager.Updates.{
  due, add_or_update_component_twice, add_or_update_component-notifications, init_pub_sub-instances,
}
use rusi.Components.Manager.Latest.{latest, watch_components_updates-latest}

abbrev pub_subs : PubSubs ℕ
pub_subs = record {
  init = λ metadata p. ok (p + 1);
  close = λ p. (p, none);
  is_healthy = λ p. some healthy_result;
}

abbrev spec : Spec
spec = record {
  name = "bus";
  type = "pubsub.x";
  version = "v1";
  metadata = some (("a", "1") ∷ []);
  scopes = [];
}

abbrev manager : Dict Spec → Manager ℕ ℕ
manager components = record {
  app_id = "app";
  pub_sub_instances = [];
  components = components;
  notifications = [];
  pub_sub_registry = ("pubsub.x", 6) ∷ [];
  middleware_registry = [];
}

abbrev held : Manager ℕ ℕ
held = manager (("pubsub.x-bus", spec) ∷ [])

add_or_update_component_twice_example :
    (let m' = (add_or_update_component pub_subs spec (manager [])).0 in
      add_or_update_component pub_subs spec m' ≡ (m', none))
unfolding find_component extract_component_category
add_or_update_component_twice_example =
    add_or_update_component_twice pub_subs spec pubsub (manager []) tt refl refl

abbrev newer : Spec
newer = record spec { metadata = some (("a", "2") ∷ []) }

add_or_update_component-notifications_example :
    (let r = add_or_update_component pub_subs newer held in
      (r.0.notifications
        ≡ [] ++ (elim r.1 [ some _ ↦ [] | none ↦ due (some spec) (some pubsub) newer ]))
      × (r.1 ≡ none → some pubsub ≡ none → exists_same (some spec) newer ≡ true))
unfolding find_component extract_component_category
add_or_update_component-notifications_example =
    add_or_update_component-notifications pub_subs newer held

init_pub_sub-instances_example :
    (fresh ready : ℕ) × (metadata : Dict String) × IsRegistered "pubsub.x" "v1"
      held.pub_sub_registry fresh
    × ((key : String)
        → lookup key metadata
          ≡ (if "consumerID" == key then some "app" else lookup key (("a", "1") ∷ [])))
    × (ok (fresh + 1) ≡ ok ready)
    × ((name : String)
        → lookup name (("bus", 7) ∷ []) ≡ (if "bus" == name then some ready else lookup name []))
unfolding init_pub_sub create lookup insert find_factory to_lower
init_pub_sub-instances_example =
    init_pub_sub-instances pub_subs spec held (record held { pub_sub_instances = ("bus", 7) ∷ [] })
      refl

abbrev other : Spec
other = record spec { name = "other" }

other_key : get_component_key "pubsub.x" "other" ≢ get_component_key "pubsub.x" "bus"
unfolding get_component_key
other_key e = cc

watch_components_updates-latest_example :
    find_component "pubsub.x" "bus"
      (watch_components_updates pub_subs (other ∷ spec ∷ []) (manager [])).components
    ≡ latest "pubsub.x" "bus" none (other ∷ spec ∷ [])
unfolding find_component
watch_components_updates-latest_example =
    watch_components_updates-latest pub_subs "pubsub.x" "bus" (other ∷ spec ∷ []) (manager []) tt
      ((λ e. absurd (other_key e)), ((λ e. (refl, refl)), tt))
