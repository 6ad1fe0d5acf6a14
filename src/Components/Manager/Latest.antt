-- ===== src/Components/Manager/Latest.antt =====
-- The manager's components as a map from types and names to the last specification that counts.
use rusi.Prelude.{
  String, ◌≡◌, refl, sym, ap, ◌∙◌, subst, ◌≢◌, ◌⊎◌, inl, inr, Bool, true, false, not, ◌&&◌, Option,
  none, some, List, [], ◌∷◌, arith, ◌==◌, eq_iff, if◌then◌else◌, Bool-cases, Option-cases, All,
}
use rusi.Prelude.Dict.{Dict, insert}
use rusi.Components.{Spec, ComponentCategory, extract_component_category}
use rusi.Components.Manager.{
  PubSubs, Manager, find_component, exists_same, get_component_key, add_or_update_component,
  watch_components_updates,
}
use rusi.Components.Manager.Store.{IsKeyed, key_of, insert-IsKeyed, find_component-insert}
use rusi.Components.Manager.Updates.{add_or_update_component-components}

abbrev is_known : Option ComponentCategory → Bool
is_known none = false
is_known (some _) = true

-- the specification of this type and name after an update
pub renewed : String → String → Option Spec → Spec → Option Spec
renewed type name current spec =
    if (spec.type == type)
      && (spec.name == name)
      && is_known (extract_component_category spec.type)
      && not (exists_same current spec)
    then some spec
    else current

-- What the updates make of the component of one type and name, with nothing else in view.
pub latest : String → String → Option Spec → List Spec → Option Spec
latest type name current [] = current
latest type name current (spec ∷ rest) = latest type name (renewed type name current spec) rest

-- of the updates, those with this key have this type and name
abbrev pub HasOwnKey : String → String → List Spec → Type 0
HasOwnKey type name =
    All
      (λ spec. key_of spec ≡ get_component_key type name → (spec.type ≡ type) × (spec.name ≡ name))

find_component-insert_other :
    (type name : String) (spec : Spec) (m : Dict Spec)
    → IsKeyed m
    → key_of spec ≢ get_component_key type name
    → find_component type name (insert (key_of spec) spec m) ≡ find_component type name m
unfolding insert find_component
find_component-insert_other type name spec [] h differ =
    ground (arith, differ, eq_iff spec.type type, eq_iff spec.name name)
find_component-insert_other type name spec ((k, c) ∷ rest) h differ =
    let ih = find_component-insert_other type name spec rest h.2 differ in
    let key : k ≡ get_component_key c.type c.name = h.0 in
    ground (
      arith,
      ih,
      key,
      differ,
      eq_iff spec.type type,
      eq_iff spec.name name,
      eq_iff c.type type,
      eq_iff c.name name,
      eq_iff k (get_component_key spec.type spec.name),
    )

is_pair : String → String → Spec → Bool
is_pair type name spec = (spec.type == type) && (spec.name == name)

find_component-pair :
    (type name : String) (spec : Spec) (m : Dict Spec)
    → is_pair type name spec ≡ true
    → find_component spec.type spec.name m ≡ find_component type name m
unfolding is_pair
find_component-pair type name spec m h =
    let t : spec.type ≡ type = (eq_iff spec.type type).0 (ground (arith, h)) in
    let n : spec.name ≡ name = (eq_iff spec.name name).0 (ground (arith, h)) in
    ap (λ x. find_component x spec.name m) t ∙ ap (λ x. find_component type x m) n

-- what is found after a specification is stored
find_component-stored :
    (type name : String) (spec : Spec) (m : Dict Spec)
    → IsKeyed m
    → (key_of spec ≡ get_component_key type name → (spec.type ≡ type) × (spec.name ≡ name))
    → find_component type name (insert (key_of spec) spec m)
      ≡ (if is_pair type name spec then some spec else find_component type name m)
unfolding is_pair
find_component-stored type name spec m h own = elim (Bool-cases (is_pair type name spec)) [
  | inl mine ↦
      let found =
        sym (find_component-pair type name spec (insert (key_of spec) spec m) mine)
        ∙ find_component-insert spec m h in
      ground (arith, mine, found)
  | inr other ↦
      let differ : key_of spec ≢ get_component_key type name = λ e.
        let (t, n) = own e in
        ground (arith, other, (eq_iff spec.type type).1 t, (eq_iff spec.name name).1 n) in
      ground (arith, other, find_component-insert_other type name spec m h differ)
]

module _ {P M : Type 0} (pub_subs : PubSubs P) where
  add_or_update_component_same :
      (spec : Spec) (m : Manager P M)
      → exists_same (find_component spec.type spec.name m.components) spec ≡ true
      → (add_or_update_component pub_subs spec m).0 ≡ m
  unfolding add_or_update_component
  add_or_update_component_same spec m same = ground (arith, same)

  add_or_update_component_unknown :
      (spec : Spec) (m : Manager P M)
      → extract_component_category spec.type ≡ none
      → (add_or_update_component pub_subs spec m).0 ≡ m
  unfolding add_or_update_component
  add_or_update_component_unknown spec m unknown = ground (arith, unknown)

  -- an update that changes nothing, as the component of one type and name sees it
  renewed_same :
      (type name : String) (spec : Spec) (m : Manager P M)
      → (exists_same (find_component spec.type spec.name m.components) spec ≡ true)
        ⊎ (extract_component_category spec.type ≡ none)
      → find_component type name m.components
        ≡ renewed type name (find_component type name m.components) spec
  unfolding renewed is_pair
  renewed_same type name spec m (inr unknown) = ground (arith, unknown)
  renewed_same type name spec m (inl same) = elim (Bool-cases (is_pair type name spec)) [
    | inr other ↦ ground (arith, other)
    | inl mine ↦
        let e = find_component-pair type name spec m.components mine in
        let still : exists_same (find_component type name m.components) spec ≡ true =
          subst (λ o. exists_same o spec ≡ true) e same in
        ground (arith, mine, still)
  ]

  stored_renewed :
      (type name : String) (spec : Spec) (m : Manager P M) (category : ComponentCategory)
      → extract_component_category spec.type ≡ some category
      → exists_same (find_component spec.type spec.name m.components) spec ≡ false
      → (if is_pair type name spec then some spec else find_component type name m.components)
        ≡ renewed type name (find_component type name m.components) spec
  unfolding renewed is_pair
  stored_renewed type name spec m category known new = elim (Bool-cases (is_pair type name spec)) [
    | inr other ↦ ground (arith, other)
    | inl mine ↦
        let e = find_component-pair type name spec m.components mine in
        let still : exists_same (find_component type name m.components) spec ≡ false =
          subst (λ o. exists_same o spec ≡ false) e new in
        ground (arith, mine, still, known)
  ]

  -- one update, as the component of one type and name sees it
  add_or_update_component-renewed :
      (type name : String) (spec : Spec) (m : Manager P M)
      → IsKeyed m.components
      → (key_of spec ≡ get_component_key type name → (spec.type ≡ type) × (spec.name ≡ name))
      → IsKeyed (add_or_update_component pub_subs spec m).0.components
        × (find_component type name (add_or_update_component pub_subs spec m).0.components
            ≡ renewed type name (find_component type name m.components) spec)
  unfolding renewed is_pair
  add_or_update_component-renewed type name spec m h own =
      elim (Bool-cases (exists_same (find_component spec.type spec.name m.components) spec)) [
        | inl same ↦
            rw (add_or_update_component_same spec m same)
              (h, renewed_same type name spec m (inl same))
        | inr new ↦ elim (Option-cases (extract_component_category spec.type)) [
          | inl unknown ↦
              rw (add_or_update_component_unknown spec m unknown)
                (h, renewed_same type name spec m (inr unknown))
          | inr (category, known) ↦
              let stored = add_or_update_component-components pub_subs spec category m known new in
              let found = find_component-stored type name spec m.components h own in
              rw stored (
                insert-IsKeyed spec m.components h,
                found ∙ stored_renewed type name spec m category known new,
              )
        ]
      ]

  -- The component that the manager holds of a type and a name is the one that the updates of this type
  -- and name alone make, each of a known category and with other metadata than the one before, whatever
  -- updates of other components come between; this is for a type and a name whose key no other
  -- component has.
  pub watch_components_updates-latest :
      (type name : String) (updates : List Spec) (m : Manager P M)
      → IsKeyed m.components
      → HasOwnKey type name updates
      → find_component type name (watch_components_updates pub_subs updates m).components
        ≡ latest type name (find_component type name m.components) updates
  unfolding watch_components_updates latest
  watch_components_updates-latest type name [] m h own = refl
  watch_components_updates-latest type name (spec ∷ rest) m h (own, others) =
      let (keyed, now) = add_or_update_component-renewed type name spec m h own in
      watch_components_updates-latest type name rest (add_or_update_component pub_subs spec m).0
        keyed others
      ∙ ap (λ o. latest type name o rest) now
