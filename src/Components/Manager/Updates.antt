-- ===== src/Components/Manager/Updates.antt =====
-- What an update does to the manager.
use rusi.Prelude.{
  String, ◌≡◌, refl, ◌⊎◌, inl, inr, append-nil, true, false, Option, none, some, List, [], ◌∷◌,
  ◌++◌, arith, ◌==◌, eq_refl, if◌then◌else◌, Bool-cases, Option-cases, ok, Result-cases,
}
use rusi.Prelude.Dict.{Dict, lookup, insert, lookup-insert}
use rusi.Prelude.Text.{◌⊕◌}
use rusi.Components.{
  Spec, ComponentCategory, ChangeNotification, bindings, pubsub, secret_stores, middleware,
  Operation, insertion, update, extract_component_category,
}
use rusi.Components.Registry.{create}
use rusi.Components.Registry.Laws.{IsRegistered, create-IsRegistered}
use rusi.Components.Manager.{
  PubSubs, Manager, opt_text_eq, agree, deep_equal, find_component, exists_same, operation_for,
  load_component, init_pub_sub, add_or_update_component, watch_components_updates, clone_metadata,
}
use rusi.Components.Manager.Store.{IsKeyed, key_of, insert-IsKeyed, find_component-insert}

opt_text_eq_refl : (o : Option String) → opt_text_eq o o ≡ true
opt_text_eq_refl none = refl
opt_text_eq_refl (some a) = eq_refl a

agree_refl : (ks a : Dict String) → agree ks a a ≡ true
unfolding agree
agree_refl [] a = refl
agree_refl ((k, v) ∷ ks) a = rw (opt_text_eq_refl (lookup k a)) (agree_refl ks a)

deep_equal_refl : (m : Option (Dict String)) → deep_equal m m ≡ true
unfolding deep_equal
deep_equal_refl none = refl
deep_equal_refl (some a) = rw (agree_refl a a)

abbrev pub or_empty : Option (Dict String) → Dict String
or_empty none = []
or_empty (some m) = m

lookup-clone_metadata :
    (key app_id : String) (metadata : Option (Dict String))
    → lookup key (clone_metadata app_id metadata)
      ≡ (if "consumerID" == key then some app_id else lookup key (or_empty metadata))
unfolding clone_metadata
lookup-clone_metadata key app_id none = lookup-insert "consumerID" key app_id []
lookup-clone_metadata key app_id (some m) = lookup-insert "consumerID" key app_id m

-- the change that an update is to be announced with, from the component that the manager holds of its
-- type and name: none where its metadata are the same or its category is not known
pub due : Option Spec → Option ComponentCategory → Spec → List ChangeNotification
due held none spec = []
due none (some category) spec =
    record { component_category = category; operation = insertion; component_spec = spec } ∷ []
due (some old) (some category) spec =
    if deep_equal old.metadata spec.metadata
    then []
    else record { component_category = category; operation = update; component_spec = spec } ∷ []

due_same :
    (held : Option Spec) (category : Option ComponentCategory) (spec : Spec)
    → exists_same held spec ≡ true
    → due held category spec ≡ []
unfolding due
due_same held none spec h = refl
due_same none (some category) spec h = absurd (ground (arith, h))
due_same (some old) (some category) spec h = ground (arith, h)

due_new :
    (held : Option Spec) (category : ComponentCategory) (spec : Spec)
    → exists_same held spec ≡ false
    → due held (some category) spec
      ≡ record {
        component_category = category;
        operation = operation_for held;
        component_spec = spec;
      }
        ∷ []
unfolding due
due_new none category spec h = refl
due_new (some old) category spec h = ground (arith, h)

module _ {P M : Type 0} (pub_subs : PubSubs P) where
  load_component-components :
      (category : ComponentCategory) (operation : Operation) (spec : Spec) (m : Manager P M)
      → ((load_component pub_subs category operation spec m).0.components ≡ m.components)
        × ((load_component pub_subs category operation spec m).0.notifications ≡ m.notifications)
  unfolding load_component
  load_component-components bindings operation spec m = (refl, refl)
  load_component-components secret_stores operation spec m = (refl, refl)
  load_component-components middleware operation spec m = (refl, refl)
  load_component-components pubsub insertion spec m = ground arith
  load_component-components pubsub update spec m = ground arith

  -- an update of a known category that is not the same again, in one equation
  pub add_or_update_component-components :
      (spec : Spec) (category : ComponentCategory) (m : Manager P M)
      → extract_component_category spec.type ≡ some category
      → exists_same (find_component spec.type spec.name m.components) spec ≡ false
      → (add_or_update_component pub_subs spec m).0.components
        ≡ insert (key_of spec) spec m.components
  unfolding add_or_update_component
  add_or_update_component-components spec category m known new =
      let operation = operation_for (find_component spec.type spec.name m.components) in
      ground (arith, known, new, (load_component-components category operation spec m).0)

  add_or_update_component_cases :
      (spec : Spec) (m : Manager P M)
      → ((add_or_update_component pub_subs spec m).0 ≡ m)
        ⊎ ((add_or_update_component pub_subs spec m).0.components
            ≡ insert (key_of spec) spec m.components)
  unfolding add_or_update_component
  add_or_update_component_cases spec m =
      elim (Bool-cases (exists_same (find_component spec.type spec.name m.components) spec)) [
        | inl same ↦ inl (ground (arith, same))
        | inr new ↦ elim (Option-cases (extract_component_category spec.type)) [
          | inl unknown ↦ inl (ground (arith, new, unknown))
          | inr (category, known) ↦
              inr (add_or_update_component-components spec category m known new)
        ]
      ]

  -- The components stay keyed, one under each key, whatever the update.
  pub add_or_update_component-IsKeyed :
      (spec : Spec) (m : Manager P M)
      → IsKeyed m.components
      → IsKeyed (add_or_update_component pub_subs spec m).0.components
  add_or_update_component-IsKeyed spec m h = elim (add_or_update_component_cases spec m) [
    | inl same ↦ rw same h
    | inr stored ↦ rw stored (insert-IsKeyed spec m.components h)
  ]

  -- From keyed components, whatever the updates, the components are keyed.
  watch_components_updates-IsKeyed :
      (updates : List Spec) (m : Manager P M)
      → IsKeyed m.components
      → IsKeyed (watch_components_updates pub_subs updates m).components
  unfolding watch_components_updates
  watch_components_updates-IsKeyed [] m h = h
  watch_components_updates-IsKeyed (spec ∷ rest) m h =
      watch_components_updates-IsKeyed rest (add_or_update_component pub_subs spec m).0
        (add_or_update_component-IsKeyed spec m h)

  -- A component that is sent again with the metadata that it has, however its version and scopes differ,
  -- is taken for the same and changes nothing.
  pub add_or_update_component_same :
      (spec old : Spec) (m : Manager P M)
      → find_component spec.type spec.name m.components ≡ some old
      → old.metadata ≡ spec.metadata
      → add_or_update_component pub_subs spec m ≡ (m, none)
  unfolding add_or_update_component
  add_or_update_component_same spec old m found same =
      ground (arith, found, same, deep_equal_refl spec.metadata)

  -- A component of a known category that has been taken, whether or not loading it succeeded, is not
  -- loaded again when it is sent again.
  pub add_or_update_component_twice :
      (spec : Spec) (category : ComponentCategory) (m : Manager P M)
      → IsKeyed m.components
      → extract_component_category spec.type ≡ some category
      → exists_same (find_component spec.type spec.name m.components) spec ≡ false
      → (let m' = (add_or_update_component pub_subs spec m).0 in
          add_or_update_component pub_subs spec m' ≡ (m', none))
  add_or_update_component_twice spec category m keyed known new =
      add_or_update_component_same spec spec (add_or_update_component pub_subs spec m).0
        (rw (add_or_update_component-components spec category m known new)
          (find_component-insert spec m.components keyed))
        refl

  -- For every update: where it gives an error, nothing is published; where it gives none, what is
  -- published, at the end, is nothing for an update with the metadata that the manager holds, and else
  -- one change with its category, as an insertion or an update as the manager held no such component or
  -- held one. An update of an unknown category that is not the same again gives an error.
  pub add_or_update_component-notifications :
      (spec : Spec) (m : Manager P M)
      → (let r = add_or_update_component pub_subs spec m in
          let held = find_component spec.type spec.name m.components in
          let category = extract_component_category spec.type in
          (r.0.notifications
            ≡ m.notifications ++ (elim r.1 [ some _ ↦ [] | none ↦ due held category spec ]))
          × (r.1 ≡ none → category ≡ none → exists_same held spec ≡ true))
  unfolding add_or_update_component
  add_or_update_component-notifications spec m =
      let found = find_component spec.type spec.name m.components in
      elim (Bool-cases (exists_same found spec)) [
        | inl same ↦ (
          ground (
            arith,
            same,
            due_same found (extract_component_category spec.type) spec,
            append-nil m.notifications,
          ),
          λ _ _. same,
        )
        | inr new ↦ elim (Option-cases (extract_component_category spec.type)) [
          | inl unknown ↦ (
            ground (arith, new, unknown, append-nil m.notifications),
            λ e _. absurd (ground (arith, new, unknown, e)),
          )
          | inr (category, known) ↦
              let operation = operation_for found in
              (
                ground (
                  arith,
                  new,
                  known,
                  (load_component-components category operation spec m).1,
                  due_new found category spec,
                  append-nil m.notifications,
                ),
                λ _ u. absurd (ground (arith, known, u)),
              )
        ]
      ]

  -- A new pub-sub is made by the factory that the registry has for its type and version; it is
  -- initialised with its metadata, in which the app's id stands under "consumerID"; and it stands under
  -- its name. All other pub-subs stay.
  pub init_pub_sub-instances :
      (spec : Spec) (m m' : Manager P M)
      → init_pub_sub pub_subs spec m ≡ (m', none)
      → (fresh ready : P) × (metadata : Dict String) × IsRegistered spec.type spec.version
          m.pub_sub_registry fresh
        × ((key : String)
            → lookup key metadata ≡ (
                if "consumerID" == key then some m.app_id else lookup key (or_empty spec.metadata)))
        × (pub_subs.init metadata fresh ≡ ok ready)
        × ((name : String)
            → lookup name m'.pub_sub_instances
              ≡ (if spec.name == name then some ready else lookup name m.pub_sub_instances))
  unfolding init_pub_sub
  init_pub_sub-instances spec m m' h =
      let message = "couldn't find message bus " ⊕ spec.type ⊕ "/" ⊕ spec.version in
      let made = create message spec.type spec.version m.pub_sub_registry in
      let metadata = clone_metadata m.app_id spec.metadata in
      elim (Result-cases made) [
        | inr (e, failed) ↦ ground (arith, failed, h)
        | inl (fresh, e) ↦ elim (Result-cases (pub_subs.init metadata fresh)) [
          | inr (x, failed) ↦ ground (arith, e, failed, h)
          | inl (ready, e') ↦ (
            fresh,
            ready,
            metadata,
            create-IsRegistered message spec.type spec.version m.pub_sub_registry fresh e,
            λ key. lookup-clone_metadata key m.app_id spec.metadata,
            e',
            λ name.
                ground (arith, e, e', h, lookup-insert spec.name name ready m.pub_sub_instances),
          )
        ]
      ]
