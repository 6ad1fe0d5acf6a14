-- ===== src/Components/Registry/Laws.antt =====
-- What a registry finds.
use rusi.Prelude.{
  String, ◌≡◌, ◌⊎◌, inl, inr, true, none, some, [], ◌∷◌, arith, eq_refl, Bool-cases, Option-cases,
  Error, ok,
}
use rusi.Prelude.Dict.{Dict, lookup, insert, lookup-insert}
use rusi.Prelude.Text.{◌⊕◌, to_lower}
use rusi.Components.{is_initial_version}
use rusi.Components.Registry.{register, find_factory, create}

module _ {F : Type 0} where
  -- a registry's factory for a name and a version: the one of that version, or else, in an initial
  -- version, the one without a version
  abbrev pub IsRegistered : String → String → Dict F → F → Type 0
  IsRegistered name version registry factory =
      let full = to_lower name ⊕ "/" ⊕ to_lower version in
      (lookup full registry ≡ some factory)
      ⊎ ((lookup full registry ≡ none)
          × (is_initial_version (to_lower version) ≡ true)
          × (lookup (to_lower name) registry ≡ some factory))

  pub create-IsRegistered :
      (message : Error) (name version : String) (registry : Dict F) (factory : F)
      → create message name version registry ≡ ok factory
      → IsRegistered name version registry factory
  unfolding create find_factory
  create-IsRegistered message name version registry factory h =
      elim (Option-cases (lookup (to_lower name ⊕ "/" ⊕ to_lower version) registry)) [
        | inr (f, found) ↦ inl (ground (arith, found, h))
        | inl missing ↦ elim (Bool-cases (is_initial_version (to_lower version))) [
          | inr later ↦ absurd (ground (arith, missing, later, h))
          | inl initial ↦ elim (Option-cases (lookup (to_lower name) registry)) [
            | inl gone ↦ absurd (ground (arith, missing, initial, gone, h))
            | inr (f, found) ↦ inr (missing, initial, ground (arith, missing, initial, found, h))
          ]
        ]
      ]

  -- Names and versions are found whatever the case of their letters.
  find_factory-to_lower :
      (name name' version version' : String) (registry : Dict F)
      → to_lower name ≡ to_lower name'
      → to_lower version ≡ to_lower version'
      → find_factory name version registry ≡ find_factory name' version' registry
  unfolding find_factory
  find_factory-to_lower name name' version version' registry e e' = ground (arith, e, e')

  -- A definition that is registered last is found under its prefixed name in any initial version, unless
  -- the registry holds a factory for that very version.
  find_factory-register :
      (prefix name version : String) (factory : F) (registry : Dict F)
      → is_initial_version (to_lower version) ≡ true
      → (let full = to_lower (prefix ⊕ name) in
          lookup (full ⊕ "/" ⊕ to_lower version) (insert full factory registry) ≡ none)
      → find_factory (prefix ⊕ name) version (register prefix ((name, factory) ∷ []) registry)
        ≡ some factory
  unfolding find_factory register
  find_factory-register prefix name version factory registry initial free =
      let full = to_lower (prefix ⊕ name) in
      ground (arith, initial, free, lookup-insert full full factory registry, eq_refl full)
