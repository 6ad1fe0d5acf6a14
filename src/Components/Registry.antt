-- ===== src/Components/Registry.antt =====
-- The registries of factories: pkg/custom-resource/components/pubsub/registry.go and
-- middleware/registry.go, which differ in the prefix of their names. `F` is the type of factories.
pub mod Laws
use rusi.Prelude.{
  ℕ, zero, suc, ◌+◌, ◌-◌, ◌*◌, ◌/◌, ◌%◌, ◌^◌, ◌≤◌, ◌<◌, String, ◌≡◌, refl, sym, ap, ◌∙◌, subst, ◌≢◌,
  ◌↔◌, ◌⊎◌, inl, inr, Bool, true, false, not, ◌&&◌, ◌||◌, Option, none, some, List, [], ◌∷◌, ◌++◌,
  map, append_assoc, append-nil, arith, ◌==◌, eq_iff, eq_refl, ltb, leb, beq, if◌then◌else◌,
  Bool-cases, Option-cases, length, is_empty, any, length-append, any-append_right, All, All-append,
  Error, Result, ok, err, ◌>>=◌, ◌>>◌, fail_if, Result-cases, >>=-eq-ok,
}
use rusi.Prelude.Int.{ℤ, pos, negsuc, pos_part, neg_part, neg, ltb_ℤ, IsSigned, to_uint64, to_int64}
use rusi.Prelude.Dict.{
  Dict, lookup, insert, delete, lookup-insert, lookup-delete, lookup-empty, dict_laws, get,
}
use rusi.Prelude.Text.{◌⊕◌, single, to_lower, to_lower-append, split, trim_space, replace_char}
use rusi.Prelude.Number.{parse_uint64, parse_int32, parse_int32-IsSigned, parse_uint64-lt, itoa}
use rusi.Components.{is_initial_version}

abbrev pub pubsub_prefix : String
pubsub_prefix = "pubsub."

abbrev pub middleware_prefix : String
middleware_prefix = "middleware.pubsub."

pub create_full_name : String → String → String
create_full_name prefix name = to_lower (prefix ⊕ name)

module _ {F : Type 0} where
  -- definitions are pairs of a name and a factory
  unfoldable pub register : String → List (String × F) → Dict F → Dict F
  unfolding create_full_name
  register prefix [] registry = registry
  register prefix ((name, factory) ∷ rest) registry =
      register prefix rest (insert (create_full_name prefix name) factory registry)

  -- getPubSub and getMiddleware
  unfoldable pub find_factory : String → String → Dict F → Option F
  unfolding is_initial_version
  find_factory name version registry =
      let name_lower = to_lower name in
      let version_lower = to_lower version in
      elim (lookup (name_lower ⊕ "/" ⊕ version_lower) registry) [
        | some factory ↦ some factory
        | none ↦ if is_initial_version version_lower then lookup name_lower registry else none
      ]

  unfoldable pub create : Error → String → String → Dict F → Result F
  create message name version registry = elim (find_factory name version registry) [
    | some factory ↦ ok factory
    | none ↦ err message
  ]
