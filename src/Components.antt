-- ===== src/Components.antt =====
-- Component specifications: pkg/custom-resource/components/types.go and versioning.go.
pub mod Uuid
pub mod Registry
pub mod Manager
use text.Mathlib.Text.{starts_with}
use rusi.Prelude.{
  ℕ, zero, suc, ◌+◌, ◌-◌, ◌*◌, ◌/◌, ◌%◌, ◌^◌, ◌≤◌, ◌<◌, String, ◌≡◌, refl, sym, ap, ◌∙◌, subst, ◌≢◌,
  ◌↔◌, ◌⊎◌, inl, inr, Bool, true, false, not, ◌&&◌, ◌||◌, Option, none, some, List, [], ◌∷◌, ◌++◌,
  map, append_assoc, append-nil, arith, ◌==◌, eq_iff, eq_refl, ltb, leb, beq, if◌then◌else◌,
  Bool-cases, Option-cases, length, is_empty, any, length-append, any-append_right, All, All-append,
  Error, Result, ok, err, ◌>>=◌, ◌>>◌, fail_if, Result-cases, >>=-eq-ok,
}
use rusi.Prelude.Int.{ℤ, pos, negsuc, pos_part, neg_part, neg, ltb_ℤ, IsSigned, to_uint64, to_int64}
use rusi.Prelude.Dict.{
  Dict, lookup, insert, delete, lookup-insert, lookup-delete, lookup-empty, dict_laws, get,
}
use rusi.Prelude.Text.{◌⊕◌, single, to_lower, to_lower-append, split, trim_space, replace_char}
use rusi.Prelude.Number.{parse_uint64, parse_int32, parse_int32-IsSigned, parse_uint64-lt, itoa}

pub record Spec : Type 0 where
  pub name : String
  pub type : String
  pub version : String
  -- nil or a map
  pub metadata : Option (Dict String)
  pub scopes : List String

pub data ComponentCategory : Type 0 where
  bindings pubsub secret_stores middleware : ComponentCategory

pub data Operation : Type 0 where
  insertion update : Operation

pub record ChangeNotification : Type 0 where
  pub component_category : ComponentCategory
  pub operation : Operation
  pub component_spec : Spec

abbrev pub category_text : ComponentCategory → String
category_text bindings = "bindings"
category_text pubsub = "pubsub"
category_text secret_stores = "secretstores"
category_text middleware = "middleware"

abbrev pub component_categories : List ComponentCategory
component_categories = bindings ∷ pubsub ∷ secret_stores ∷ middleware ∷ []

pub first_category : String → List ComponentCategory → Option ComponentCategory
first_category type [] = none
first_category type (category ∷ rest) =
    if starts_with type (category_text category ⊕ ".")
    then some category
    else first_category type rest

-- extractComponentCategory of pkg/runtime/components_manager.go; `none` is the empty category
unfoldable pub extract_component_category : String → Option ComponentCategory
unfolding first_category
extract_component_category type = first_category type component_categories

unfoldable pub is_initial_version : String → Bool
is_initial_version version = let v = to_lower version in (v == "") || (v == "v0") || (v == "v1")
