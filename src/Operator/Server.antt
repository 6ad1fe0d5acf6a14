-- ===== src/Operator/Server.antt =====
-- The streams of pkg/operator/server.go: what each of them sends for the objects that its channel brings.
-- The encoding to JSON, `strconv.Unquote` and the random UUIDs are parameters.
pub mod Laws
use rusi.Prelude.{
  ℕ, zero, suc, ◌+◌, ◌-◌, ◌*◌, ◌/◌, ◌%◌, ◌^◌, ◌≤◌, ◌<◌, String, ◌≡◌, refl, sym, ap, ◌∙◌, subst, ◌≢◌,
  ◌↔◌, ◌⊎◌, inl, inr, Bool, true, false, not, ◌&&◌, ◌||◌, Option, none, some, List, [], ◌∷◌, ◌++◌,
  map, append_assoc, append-nil, arith, ◌==◌, eq_iff, eq_refl, ltb, leb, beq, if◌then◌else◌,
  Bool-cases, Option-cases, length, is_empty, any, length-append, any-append_right, All, All-append,
  Error, Result, ok, err, ◌>>=◌, ◌>>◌, fail_if, Result-cases, >>=-eq-ok,
}
use rusi.Prelude.Int.{ℤ, pos, negsuc, pos_part, neg_part, neg, ltb_ℤ, IsSigned, to_uint64, to_int64}
use rusi.Prelude.Dict.{
  Dict, lookup, insert, delete, lookup-insert, lookup-delete, lookup-empty, dict_laws, get,
}
use rusi.Prelude.Text.{◌⊕◌, single, to_lower, to_lower-append, split, trim_space, replace_char}
use rusi.Prelude.Number.{parse_uint64, parse_int32, parse_int32-IsSigned, parse_uint64-lt, itoa}
use rusi.Components.{Spec}
use rusi.Components.Uuid.{convert_metadata_items}
use rusi.Operator.Types.{V1ConfigurationSpec}

pub record MetadataItem : Type 0 where
  pub name : String
  -- the raw JSON
  pub value : String

pub record Component : Type 0 where
  pub name : String
  pub namespace : String
  pub type : String
  pub version : String
  pub metadata : List MetadataItem
  pub scopes : List String

pub record Configuration : Type 0 where
  pub name : String
  pub namespace : String
  pub spec : V1ConfigurationSpec

pub record WatchConfigurationRequest : Type 0 where
  pub config_name : String
  pub namespace : String

-- what a round of a stream's `select` meets
pub data Selected (O : Type 0) : Type 0 where
  object : O → Selected O
  stream_done : Selected O

module _ (unquote : String → Option String) (new_uuid : ℕ → String) where
  pub json_to_unquoted_string : String → String
  json_to_unquoted_string raw = elim (unquote raw) [ some c ↦ c | none ↦ raw ]

  pub unquoted : List MetadataItem → List (String × String)
  unfolding json_to_unquoted_string
  unquoted [] = []
  unquoted (item ∷ items) = (item.name, json_to_unquoted_string item.value) ∷ unquoted items

  -- with the UUIDs that are used, by their number; `none` is a value whose UUIDs are never all filled in
  pub convert_to_component : ℕ → Component → Option (Spec × ℕ)
  unfolding unquoted
  convert_to_component n item =
      elim (convert_metadata_items new_uuid n (unquoted item.metadata) []) [
        | none ↦ none
        | some (properties, n') ↦
            let spec : Spec = record {
              name = item.name;
              type = item.type;
              version = item.version;
              metadata = some properties;
              scopes = item.scopes;
            } in
            some (spec, n')
      ]

  -- WatchComponents: the components that are sent, before they are encoded
  unfoldable pub watch_components : String → ℕ → List (Selected Component) → Option (List Spec)
  unfolding convert_to_component
  watch_components namespace n [] = some []
  watch_components namespace n (stream_done ∷ rest) = some []
  watch_components namespace n (object obj ∷ rest) =
      if obj.namespace == namespace
      then elim (convert_to_component n obj) [
        | none ↦ none
        | some (spec, n') ↦ elim (watch_components namespace n' rest) [
          | none ↦ none
          | some specs ↦ some (spec ∷ specs)
        ]
      ]
      else watch_components namespace n rest

-- WatchConfiguration, likewise
unfoldable pub watch_configuration :
    WatchConfigurationRequest → List (Selected Configuration) → List V1ConfigurationSpec
watch_configuration request [] = []
watch_configuration request (stream_done ∷ rest) = []
watch_configuration request (object obj ∷ rest) =
    if (obj.namespace == request.namespace) && (obj.name == request.config_name)
    then obj.spec ∷ watch_configuration request rest
    else watch_configuration request rest

-- `jsoniter.Marshal` and `stream.Send` for each
unfoldable pub encode_all : {S M : Type 0} → (S → M) → List S → List M
encode_all marshal [] = []
encode_all marshal (s ∷ rest) = marshal s ∷ encode_all marshal rest
