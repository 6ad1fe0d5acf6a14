-- ===== src/Operator/Server/Laws.antt =====
-- What the stream of components sends.
use rusi.Prelude.{
  ℕ, String, ◌≡◌, refl, inl, inr, Option, some, List, [], ◌∷◌, arith, ◌==◌, if◌then◌else◌,
  Bool-cases,
}
use rusi.Components.{Spec}
use rusi.Components.Uuid.{count_open}
use rusi.Components.Uuid.Laws.{convert_metadata_items-total}
use rusi.Operator.Server.{
  Component, Selected, object, stream_done, convert_to_component, watch_components, unquoted,
}

-- the same component but for its metadata
pub record IsSame (item : Component) (spec : Spec) : Type 0 where
  pub name : spec.name ≡ item.name
  pub type : spec.type ≡ item.type
  pub version : spec.version ≡ item.version
  pub scopes : spec.scopes ≡ item.scopes

pub data AreSame : List Component → List Spec → Type 0 where
  nothing : AreSame [] []
  one :
      {item : Component} {items : List Component} {spec : Spec} {specs : List Spec}
      → IsSame item spec
      → AreSame items specs
      → AreSame (item ∷ items) (spec ∷ specs)

-- the components of a namespace that are met before the stream is done
pub of_namespace : String → List (Selected Component) → List Component
of_namespace namespace [] = []
of_namespace namespace (stream_done ∷ rest) = []
of_namespace namespace (object obj ∷ rest) =
    if obj.namespace == namespace
    then obj ∷ of_namespace namespace rest
    else of_namespace namespace rest

module _ (unquote : String → Option String) (new_uuid : ℕ → String)
    (plain : (n : ℕ) → count_open (new_uuid n) ≡ 0) where
  convert_to_component-total :
      (n : ℕ) (item : Component)
      → (spec : Spec) × (m : ℕ) × (convert_to_component unquote new_uuid n item ≡ some (spec, m))
        × IsSame item spec
  unfolding convert_to_component
  convert_to_component-total n item =
      let (properties, m, converted, _) =
        convert_metadata_items-total new_uuid plain n (unquoted unquote new_uuid item.metadata) []
          tt in
      let spec : Spec = record {
        name = item.name;
        type = item.type;
        version = item.version;
        metadata = some properties;
        scopes = item.scopes;
      } in
      (
        spec,
        m,
        ground (arith, converted),
        record { name = refl; type = refl; version = refl; scopes = refl },
      )

  -- Where no UUID holds a brace, the stream of a namespace sends every component of the namespace that it
  -- meets, and no other, in their order, with the name, type, version and scopes of the object.
  pub watch_components-total :
      (namespace : String) (n : ℕ) (selected : List (Selected Component))
      → (specs : List Spec) × (watch_components unquote new_uuid namespace n selected ≡ some specs)
        × AreSame (of_namespace namespace selected) specs
  unfolding watch_components of_namespace
  watch_components-total namespace n [] = ([], refl, nothing)
  watch_components-total namespace n (stream_done ∷ rest) = ([], refl, nothing)
  watch_components-total namespace n (object obj ∷ rest) =
      elim (Bool-cases (obj.namespace == namespace)) [
        | inr other ↦
            let (specs, sent, same) = watch_components-total namespace n rest in
            (specs, ground (arith, other, sent), rw other same)
        | inl here ↦
            let (spec, m, converted, alike) = convert_to_component-total n obj in
            let (specs, sent, same) = watch_components-total namespace m rest in
            (spec ∷ specs, ground (arith, here, converted, sent), rw here (one alike same))
      ]
