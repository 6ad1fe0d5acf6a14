-- ===== src/Configuration/Laws.antt =====
-- What is enabled, what is loaded, and the namespace.
use rusi.Prelude.{
  ℕ, String, ◌≡◌, refl, inl, inr, Bool, false, none, some, List, [], ◌∷◌, ◌++◌, arith, ◌==◌,
  eq_refl, Bool-cases, any, Result, ok, err,
}
use rusi.Prelude.Text.{trim_space}
use rusi.Configuration.{
  FeatureSpec, is_feature_enabled, load_default_configuration, System,
  load_standalone_configuration, get_current_namespace, namespace_of_account, namespace_file,
}

abbrev is_named : String → FeatureSpec → Bool
is_named target feature = feature.name == target

-- The first feature of a name counts, whatever stands behind it, and one that is not named is off.
is_feature_enabled_lem :
    (before after : List FeatureSpec) (feature : FeatureSpec)
    → any (is_named feature.name) before ≡ false
    → is_feature_enabled (before ++ (feature ∷ after)) feature.name ≡ feature.enabled
unfolding is_feature_enabled
is_feature_enabled_lem [] after feature h = ground (arith, eq_refl feature.name)
is_feature_enabled_lem (f ∷ before) after feature h =
    let first : (f.name == feature.name) ≡ false = ground (arith, h) in
    let others : any (is_named feature.name) before ≡ false = ground (arith, h) in
    ground (arith, first, is_feature_enabled_lem before after feature others)

-- A configuration is sent just when the file is there and is read, also where it cannot be decoded, and
-- then with the error.
load_standalone_configuration-sent :
    (system : System) (config : String) (b : List ℕ)
    → system.stat config ≡ none
    → system.read_file config ≡ ok b
    → (let (spec, e) = system.unmarshal (system.expand_env b) load_default_configuration in
        load_standalone_configuration system config ≡ (some spec, e))
unfolding load_standalone_configuration
load_standalone_configuration-sent system config b found read = ground (arith, found, read)

namespace_of_account-ne-empty : (r : Result String) → (namespace_of_account r == "") ≡ false
namespace_of_account-ne-empty (err e) = refl
namespace_of_account-ne-empty (ok text) = elim (Bool-cases (trim_space text == "")) [
  | inl blank ↦ rw blank refl
  | inr other ↦ rw (other, other) refl
]

-- A namespace is always found.
get_current_namespace-ne-empty : (system : System) → (get_current_namespace system == "") ≡ false
unfolding get_current_namespace
get_current_namespace-ne-empty system =
    let last = namespace_of_account-ne-empty (system.read_text namespace_file) in
    elim (Bool-cases (system.getenv "POD_NAMESPACE" == "")) [
      | inr pod ↦ ground (arith, pod)
      | inl none_set ↦ elim (Bool-cases (system.getenv "NAMESPACE" == "")) [
        | inr own ↦ ground (arith, none_set, own)
        | inl neither ↦ ground (arith, none_set, neither, last)
      ]
    ]
