-- ===== src/Prelude/Dict.antt =====
-- Go's `map[string]V` as an association list; a key is held once, and a write to a key that is held
-- replaces its value in place. A nil map reads as the empty one.
use Prim.Native.String.{String}
use mathlib.Core.Path.{◌≡◌, refl}
use mathlib.Core.Option.{Option, none, some}
use mathlib.Core.List.{List, [], ◌∷◌}
use native.Mathlib.Omega.{arith}
use text.Mathlib.Text.{◌==◌}
use text.Mathlib.TextEquality.{eq_iff}
use rusi.Prelude.Tests.{if◌then◌else◌}

abbrev pub Dict {ℓ} : Type ℓ → Type ℓ
Dict V = List (String × V)

module _ {ℓ} {V : Type ℓ} where
  -- `v, ok := m[k]`
  unfoldable pub lookup : (key : String) → Dict V → Option V
  lookup key [] = none
  lookup key ((name, value) ∷ entries) = if name == key then some value else lookup key entries

  -- `delete(m, k)`
  unfoldable pub delete : (key : String) → Dict V → Dict V
  delete key [] = []
  delete key ((name, value) ∷ entries) =
      let others = delete key entries in if name == key then others else (name, value) ∷ others

  -- `m[k] = v`
  unfoldable pub insert : (key : String) → V → Dict V → Dict V
  insert key new [] = (key, new) ∷ []
  insert key new ((name, value) ∷ entries) =
      if name == key then (key, new) ∷ entries else (name, value) ∷ insert key new entries

  pub lookup-delete :
      (key other : String) (entries : Dict V)
      → lookup other (delete key entries) ≡ (if key == other then none else lookup other entries)
  unfolding lookup delete
  lookup-delete key other [] = ground arith
  lookup-delete key other ((name, value) ∷ entries) =
      ground (
        arith,
        lookup-delete key other entries,
        eq_iff key other,
        eq_iff name key,
        eq_iff name other,
      )

  pub lookup-insert :
      (key other : String) (new : V) (entries : Dict V)
      → lookup other (insert key new entries)
        ≡ (if key == other then some new else lookup other entries)
  unfolding lookup insert
  lookup-insert key other new [] = refl
  lookup-insert key other new ((name, value) ∷ entries) = ground (
    arith,
    lookup-insert key other new entries,
    eq_iff key other,
    eq_iff name key,
    eq_iff name other,
  )

  pub lookup-empty : (k : String) → lookup k [] ≡ none
  unfolding lookup
  lookup-empty k = refl

pub ruleset dict_laws = (lookup-insert, lookup-delete, lookup-empty)

-- `m[k]` of a `map[string]string`: the empty text where the key is missing
unfoldable pub get : String → Dict String → String
unfolding lookup
get k m = elim (lookup k m) [ none ↦ "" | some v ↦ v ]
