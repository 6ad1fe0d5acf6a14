-- ===== src/Components/Uuid.antt =====
-- The loop that fills "{uuid}" in the values of a component's metadata: convertMetadataItemsToProperties
-- of pkg/custom-resource/components/loader/local.go and of pkg/operator/server.go. `new_uuid n` is the
-- text of the n-th random UUID.
pub mod Laws
use Prim.Native.Char.{code}
use rusi.Prelude.{
  ℕ, zero, suc, ◌+◌, ◌-◌, ◌*◌, ◌/◌, ◌%◌, ◌^◌, ◌≤◌, ◌<◌, String, ◌≡◌, refl, sym, ap, ◌∙◌, subst, ◌≢◌,
  ◌↔◌, ◌⊎◌, inl, inr, Bool, true, false, not, ◌&&◌, ◌||◌, Option, none, some, List, [], ◌∷◌, ◌++◌,
  map, append_assoc, append-nil, arith, ◌==◌, eq_iff, eq_refl, ltb, leb, beq, if◌then◌else◌,
  Bool-cases, Option-cases, length, is_empty, any, length-append, any-append_right, All, All-append,
  Error, Result, ok, err, ◌>>=◌, ◌>>◌, fail_if, Result-cases, >>=-eq-ok,
}
use rusi.Prelude.Int.{ℤ, pos, negsuc, pos_part, neg_part, neg, ltb_ℤ, IsSigned, to_uint64, to_int64}
use rusi.Prelude.Dict.{
  Dict, lookup, insert, delete, lookup-insert, lookup-delete, lookup-empty, dict_laws, get,
}
use rusi.Prelude.Text.{◌⊕◌, single, to_lower, to_lower-append, split, trim_space, replace_char}
use rusi.Prelude.Number.{parse_uint64, parse_int32, parse_int32-IsSigned, parse_uint64-lt, itoa}

-- what follows a prefix
pub after_prefix : String → String → Option String
after_prefix String.[] s = some s
after_prefix (String.◌∷◌ p ps) String.[] = none
after_prefix (String.◌∷◌ p ps) (String.◌∷◌ c s) =
    if beq (code p) (code c) then after_prefix ps s else none

-- what stands in front of the first `old`, and what follows it
pub cut : String → String → Option (String × String)
unfolding after_prefix
cut old String.[] = elim (after_prefix old "") [ none ↦ none | some rest ↦ some ("", rest) ]
cut old (String.◌∷◌ c s) = elim (after_prefix old (String.◌∷◌ c s)) [
  | some rest ↦ some ("", rest)
  | none ↦ elim (cut old s) [ none ↦ none | some (before, rest) ↦ some (String.◌∷◌ c before, rest) ]
]

-- `strings.Contains`
unfoldable pub contains : String → String → Bool
unfolding cut
contains old s = elim (cut old s) [ none ↦ false | some _ ↦ true ]

-- `strings.Replace(s, old, new, 1)`
unfoldable pub replace_first : String → String → String → String
unfolding cut
replace_first old new s = elim (cut old s) [ none ↦ s | some (before, rest) ↦ before ⊕ new ⊕ rest ]

abbrev pub placeholder : String
placeholder = "{uuid}"

-- the opening braces of a text
unfoldable pub count_open : String → ℕ
count_open String.[] = 0
count_open (String.◌∷◌ c s) = let n = count_open s in if beq (code c) b'{' then suc n else n

module _ (new_uuid : ℕ → String) where
  -- the loop, with the number of UUIDs taken so far; `none` is fuel that has run out
  pub fill_loop : ℕ → ℕ → String → Option (String × ℕ)
  unfolding contains replace_first
  fill_loop zero n val = none
  fill_loop (suc fuel) n val =
      let rest = fill_loop fuel (n + 1) (replace_first placeholder (new_uuid n) val) in
      if contains placeholder val then rest else some (val, n)

  -- each round takes one brace away
  unfoldable pub fill_uuids : ℕ → String → Option (String × ℕ)
  unfolding fill_loop count_open
  fill_uuids n val = fill_loop (count_open val + 1) n val

  -- items are pairs of a name and a value
  unfoldable pub convert_metadata_items :
      ℕ → List (String × String) → Dict String → Option (Dict String × ℕ)
  convert_metadata_items n [] properties = some (properties, n)
  convert_metadata_items n ((name, value) ∷ items) properties = elim (fill_uuids n value) [
    | none ↦ none
    | some (val, n') ↦ convert_metadata_items n' items (insert name val properties)
  ]
