-- ===== src/Loader/Split.antt =====
-- splitYamlDoc of pkg/custom-resource/components/loader/local.go. A text of the file is a list of bytes.
pub mod Laws
use rusi.Prelude.{
  ℕ, zero, suc, ◌+◌, ◌-◌, ◌*◌, ◌/◌, ◌%◌, ◌^◌, ◌≤◌, ◌<◌, String, ◌≡◌, refl, sym, ap, ◌∙◌, subst, ◌≢◌,
  ◌↔◌, ◌⊎◌, inl, inr, Bool, true, false, not, ◌&&◌, ◌||◌, Option, none, some, List, [], ◌∷◌, ◌++◌,
  map, append_assoc, append-nil, arith, ◌==◌, eq_iff, eq_refl, ltb, leb, beq, if◌then◌else◌,
  Bool-cases, Option-cases, length, is_empty, any, length-append, any-append_right, All, All-append,
  Error, Result, ok, err, ◌>>=◌, ◌>>◌, fail_if, Result-cases, >>=-eq-ok,
}
use rusi.Prelude.Int.{ℤ, pos, negsuc, pos_part, neg_part, neg, ltb_ℤ, IsSigned, to_uint64, to_int64}
use rusi.Prelude.Dict.{
  Dict, lookup, insert, delete, lookup-insert, lookup-delete, lookup-empty, dict_laws, get,
}
use rusi.Prelude.Text.{◌⊕◌, single, to_lower, to_lower-append, split, trim_space, replace_char}
use rusi.Prelude.Number.{parse_uint64, parse_int32, parse_int32-IsSigned, parse_uint64-lt, itoa}

abbrev pub take {ℓ} : {A : Type ℓ} → ℕ → List A → List A
take n [] = []
take zero (x ∷ xs) = []
take (suc n) (x ∷ xs) = x ∷ take n xs

abbrev pub drop {ℓ} : {A : Type ℓ} → ℕ → List A → List A
drop n [] = []
drop zero (x ∷ xs) = x ∷ xs
drop (suc n) (x ∷ xs) = drop n xs

-- "\n---"
abbrev pub yaml_separator : List ℕ
yaml_separator = 10 ∷ b'-' ∷ b'-' ∷ b'-' ∷ []

unfoldable pub after_prefix : List ℕ → List ℕ → Option (List ℕ)
after_prefix [] rest = some rest
after_prefix (p ∷ ps) [] = none
after_prefix (p ∷ ps) (b ∷ bs) = if beq p b then after_prefix ps bs else none

-- `bytes.Index`, with what stands in front of the separator and what follows it
unfoldable pub cut : List ℕ → List ℕ → Option (List ℕ × List ℕ)
unfolding after_prefix
cut separator [] = elim (after_prefix separator []) [ none ↦ none | some after ↦ some ([], after) ]
cut separator (b ∷ bs) = elim (after_prefix separator (b ∷ bs)) [
  | some after ↦ some ([], after)
  | none ↦ elim (cut separator bs) [ none ↦ none | some (before, after) ↦ some (b ∷ before, after) ]
]

-- `bytes.IndexByte`
unfoldable pub index_byte : ℕ → List ℕ → Option ℕ
index_byte byte [] = none
index_byte byte (b ∷ bs) =
    let later = index_byte byte bs in
    if beq b byte then some 0 else elim later [ none ↦ none | some j ↦ some (suc j) ]

-- the number of bytes to advance, and the token, which may be nil; its error is always nil
unfoldable pub split_yaml_doc : List ℕ → Bool → ℕ × Option (List ℕ)
unfolding cut index_byte
split_yaml_doc content at_eof =
    if at_eof && is_empty content then (0, none) else elim (cut yaml_separator content) [
      | some (before, after) ↦
          if is_empty after
          then (if at_eof then (length content, some before) else (0, none))
          else elim (index_byte 10 after) [
            | some j ↦ (length before + length yaml_separator + j + 1, some before)
            | none ↦ (0, none)
          ]
      | none ↦ if at_eof then (length content, some content) else (0, none)
    ]
