-- ===== src/Components/Uuid/Laws.antt =====
-- The loop over "{uuid}" ends.
use text.Mathlib.TextLemmas
use rusi.Prelude.{
  ℕ, zero, suc, ◌+◌, ◌<◌, String, ◌≡◌, refl, ◌∙◌, inl, inr, true, false, some, List, [], ◌∷◌, arith,
  ◌==◌, if◌then◌else◌, Bool-cases, Option-cases, All,
}
use rusi.Prelude.Dict.{Dict, insert}
use rusi.Prelude.Text.{◌⊕◌}
use rusi.Components.Uuid.{
  after_prefix, cut, contains, replace_first, placeholder, count_open, fill_loop, fill_uuids,
  convert_metadata_items,
}

count_open-append : (s t : String) → count_open (s ⊕ t) ≡ count_open s + count_open t
unfolding count_open
count_open-append String.[] t = simp TextLemmas.nil-append (omega arith)
count_open-append (String.◌∷◌ c s) t =
    simp TextLemmas.cons-append (ground (arith, count_open-append s t))

-- a prefix that is cut away takes its braces along
count_open-after_prefix :
    (p s rest : String)
    → after_prefix p s ≡ some rest
    → count_open s ≡ count_open p + count_open rest
unfolding after_prefix count_open
count_open-after_prefix String.[] s rest h = ground arith
count_open-after_prefix (String.◌∷◌ p ps) String.[] rest h = ground arith
count_open-after_prefix (String.◌∷◌ p ps) (String.◌∷◌ c s) rest h =
    ground (arith, h, count_open-after_prefix ps s rest)

count_open-cut :
    (old s before rest : String)
    → cut old s ≡ some (before, rest)
    → count_open s ≡ count_open before + count_open old + count_open rest
unfolding cut count_open
count_open-cut old String.[] before rest h = elim (Option-cases (after_prefix old "")) [
  | inl gone ↦ ground (arith, gone, h)
  | inr (r, found) ↦
      let e : "" ≡ before = ground (arith, found, h) in
      let z : count_open before ≡ 0 = rw (← e) refl in
      ground (arith, found, h, z, count_open-after_prefix old "" r found)
]
count_open-cut old (String.◌∷◌ c s) before rest h =
    elim (Option-cases (after_prefix old (String.◌∷◌ c s))) [
      | inr (r, found) ↦
          let e : "" ≡ before = ground (arith, found, h) in
          let z : count_open before ≡ 0 = rw (← e) refl in
          ground (arith, found, h, z, count_open-after_prefix old (String.◌∷◌ c s) r found)
      | inl gone ↦ elim (Option-cases (cut old s)) [
        | inl none_left ↦ ground (arith, gone, none_left, h)
        | inr ((b, r), there) ↦
            let e : String.◌∷◌ c b ≡ before = ground (arith, gone, there, h) in
            let z : count_open before ≡ count_open (String.◌∷◌ c b) = rw (← e) refl in
            ground (arith, gone, there, h, z, count_open-cut old s b r there)
      ]
    ]

replace_first-eq :
    (old new s before rest : String)
    → cut old s ≡ some (before, rest)
    → replace_first old new s ≡ before ⊕ new ⊕ rest
unfolding replace_first
replace_first-eq old new s before rest found = ground (arith, found)

one_open : count_open placeholder ≡ 1
unfolding count_open
one_open = refl

module _ (new_uuid : ℕ → String) (plain : (n : ℕ) → count_open (new_uuid n) ≡ 0) where
  filled :
      (n : ℕ) (before rest : String)
      → count_open (before ⊕ new_uuid n ⊕ rest) ≡ count_open before + count_open rest
  filled n before rest = omega (
    arith,
    plain n,
    count_open-append before (new_uuid n ⊕ rest),
    count_open-append (new_uuid n) rest,
  )

  replace_first-shorter :
      (n : ℕ) (val : String)
      → contains placeholder val ≡ true
      → count_open (replace_first placeholder (new_uuid n) val) < count_open val
  unfolding contains
  replace_first-shorter n val h = elim (Option-cases (cut placeholder val)) [
    | inl gone ↦ ground (arith, gone, h)
    | inr ((before, rest), found) ↦
        rw (replace_first-eq placeholder (new_uuid n) val before rest found) (
          omega (
            arith,
            filled n before rest,
            count_open-cut placeholder val before rest found,
            one_open,
          ))
  ]

  fill_loop-total :
      (fuel n : ℕ) (val : String)
      → count_open val < fuel
      → (r : String) × (m : ℕ) × (fill_loop new_uuid fuel n val ≡ some (r, m))
        × (contains placeholder r ≡ false)
  unfolding fill_loop
  fill_loop-total zero n val h = absurd (omega arith)
  fill_loop-total (suc fuel) n val h = elim (Bool-cases (contains placeholder val)) [
    | inr done ↦ (val, n, rw done refl, done)
    | inl more ↦
        let shorter = replace_first-shorter n val more in
        let (r, m, e, clean) =
          fill_loop-total fuel (n + 1) (replace_first placeholder (new_uuid n) val)
            (omega (arith, shorter, h)) in
        (r, m, rw more e, clean)
  ]

  -- Where no UUID holds an opening brace, the loop ends for every value, and leaves no "{uuid}" in it.
  fill_uuids-total :
      (n : ℕ) (val : String)
      → (r : String) × (m : ℕ) × (fill_uuids new_uuid n val ≡ some (r, m))
        × (contains placeholder r ≡ false)
  unfolding fill_uuids
  fill_uuids-total n val = fill_loop-total (count_open val + 1) n val (omega arith)

  -- no value holds "{uuid}"
  abbrev pub IsFilled : Dict String → Type 0
  IsFilled = All (λ entry. contains placeholder entry.1 ≡ false)

  IsFilled-insert :
      (name val : String) (properties : Dict String)
      → contains placeholder val ≡ false
      → IsFilled properties
      → IsFilled (insert name val properties)
  unfolding insert
  IsFilled-insert name val [] h k = (h, tt)
  IsFilled-insert name val ((j, v) ∷ rest) h k =
      elim (j == name)
        as (λ b. IsFilled (if b then (name, val) ∷ rest else (j, v) ∷ insert name val rest)) [
          | true ↦ (h, k.1)
          | false ↦ (k.0, IsFilled-insert name val rest h k.1)
        ]

  convert_metadata_items-step :
      (n m : ℕ) (name value val : String) (items : List (String × String))
      (properties : Dict String)
      → fill_uuids new_uuid n value ≡ some (val, m)
      → convert_metadata_items new_uuid n ((name, value) ∷ items) properties
        ≡ convert_metadata_items new_uuid m items (insert name val properties)
  unfolding convert_metadata_items
  convert_metadata_items-step n m name value val items properties done = ground (arith, done)

  -- Where no UUID holds an opening brace, the conversion of the metadata ends for all items, and no value
  -- of its properties holds "{uuid}".
  pub convert_metadata_items-total :
      (n : ℕ) (items : List (String × String)) (properties : Dict String)
      → IsFilled properties
      → (result : Dict String) × (m : ℕ) × (convert_metadata_items new_uuid n items properties
          ≡ some (result, m))
        × IsFilled result
  unfolding convert_metadata_items
  convert_metadata_items-total n [] properties h = (properties, n, refl, h)
  convert_metadata_items-total n ((name, value) ∷ items) properties h =
      let (val, m, done, clean) = fill_uuids-total n value in
      let (result, k, e, all) =
        convert_metadata_items-total m items (insert name val properties)
          (IsFilled-insert name val properties clean h) in
      (result, k, convert_metadata_items-step n m name value val items properties done ∙ e, all)
