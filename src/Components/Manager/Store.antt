-- ===== src/Components/Manager/Store.antt =====
-- The components that the manager holds, by their keys.
use rusi.Prelude.{
  String, ◌≡◌, refl, ◌≢◌, inl, inr, true, false, none, some, [], ◌∷◌, arith, ◌==◌, eq_iff, eq_refl,
  if◌then◌else◌, Bool-cases, All,
}
use rusi.Prelude.Dict.{Dict, insert}
use rusi.Components.{Spec}
use rusi.Components.Manager.{get_component_key, find_component}

abbrev pub key_of : Spec → String
key_of c = get_component_key c.type c.name

abbrev pub IsFree : String → Dict Spec → Type 0
IsFree key = All (λ entry. entry.0 ≢ key)

-- every component stands under its own key, and no two have the same
abbrev pub IsKeyed : Dict Spec → Type 0
IsKeyed [] = Unit {0}
IsKeyed ((k, c) ∷ rest) = (k ≡ key_of c) × IsFree k rest × IsKeyed rest

IsFree-insert :
    (key k : String) (spec : Spec) (m : Dict Spec)
    → k ≢ key
    → IsFree key m
    → IsFree key (insert k spec m)
unfolding insert
IsFree-insert key k spec [] ne h = (ne, tt)
IsFree-insert key k spec ((j, c) ∷ rest) ne h =
    elim (j == k)
      as (λ b. IsFree key (if b then (k, spec) ∷ rest else (j, c) ∷ insert k spec rest)) [
        | true ↦ (ne, h.1)
        | false ↦ (h.0, IsFree-insert key k spec rest ne h.1)
      ]

pub insert-IsKeyed :
    (spec : Spec) (m : Dict Spec) → IsKeyed m → IsKeyed (insert (key_of spec) spec m)
unfolding insert
insert-IsKeyed spec [] h = (refl, tt, tt)
insert-IsKeyed spec ((k, c) ∷ rest) h = elim (Bool-cases (k == key_of spec)) [
  | inl same ↦ let e = (eq_iff k (key_of spec)).0 same in rw same (refl, rw (← e) h.1, h.2)
  | inr other ↦ rw other (
    h.0,
    IsFree-insert k (key_of spec) spec rest (λ e. ground (arith, e, eq_refl k)) h.1,
    insert-IsKeyed spec rest h.2,
  )
]

-- A component that is stored is found by its type and name.
pub find_component-insert :
    (spec : Spec) (m : Dict Spec)
    → IsKeyed m
    → find_component spec.type spec.name (insert (key_of spec) spec m) ≡ some spec
unfolding insert find_component
find_component-insert spec [] h = ground (arith, eq_refl spec.type, eq_refl spec.name)
find_component-insert spec ((k, c) ∷ rest) h =
    let ih = find_component-insert spec rest h.2 in
    let key : k ≡ get_component_key c.type c.name = h.0 in
    ground (
      arith,
      ih,
      key,
      eq_refl spec.type,
      eq_refl spec.name,
      eq_iff c.type spec.type,
      eq_iff c.name spec.name,
      eq_iff k (get_component_key spec.type spec.name),
    )

-- a component whose key is free is not found
find_component-free :
    (a : Spec) (m : Dict Spec)
    → IsKeyed m
    → IsFree (key_of a) m
    → find_component a.type a.name m ≡ none
unfolding find_component
find_component-free a [] h free = refl
find_component-free a ((k, c) ∷ rest) h free =
    let ne : k ≢ get_component_key a.type a.name = free.0 in
    let key : k ≡ get_component_key c.type c.name = h.0 in
    ground (
      arith,
      ne,
      key,
      find_component-free a rest h.2 free.1,
      eq_iff c.type a.type,
      eq_iff c.name a.name,
    )

-- A component of another type that has the same key is lost when the second one is stored.
find_component-collision :
    (a b : Spec) (m : Dict Spec)
    → IsKeyed m
    → key_of a ≡ key_of b
    → a.type ≢ b.type
    → find_component a.type a.name (insert (key_of b) b m) ≡ none
unfolding insert find_component
find_component-collision a b [] h same differ = ground (arith, eq_iff b.type a.type)
find_component-collision a b ((k, c) ∷ rest) h same differ = elim (Bool-cases (k == key_of b)) [
  | inl here ↦
      let e = (eq_iff k (key_of b)).0 here in
      let gone = find_component-free a rest h.2 (rw same (rw (← e) h.1)) in
      rw here (ground (arith, gone, eq_iff b.type a.type))
  | inr other ↦
      let key : k ≡ get_component_key c.type c.name = h.0 in
      let ih = find_component-collision a b rest h.2 same differ in
      rw other (
        ground (
          arith,
          ih,
          key,
          same,
          eq_iff c.type a.type,
          eq_iff c.name a.name,
          eq_iff k (get_component_key b.type b.name),
        ))
]
