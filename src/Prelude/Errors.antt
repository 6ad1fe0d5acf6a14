-- ===== src/Prelude/Errors.antt =====
-- A Go result `(A, error)`; an error is its message, and `nil` is the absence of one.
use Prim.Native.String.{String}
use mathlib.Core.Path.{◌≡◌, refl}
use mathlib.Core.Bool.{Bool, true, false}
use mathlib.Core.Logic.{◌⊎◌, inl, inr}

abbrev pub Error : Type 0
Error = String

pub data Result {ℓ} (A : Type ℓ) : Type ℓ where
  ok : A → Result A
  err : Error → Result A

abbrev pub ◌>>=◌ {ℓ κ} : {S : Type ℓ} {T : Type κ} → Result S → (S → Result T) → Result T
err message >>= next = err message
ok value >>= next = next value

abbrev pub ◌>>◌ {ℓ} : {T : Type ℓ} → Result (Unit {0}) → Result T → Result T
first >> second = first >>= λ _. second

infixl 5 ◌>>=◌ ◌>>◌
-- `if b { return e }`
abbrev pub fail_if : Bool → Error → Result (Unit {0})
fail_if true e = err e
fail_if false e = ok tt

pub Result-cases {ℓ} :
    {S : Type ℓ} (result : Result S)
    → ((s : S) × (result ≡ ok s)) ⊎ ((message : Error) × (result ≡ err message))
Result-cases (err message) = inr (message, refl)
Result-cases (ok s) = inl (s, refl)

-- Inversion of a successful bind.
pub >>=-eq-ok {ℓ κ} :
    {S : Type ℓ} {T : Type κ} (first : Result S) (next : S → Result T) {t : T}
    → (first >>= next) ≡ ok t
    → (s : S) × (first ≡ ok s) × (next s ≡ ok t)
>>=-eq-ok (err message) next e = absurd (cc)
>>=-eq-ok (ok s) next e = (s, refl, e)
