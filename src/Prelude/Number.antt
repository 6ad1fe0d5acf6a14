-- ===== src/Prelude/Number.antt =====
-- Go's `strconv`: decimal numbers read from text and printed.
use Prim.Native.Nat.{ℕ, zero, suc, ◌+◌, ◌-◌, ◌*◌, ◌/◌, ◌%◌, ◌^◌, ◌<◌}
use Prim.Native.Char.{code}
use Prim.Native.String.{String}
use mathlib.Core.Path.{◌≡◌}
use mathlib.Core.Bool.{Bool, true, false, ◌&&◌}
use mathlib.Core.Option.{Option, none, some}
use native.Mathlib.Omega.{arith}
use rusi.Prelude.Tests.{ltb, leb, beq, if◌then◌else◌}
use rusi.Prelude.Int.{ℤ, pos, negsuc, neg, IsSigned}
use rusi.Prelude.Text.{◌⊕◌}

-- the value that decimal digits spell behind `n`
digits_value : ℕ → String → Option ℕ
digits_value n String.[] = some n
digits_value n (String.◌∷◌ c s) =
    if leb b'0' (code c) && leb (code c) b'9'
    then digits_value (n * 10 + (code c - b'0')) s
    else none

unsigned : String → Option ℕ
unfolding digits_value
unsigned String.[] = none
unsigned (String.◌∷◌ c s) = digits_value 0 (String.◌∷◌ c s)

-- `strconv.ParseUint(s, 10, 64)`; `none` is a syntax or a range error
unfoldable pub parse_uint64 : String → Option ℕ
unfolding unsigned
parse_uint64 s = elim (unsigned s) [
  | none ↦ none
  | some n ↦ if ltb n (2 ^ 64) then some n else none
]

abbrev in_range : ℕ → Bool → Option ℕ → Option ℤ
in_range half negative none = none
in_range half true (some n) = if leb n half then some (neg n) else none
in_range half false (some n) = if ltb n half then some (pos n) else none

-- `strconv.ParseInt(s, 10, 32)`: an optional sign and digits, in the range of an int32
unfoldable pub parse_int32 : String → Option ℤ
unfolding unsigned
parse_int32 String.[] = none
parse_int32 (String.◌∷◌ c s) =
    if beq (code c) b'-'
    then in_range (2 ^ 31) true (unsigned s)
    else if beq (code c) b'+'
    then in_range (2 ^ 31) false (unsigned s)
    else in_range (2 ^ 31) false (unsigned (String.◌∷◌ c s))

in_range-IsSigned :
    (negative : Bool) (o : Option ℕ) (v : ℤ)
    → in_range (2 ^ 31) negative o ≡ some v
    → IsSigned (2 ^ 31) v
in_range-IsSigned b none v h = ground arith
in_range-IsSigned true (some zero) v h = ground arith
in_range-IsSigned true (some (suc n)) v h = ground arith
in_range-IsSigned false (some n) v h = ground arith

-- A number that is read is in the range.
pub parse_int32-IsSigned : (s : String) (v : ℤ) → parse_int32 s ≡ some v → IsSigned (2 ^ 31) v
unfolding parse_int32
parse_int32-IsSigned String.[] v h = ground arith
parse_int32-IsSigned (String.◌∷◌ c s) v h = ground (
  arith,
  in_range-IsSigned true (unsigned s) v,
  in_range-IsSigned false (unsigned s) v,
  in_range-IsSigned false (unsigned (String.◌∷◌ c s)) v,
)

pub parse_uint64-lt : (s : String) (n : ℕ) → parse_uint64 s ≡ some n → n < 2 ^ 64
unfolding parse_uint64
parse_uint64-lt s n h = ground arith

digit_text : ℕ → String
digit_text d =
    if beq d 0
    then "0"
    else if beq d 1
    then "1"
    else if beq d 2
    then "2"
    else if beq d 3
    then "3"
    else if beq d 4
    then "4"
    else if beq d 5
    then "5"
    else if beq d 6
    then "6"
    else if beq d 7
    then "7"
    else if beq d 8
    then "8"
    else "9"

-- `digits` with fuel; a number below 2 ^ fuel needs no more than `fuel` rounds
digits : ℕ → ℕ → String → String
unfolding digit_text
digits zero n out = out
digits (suc fuel) n out =
    let text = digit_text (n % 10) ⊕ out in
    let rest = digits fuel (n / 10) text in if ltb n 10 then text else rest

-- `strconv.Itoa`, for the values of a 64-bit integer
unfoldable pub itoa : ℤ → String
unfolding digits
itoa (pos n) = digits 64 n ""
itoa (negsuc n) = "-" ⊕ digits 64 (suc n) ""
