-- ===== src/Prelude/Text.antt =====
-- Go's `strings` package, as far as the source calls it. Case is folded for ASCII letters.
use Prim.Native.Nat.{ℕ}
use Prim.Native.Char.{Char, code}
use Prim.Native.String
use Prim.Native.String.{String}
use mathlib.Core.Path.{◌≡◌}
use mathlib.Core.Bool.{Bool, true, false, ◌||◌, ◌&&◌}
use mathlib.Core.List.{List, [], ◌∷◌}
use text.Mathlib.TextLemmas.{nil-append, cons-append}
use rusi.Prelude.Tests.{beq, leb, if◌then◌else◌}

infixr 65 ◌⊕◌
-- concatenation of texts
abbrev pub ◌⊕◌ : String → String → String
s ⊕ t = String.◌++◌ s t

abbrev pub single : Char → String
single c = String.◌∷◌ c ""

abbrev lower_table : List (Char × Char)
lower_table =
    ("A", "a")
    ∷ ("B", "b")
    ∷ ("C", "c")
    ∷ ("D", "d")
    ∷ ("E", "e")
    ∷ ("F", "f")
    ∷ ("G", "g")
    ∷ ("H", "h")
    ∷ ("I", "i")
    ∷ ("J", "j")
    ∷ ("K", "k")
    ∷ ("L", "l")
    ∷ ("M", "m")
    ∷ ("N", "n")
    ∷ ("O", "o")
    ∷ ("P", "p")
    ∷ ("Q", "q")
    ∷ ("R", "r")
    ∷ ("S", "s")
    ∷ ("T", "t")
    ∷ ("U", "u")
    ∷ ("V", "v")
    ∷ ("W", "w")
    ∷ ("X", "x")
    ∷ ("Y", "y")
    ∷ ("Z", "z")
    ∷ []

lower_in : List (Char × Char) → Char → Char
lower_in [] c = c
lower_in ((u, l) ∷ t) c = if beq (code u) (code c) then l else lower_in t c

unfoldable pub lower_char : Char → Char
unfolding lower_in
lower_char c = lower_in lower_table c

-- `strings.ToLower`
unfoldable pub to_lower : String → String
unfolding lower_char
to_lower String.[] = ""
to_lower (String.◌∷◌ c s) = String.◌∷◌ (lower_char c) (to_lower s)

pub to_lower-append : (s t : String) → to_lower (s ⊕ t) ≡ to_lower s ⊕ to_lower t
unfolding to_lower
to_lower-append String.[] t = simp nil-append
to_lower-append (String.◌∷◌ c s) t = simp (cons-append, to_lower-append s t)

-- `strings.Split(s, sep)` for a separator of one character
unfoldable pub split_from : ℕ → String → String → List String
split_from sep cur String.[] = cur ∷ []
split_from sep cur (String.◌∷◌ c s) = elim (beq (code c) sep) [
  | true ↦ cur ∷ split_from sep "" s
  | false ↦ split_from sep (cur ⊕ single c) s
]

unfoldable pub split : String → ℕ → List String
unfolding split_from
split s sep = split_from sep "" s

-- `unicode.IsSpace`
unfoldable pub is_space : ℕ → Bool
is_space c =
    (leb 9 c && leb c 13)
    || beq c 0x20
    || beq c 0x85
    || beq c 0xa0
    || beq c 0x1680
    || (leb 0x2000 c && leb c 0x200a)
    || beq c 0x2028
    || beq c 0x2029
    || beq c 0x202f
    || beq c 0x205f
    || beq c 0x3000

unfoldable pub trim_left : String → String
unfolding is_space
trim_left String.[] = ""
trim_left (String.◌∷◌ c s) = if is_space (code c) then trim_left s else String.◌∷◌ c s

-- `strings.TrimRight` of spaces: a tail of spaces only is dropped
unfoldable pub cons_unless_blank : Char → String → String
unfolding is_space
cons_unless_blank c String.[] = if is_space (code c) then "" else single c
cons_unless_blank c (String.◌∷◌ d s) = String.◌∷◌ c (String.◌∷◌ d s)

unfoldable pub trim_right : String → String
unfolding cons_unless_blank
trim_right String.[] = ""
trim_right (String.◌∷◌ c s) = cons_unless_blank c (trim_right s)

-- `strings.TrimSpace`
unfoldable pub trim_space : String → String
unfolding trim_left trim_right
trim_space s = trim_right (trim_left s)

-- `strings.ReplaceAll(s, old, new)` for texts of one character
unfoldable pub replace_char : ℕ → Char → String → String
replace_char old new String.[] = ""
replace_char old new (String.◌∷◌ c s) =
    String.◌∷◌ (if beq (code c) old then new else c) (replace_char old new s)
