-- ===== src/Injector/EnvString/RoundTrip.antt =====
-- Reading back environment variables that are written as "A=1,B=2".
use Prim.Native.Char.{Char, code}
use text.Mathlib.TextLemmas
use rusi.Prelude.{ℕ, String, ◌≡◌, refl, ap, ◌∙◌, ◌≢◌, false, List, [], ◌∷◌, arith, All}
use rusi.Prelude.Text.{◌⊕◌, single, split, trim_space}
use rusi.Prelude.Text.{split_from, is_space, trim_right}
use rusi.Injector.Kube.{EnvVar}
use rusi.Injector.EnvString.{parse_env_string, parse_pairs}

-- no comma, no equals sign and no space
abbrev pub IsPlain : String → Type 0
IsPlain String.[] = Unit {0}
IsPlain (String.◌∷◌ c s) =
    (code c ≢ b',') × (code c ≢ b'=') × (is_space (code c) ≡ false) × IsPlain s

abbrev pub write_pair : EnvVar → String
write_pair e = e.name ⊕ String.◌∷◌ "=" e.value

abbrev pub write_pairs : List EnvVar → String
write_pairs [] = ""
write_pairs (e ∷ []) = write_pair e
write_pairs (e ∷ f ∷ rest) = write_pair e ⊕ String.◌∷◌ "," (write_pairs (f ∷ rest))

abbrev Lacks : ℕ → String → Type 0
Lacks sep String.[] = Unit {0}
Lacks sep (String.◌∷◌ c s) = (code c ≢ sep) × Lacks sep s

snoc : (cur s : String) (c : Char) → (cur ⊕ single c) ⊕ s ≡ cur ⊕ String.◌∷◌ c s
snoc cur s c = simp (TextLemmas.append_assoc, TextLemmas.cons-append, TextLemmas.nil-append)

split_from_all : (sep : ℕ) (cur s : String) → Lacks sep s → split_from sep cur s ≡ (cur ⊕ s) ∷ []
unfolding split_from
split_from_all sep cur String.[] h = rw TextLemmas.append-nil
split_from_all sep cur (String.◌∷◌ c s) h =
    ground (arith, split_from_all sep (cur ⊕ single c) s h.1, snoc cur s c)

split_from_at :
    (sep : ℕ) (cur p : String) (d : Char) (rest : String)
    → Lacks sep p
    → code d ≡ sep
    → split_from sep cur (p ⊕ String.◌∷◌ d rest) ≡ (cur ⊕ p) ∷ split_from sep "" rest
unfolding split_from
split_from_at sep cur String.[] d rest h e =
    simp (TextLemmas.append-nil, TextLemmas.nil-append) (ground arith)
split_from_at sep cur (String.◌∷◌ c p) d rest h e =
    simp TextLemmas.cons-append
      (ground (arith, split_from_at sep (cur ⊕ single c) p d rest h.1, snoc cur p c))

abbrev NoSpace : String → Type 0
NoSpace String.[] = Unit {0}
NoSpace (String.◌∷◌ c s) = (is_space (code c) ≡ false) × NoSpace s

NoSpace-append : (s t : String) → NoSpace s → NoSpace t → NoSpace (s ⊕ t)
NoSpace-append String.[] t h k = simp TextLemmas.nil-append k
NoSpace-append (String.◌∷◌ c s) t h k = simp TextLemmas.cons-append (h.0, NoSpace-append s t h.1 k)

Lacks-append : (sep : ℕ) (s t : String) → Lacks sep s → Lacks sep t → Lacks sep (s ⊕ t)
Lacks-append sep String.[] t h k = simp TextLemmas.nil-append k
Lacks-append sep (String.◌∷◌ c s) t h k =
    simp TextLemmas.cons-append (h.0, Lacks-append sep s t h.1 k)

trim_right_of_NoSpace : (s : String) → NoSpace s → trim_right s ≡ s
unfolding trim_right
trim_right_of_NoSpace String.[] h = refl
trim_right_of_NoSpace (String.◌∷◌ c String.[]) h = rw h.0
trim_right_of_NoSpace (String.◌∷◌ c (String.◌∷◌ d s)) h =
    rw (trim_right_of_NoSpace (String.◌∷◌ d s) h.1, trim_right)

trim_space_of_NoSpace : (s : String) → NoSpace s → trim_space s ≡ s
unfolding trim_space
trim_space_of_NoSpace String.[] h = refl
trim_space_of_NoSpace (String.◌∷◌ c s) h =
    ground (arith, h.0, trim_right_of_NoSpace (String.◌∷◌ c s) h)

IsPlain-parts : (s : String) → IsPlain s → Lacks b',' s × Lacks b'=' s × NoSpace s
IsPlain-parts String.[] h = (tt, tt, tt)
IsPlain-parts (String.◌∷◌ c s) h =
    let (commas, equals, spaces) = IsPlain-parts s h.3 in
    ((h.0, commas), (h.1, equals), (h.2, spaces))

abbrev pub IsPlainVar : EnvVar → Type 0
IsPlainVar e = IsPlain e.name × IsPlain e.value

write_pair-Lacks : (e : EnvVar) → IsPlainVar e → Lacks b',' (write_pair e) × NoSpace (write_pair e)
unfolding is_space
write_pair-Lacks e h =
    let (commas, _, spaces) = IsPlain-parts e.name h.0 in
    let (commas', _, spaces') = IsPlain-parts e.value h.1 in
    (
      Lacks-append b',' e.name (String.◌∷◌ "=" e.value) commas (omega arith, commas'),
      NoSpace-append e.name (String.◌∷◌ "=" e.value) spaces (refl, spaces'),
    )

split_pair :
    (e : EnvVar) → IsPlainVar e → split (trim_space (write_pair e)) b'=' ≡ e.name ∷ e.value ∷ []
unfolding split
split_pair e h =
    let (_, equals, _) = IsPlain-parts e.name h.0 in
    let (_, equals', _) = IsPlain-parts e.value h.1 in
    rw (trim_space_of_NoSpace (write_pair e) (write_pair-Lacks e h).1) (
      rw (split_from_at b'=' "" e.name "=" e.value equals refl)
        (rw (split_from_all b'=' "" e.value equals') (simp TextLemmas.nil-append)))

parse_pair :
    (e : EnvVar) (rest : List String)
    → IsPlainVar e
    → parse_pairs (write_pair e ∷ rest) ≡ e ∷ parse_pairs rest
unfolding parse_pairs
parse_pair e rest h = rw (split_pair e h)

-- Variables whose names and values hold no comma, no equals sign and no space are read back as they
-- were written.
pub parse_env_string-write_pairs :
    (vars : List EnvVar) → All IsPlainVar vars → parse_env_string (write_pairs vars) ≡ vars
unfolding parse_env_string
parse_env_string-write_pairs [] h = refl
parse_env_string-write_pairs (e ∷ []) h =
    rw (split_from_all b',' "" (write_pair e) (write_pair-Lacks e h.0).0)
      (rw TextLemmas.nil-append (parse_pair e [] h.0))
parse_env_string-write_pairs (e ∷ f ∷ rest) h =
    rw
      (split_from_at b',' "" (write_pair e) "," (write_pairs (f ∷ rest)) (write_pair-Lacks e h.0).0
        refl)
      (rw TextLemmas.nil-append (
        parse_pair e (split_from b',' "" (write_pairs (f ∷ rest))) h.0
        ∙ ap (λ l. e ∷ l) (parse_env_string-write_pairs (f ∷ rest) h.1)))
