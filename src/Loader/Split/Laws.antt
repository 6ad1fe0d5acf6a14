-- ===== src/Loader/Split/Laws.antt =====
-- Bounds of the tokens of splitYamlDoc.
use rusi.Prelude.{
  ℕ, ◌+◌, ◌≤◌, ◌<◌, ◌≡◌, refl, ap, subst, inl, inr, Bool, false, ◌&&◌, none, some, List, [], ◌∷◌,
  ◌++◌, arith, Bool-cases, Option-cases, length, is_empty, length-append,
}
use rusi.Loader.Split.{take, yaml_separator, after_prefix, cut, index_byte, split_yaml_doc}

after_prefix-append : (p s after : List ℕ) → after_prefix p s ≡ some after → s ≡ p ++ after
unfolding after_prefix
after_prefix-append [] s after h = ground arith
after_prefix-append (p ∷ ps) [] after h = ground arith
after_prefix-append (p ∷ ps) (b ∷ bs) after h = ground (arith, h, after_prefix-append ps bs after)

-- What is cut stands around the separator.
pub cut-append :
    (separator s before after : List ℕ)
    → cut separator s ≡ some (before, after)
    → s ≡ before ++ (separator ++ after)
unfolding cut
cut-append separator [] before after h = elim (Option-cases (after_prefix separator [])) [
  | inl gone ↦ ground (arith, gone, h)
  | inr (r, found) ↦
      let e : [] ≡ before = ground (arith, found, h) in
      let f : r ≡ after = ground (arith, found, h) in
      rw (← e) (rw (← f) (after_prefix-append separator [] r found))
]
cut-append separator (b ∷ bs) before after h =
    elim (Option-cases (after_prefix separator (b ∷ bs))) [
      | inr (r, found) ↦
          let e : [] ≡ before = ground (arith, found, h) in
          let f : r ≡ after = ground (arith, found, h) in
          rw (← e) (rw (← f) (after_prefix-append separator (b ∷ bs) r found))
      | inl gone ↦ elim (Option-cases (cut separator bs)) [
        | inl none_left ↦ ground (arith, gone, none_left, h)
        | inr ((c, r), there) ↦
            let e : b ∷ c ≡ before = ground (arith, gone, there, h) in
            let f : r ≡ after = ground (arith, gone, there, h) in
            rw (← e) (rw (← f) (ap (λ l. b ∷ l) (cut-append separator bs c r there)))
      ]
    ]

index_byte-lt : (byte : ℕ) (s : List ℕ) (j : ℕ) → index_byte byte s ≡ some j → j < length s
unfolding index_byte
index_byte-lt byte [] j h = ground arith
index_byte-lt byte (b ∷ bs) j h = elim (Option-cases (index_byte byte bs)) [
  | inl gone ↦ ground (arith, gone, h)
  | inr (k, found) ↦ ground (arith, found, h, index_byte-lt byte bs k found)
]

take-length-append : (xs ys : List ℕ) → take (length xs) (xs ++ ys) ≡ xs
take-length-append [] [] = refl
take-length-append [] (y ∷ ys) = refl
take-length-append (x ∷ xs) ys = ap (λ l. x ∷ l) (take-length-append xs ys)

take-length : (xs : List ℕ) → take (length xs) xs ≡ xs
take-length [] = refl
take-length (x ∷ xs) = ap (λ l. x ∷ l) (take-length xs)

-- what a token that is found says of the bytes
pub record IsToken (content : List ℕ) (advance : ℕ) (token : List ℕ) : Type 0 where
  pub moves : 0 < advance
  pub inside : advance ≤ length content
  pub shorter : length token ≤ advance
  pub front : take (length token) content ≡ token

pos_length : (xs : List ℕ) → is_empty xs ≡ false → 0 < length xs
pos_length [] h = ground arith
pos_length (x ∷ xs) h = omega arith

cut_lengths :
    (content before after : List ℕ)
    → cut yaml_separator content ≡ some (before, after)
    → (length content ≡ length before + 4 + length after) × (take (length before) content ≡ before)
cut_lengths content before after h =
    let e = cut-append yaml_separator content before after h in
    (
      omega (
        arith,
        ap length e,
        length-append before (yaml_separator ++ after),
        length-append yaml_separator after,
      ),
      rw e (take-length-append before (yaml_separator ++ after)),
    )

-- A token is the front of the bytes; the scanner advances past it, by one byte at least, and not past
-- the end.
pub split_yaml_doc-IsToken :
    (content : List ℕ) (at_eof : Bool) (advance : ℕ) (token : List ℕ)
    → split_yaml_doc content at_eof ≡ (advance, some token)
    → IsToken content advance token
unfolding split_yaml_doc
split_yaml_doc-IsToken content at_eof advance token h =
    elim (Bool-cases (at_eof && is_empty content)) [
      | inl over ↦ absurd (ground (arith, over, h))
      | inr more ↦ elim (Option-cases (cut yaml_separator content)) [
        | inl gone ↦
            let e : content ≡ token = ground (arith, more, gone, h) in
            let a : advance ≡ length content = ground (arith, more, gone, h) in
            let some_byte : is_empty content ≡ false = ground (arith, more, gone, h) in
            let nonempty : 0 < length content = pos_length content some_byte in
            subst (λ t. IsToken content advance t) e
              (record {
                moves = omega (arith, a, nonempty);
                inside = omega (arith, a);
                shorter = omega (arith, a);
                front = take-length content;
              })
        | inr ((before, after), found) ↦
            let (size, front) = cut_lengths content before after found in
            let e : before ≡ token = ground (arith, more, found, h) in
            elim (Bool-cases (is_empty after)) [
              | inl last ↦
                  let a : advance ≡ length content = ground (arith, more, found, last, h) in
                  subst (λ t. IsToken content advance t) e
                    (record {
                      moves = omega (arith, a, size);
                      inside = omega (arith, a, size);
                      shorter = omega (arith, a, size);
                      front = front;
                    })
              | inr further ↦ elim (Option-cases (index_byte 10 after)) [
                | inl no_line ↦ absurd (ground (arith, more, found, further, no_line, h))
                | inr (j, line) ↦
                    let a : advance ≡ length before + 4 + j + 1 =
                      ground (arith, more, found, further, line, h) in
                    let b = index_byte-lt 10 after j line in
                    subst (λ t. IsToken content advance t) e
                      (record {
                        moves = omega (arith, a, size);
                        inside = omega (arith, a, b, size);
                        shorter = omega (arith, a, size);
                        front = front;
                      })
              ]
            ]
      ]
    ]

-- without a separator there is no token before the end of the text
pub split-none :
    (content : List ℕ)
    → cut yaml_separator content ≡ none
    → split_yaml_doc content false ≡ (0, none)
unfolding split_yaml_doc
split-none content h = ground (arith, h)
