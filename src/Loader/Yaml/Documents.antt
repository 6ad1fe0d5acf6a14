-- ===== src/Loader/Yaml/Documents.antt =====
-- Texts of several documents: what decodeYaml of pkg/custom-resource/components/loader/local.go makes of them.
use rusi.Prelude.{
  ℕ, zero, suc, ◌+◌, ◌<◌, String, ◌≡◌, refl, ap, ◌∙◌, subst, inl, inr, true, false, not, Option,
  none, some, List, [], ◌∷◌, ◌++◌, arith, ◌==◌, if◌then◌else◌, Bool-cases, Option-cases, length,
  is_empty, length-append, Error, Result, ok, err, Result-cases,
}
use rusi.Components.{Spec}
use rusi.Components.Uuid.{convert_metadata_items}
use rusi.Loader.Split.{take, drop, yaml_separator, after_prefix, cut, index_byte, split_yaml_doc}
use rusi.Loader.Split.Laws.{split-none}
use rusi.Loader.Yaml.{
  YamlComponent, eof, Scanner, reading, ended, scan_ended, scan, component_kind, decode, collect,
  decode_loop, decode_yaml, unmarshalled,
}
use rusi.Loader.Yaml.Ends.{take_all, resume, decode_loop-suc}

after_prefix-append_plain :
    (b : ℕ) (bs rest : List ℕ)
    → after_prefix yaml_separator (b ∷ bs) ≡ none
    → after_prefix yaml_separator (b ∷ (bs ++ (yaml_separator ++ rest))) ≡ none
unfolding after_prefix
after_prefix-append_plain b [] rest h = ground arith
after_prefix-append_plain b (x ∷ []) rest h = ground arith
after_prefix-append_plain b (x ∷ y ∷ []) rest h = ground arith
after_prefix-append_plain b (x ∷ y ∷ z ∷ bs) rest h = ground (arith, h)

cut_parts :
    (b : ℕ) (bs : List ℕ)
    → cut yaml_separator (b ∷ bs) ≡ none
    → (after_prefix yaml_separator (b ∷ bs) ≡ none) × (cut yaml_separator bs ≡ none)
unfolding cut
cut_parts b bs h = elim (Option-cases (after_prefix yaml_separator (b ∷ bs))) [
  | inr (r, found) ↦ absurd (ground (arith, found, h))
  | inl gone ↦ elim (Option-cases (cut yaml_separator bs)) [
    | inr ((c, r), there) ↦ absurd (ground (arith, gone, there, h))
    | inl left ↦ (gone, left)
  ]
]

after_prefix-separator :
    (rest : List ℕ) → after_prefix yaml_separator (yaml_separator ++ rest) ≡ some rest
unfolding after_prefix
after_prefix-separator rest = refl

-- The first separator after a text without one stands where it was written.
cut-append_plain :
    (d rest : List ℕ)
    → cut yaml_separator d ≡ none
    → cut yaml_separator (d ++ (yaml_separator ++ rest)) ≡ some (d, rest)
unfolding cut
cut-append_plain [] rest h = ground (arith, after_prefix-separator rest)
cut-append_plain (b ∷ bs) rest h =
    let (gone, left) = cut_parts b bs h in
    ground (arith, after_prefix-append_plain b bs rest gone, cut-append_plain bs rest left)

-- Documents with a line `---` after each but the last.
unfoldable pub written : List (List ℕ) → List ℕ
written [] = []
written (d ∷ []) = d
written (d ∷ e ∷ ds) = d ++ (yaml_separator ++ (10 ∷ written (e ∷ ds)))

-- No document holds the separator, and the last has a byte.
abbrev pub ArePlain : List (List ℕ) → Type 0
ArePlain [] = Unit {0}
ArePlain (d ∷ []) = (cut yaml_separator d ≡ none) × (is_empty d ≡ false)
ArePlain (d ∷ e ∷ ds) = (cut yaml_separator d ≡ none) × ArePlain (e ∷ ds)

drop-append : (xs : List ℕ) (ys : List ℕ) → drop (length xs) (xs ++ ys) ≡ ys
drop-append [] [] = refl
drop-append [] (y ∷ ys) = refl
drop-append (x ∷ xs) ys = drop-append xs ys

drop_zero : (xs : List ℕ) → drop 0 xs ≡ xs
drop_zero [] = refl
drop_zero (x ∷ xs) = refl

drop_past :
    (n : ℕ) (d rest : List ℕ)
    → n ≡ length d + 5
    → drop n (d ++ (yaml_separator ++ (10 ∷ rest))) ≡ rest
drop_past zero d rest h = absurd (omega (arith, h))
drop_past (suc n) [] rest h =
    let e : 4 ≡ n = omega (arith, h) in
    subst (λ m. drop (suc m) (yaml_separator ++ (10 ∷ rest)) ≡ rest) e (drop_zero rest)
drop_past (suc n) (x ∷ xs) rest h = drop_past n xs rest (omega (arith, h))

drop_last : (d : List ℕ) → drop (length d) d ≡ []
drop_last [] = refl
drop_last (x ∷ xs) = drop_last xs

split_next :
    (d rest : List ℕ)
    → cut yaml_separator d ≡ none
    → split_yaml_doc (d ++ (yaml_separator ++ (10 ∷ rest))) false ≡ (length d + 4 + 0 + 1, some d)
unfolding split_yaml_doc index_byte
split_next d rest h = ground (arith, cut-append_plain d (10 ∷ rest) h)

split_last :
    (d : List ℕ)
    → cut yaml_separator d ≡ none
    → is_empty d ≡ false
    → split_yaml_doc d true ≡ (length d, some d)
unfolding split_yaml_doc
split_last d h some_byte = ground (arith, h, some_byte)

scan_next :
    (max : ℕ) (d rest : List ℕ)
    → cut yaml_separator d ≡ none
    → length (d ++ (yaml_separator ++ (10 ∷ rest))) < max
    → scan max (reading (d ++ (yaml_separator ++ (10 ∷ rest)))) ≡ (some d, reading rest)
unfolding scan
scan_next max d rest h short =
    let text = d ++ (yaml_separator ++ (10 ∷ rest)) in
    let whole : take max text ≡ text = take_all max text (omega (arith, short)) in
    let found : split_yaml_doc (take max text) false ≡ (length d + 4 + 0 + 1, some d) =
      ap (λ t. split_yaml_doc t false) whole ∙ split_next d rest h in
    ground (arith, found, drop_past (length d + 4 + 0 + 1) d rest (omega arith))

scan_last :
    (max : ℕ) (d : List ℕ)
    → cut yaml_separator d ≡ none
    → is_empty d ≡ false
    → length d < max
    → scan max (reading d) ≡ (some d, ended eof [])
unfolding scan scan_ended
scan_last max d h some_byte short =
    let whole : take max d ≡ d = take_all max d (omega (arith, short)) in
    ground (arith, whole, split-none d h, split_last d h some_byte, drop_last d, short)

scan_over : (max : ℕ) → scan max (ended eof []) ≡ (none, ended eof [])
unfolding scan scan_ended split_yaml_doc
scan_over max = refl

scan_empty : (max : ℕ) → 0 < max → scan max (reading []) ≡ (none, ended eof [])
unfolding scan scan_ended split_yaml_doc cut after_prefix
scan_empty zero h = absurd (omega arith)
scan_empty (suc max) h = ground arith

module _ (unmarshal : List ℕ → Result YamlComponent) (new_uuid : ℕ → String) where
  -- what the documents say, one after the other
  pub decode_documents :
      ℕ → List (List ℕ) → List Spec → List Error → Option (List Spec × List Error)
  decode_documents n [] list errs = some (list, errs)
  decode_documents n (d ∷ ds) list errs = elim (unmarshal d) [
    | err e ↦ decode_documents n ds list (errs ++ e ∷ [])
    | ok comp ↦
        if not (comp.kind == component_kind)
        then decode_documents n ds list errs
        else elim (convert_metadata_items new_uuid n comp.metadata []) [
          | none ↦ none
          | some (properties, n') ↦
              let spec : Spec = record {
                name = comp.name;
                type = comp.type;
                version = comp.version;
                metadata = some properties;
                scopes = comp.scopes;
              } in
              decode_documents n' ds (list ++ spec ∷ []) errs
        ]
  ]

  decode_documents-nil :
      (n : ℕ) (list : List Spec) (errs : List Error)
      → some (list, errs) ≡ decode_documents n [] list errs
  unfolding decode_documents
  decode_documents-nil n list errs = refl

  module _ (max : ℕ) where
    document_round :
        (fuel n : ℕ) (d : List ℕ) (ds : List (List ℕ)) (s : Scanner) (list : List Spec)
        (errs : List Error)
        → ((m : ℕ) (l : List Spec) (e : List Error)
            → decode_loop unmarshal new_uuid max fuel m s l e ≡ decode_documents m ds l e)
        → resume unmarshal new_uuid max fuel (
            collect unmarshal new_uuid max
              (unmarshalled unmarshal new_uuid max (unmarshal d))
              n
              s
              list
              errs)
          ≡ decode_documents n (d ∷ ds) list errs
    unfolding decode_documents collect
    document_round fuel n d ds s list errs h = elim (Result-cases (unmarshal d)) [
      | inr (e, bad) ↦ ground (arith, bad, h n list (errs ++ e ∷ []))
      | inl (c, good) ↦ elim (Bool-cases (c.kind == component_kind)) [
        | inr other ↦ ground (arith, good, other, h n list errs)
        | inl same ↦ elim (Option-cases (convert_metadata_items new_uuid n c.metadata [])) [
          | inl gone ↦ ground (arith, good, same, gone)
          | inr ((properties, m), done) ↦
              let spec : Spec = record {
                name = c.name;
                type = c.type;
                version = c.version;
                metadata = some properties;
                scopes = c.scopes;
              } in
              ground (arith, good, same, done, h m (list ++ spec ∷ []) errs)
        ]
      ]
    ]

    decode_token :
        (s s' : Scanner) (d : List ℕ)
        → scan max s ≡ (some d, s')
        → decode unmarshal new_uuid max s ≡ (unmarshalled unmarshal new_uuid max (unmarshal d), s')
    unfolding decode
    decode_token s s' d h = ground (arith, h)

    decode_no_token :
        (fuel n : ℕ) (s : Scanner) (list : List Spec) (errs : List Error)
        → scan max s ≡ (none, ended eof [])
        → decode_loop unmarshal new_uuid max (suc fuel) n s list errs ≡ some (list, errs)
    unfolding decode collect
    decode_no_token fuel n s list errs h =
        decode_loop-suc unmarshal new_uuid max fuel n s list errs ∙ ground (arith, h)

    decode_next :
        (fuel n : ℕ) (s s' : Scanner) (d : List ℕ) (ds : List (List ℕ)) (list : List Spec)
        (errs : List Error)
        → scan max s ≡ (some d, s')
        → ((m : ℕ) (l : List Spec) (e : List Error)
            → decode_loop unmarshal new_uuid max fuel m s' l e ≡ decode_documents m ds l e)
        → decode_loop unmarshal new_uuid max (suc fuel) n s list errs
          ≡ decode_documents n (d ∷ ds) list errs
    decode_next fuel n s s' d ds list errs h more =
        decode_loop-suc unmarshal new_uuid max fuel n s list errs
        ∙ rw (decode_token s s' d h) (document_round fuel n d ds s' list errs more)

    decode_loop_documents :
        (fuel n : ℕ) (docs : List (List ℕ)) (list : List Spec) (errs : List Error)
        → ArePlain docs
        → length (written docs) < max
        → length (written docs) + 2 < fuel
        → decode_loop unmarshal new_uuid max fuel n (reading (written docs)) list errs
          ≡ decode_documents n docs list errs
    unfolding written
    decode_loop_documents zero n docs list errs plain short enough = absurd (omega arith)
    decode_loop_documents (suc fuel) n [] list errs plain short enough =
        decode_no_token fuel n (reading []) list errs (scan_empty max short)
        ∙ decode_documents-nil n list errs
    decode_loop_documents (suc zero) n (d ∷ []) list errs plain short enough =
        absurd (omega (arith, enough))
    decode_loop_documents (suc (suc fuel)) n (d ∷ []) list errs (plain, some_byte) short enough =
        decode_next (suc fuel) n (reading d) (ended eof []) d [] list errs
          (scan_last max d plain some_byte short)
          (λ m l e.
            decode_no_token fuel m (ended eof []) l e (scan_over max) ∙ decode_documents-nil m l e)
    decode_loop_documents (suc fuel) n (d ∷ e ∷ ds) list errs (plain, others) short enough =
        let rest = written (e ∷ ds) in
        let size = length-append d (yaml_separator ++ (10 ∷ rest)) in
        decode_next fuel n (reading (d ++ (yaml_separator ++ (10 ∷ rest)))) (reading rest) d
          (e ∷ ds) list errs (scan_next max d rest plain short)
          (λ m l x.
            decode_loop_documents fuel m (e ∷ ds) l x others (omega (arith, size, short))
              (omega (arith, size, enough)))

    -- Documents without the separator, written one after the other with a line `---` between them, the last
    -- of them not empty and fewer than `max` bytes in all, are decoded as each of them says, in their
    -- order.
    pub decode_yaml-written :
        (docs : List (List ℕ))
        → ArePlain docs
        → length (written docs) < max
        → decode_yaml unmarshal new_uuid max (written docs) ≡ decode_documents 0 docs [] []
    unfolding decode_yaml
    decode_yaml-written docs plain short =
        decode_loop_documents (length (written docs) + 3) 0 docs [] [] plain short (omega arith)

    lost_scan :
        (content before after : List ℕ)
        → cut yaml_separator content ≡ some (before, after)
        → is_empty after ≡ false
        → index_byte 10 after ≡ none
        → length content < max
        → scan max (reading content) ≡ (none, ended eof [])
    unfolding scan scan_ended split_yaml_doc
    lost_scan content before after found more no_line short =
        let whole : take max content ≡ content = take_all max content (omega (arith, short)) in
        ground (arith, whole, found, more, no_line, short)

    -- Where the rest after the first separator has a byte and no line end, nothing is decoded, not even
    -- what stands in front of the separator, and no error is reported.
    pub decode_yaml-lost :
        (content before after : List ℕ)
        → cut yaml_separator content ≡ some (before, after)
        → is_empty after ≡ false
        → index_byte 10 after ≡ none
        → length content < max
        → decode_yaml unmarshal new_uuid max content ≡ some ([], [])
    unfolding decode_yaml
    decode_yaml-lost content before after found more no_line short =
        let enough : suc (length content + 2) ≡ length content + 3 = omega arith in
        subst
          (λ fuel.
            decode_loop unmarshal new_uuid max fuel 0 (reading content) [] [] ≡ some ([], []))
          enough
          (decode_no_token (length content + 2) 0 (reading content) [] []
            (lost_scan content before after found more no_line short))
