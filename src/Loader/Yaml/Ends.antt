-- ===== src/Loader/Yaml/Ends.antt =====
-- When the loop of decodeYaml ends.
use rusi.Prelude.{
  ℕ, zero, suc, ◌+◌, ◌-◌, ◌≤◌, ◌<◌, String, ◌≡◌, refl, ap, ◌∙◌, subst, ◌≢◌, inl, inr, Bool, true,
  false, Option, none, some, List, [], ◌∷◌, ◌++◌, arith, ◌==◌, Bool-cases, Option-cases, length,
  Error, Result, ok, err,
}
use rusi.Components.{Spec}
use rusi.Components.Uuid.{count_open, convert_metadata_items}
use rusi.Components.Uuid.Laws.{convert_metadata_items-total}
use rusi.Loader.Split.{take, drop, yaml_separator, cut, split_yaml_doc}
use rusi.Loader.Split.Laws.{IsToken, split_yaml_doc-IsToken, split-none}
use rusi.Loader.Yaml.{
  YamlComponent, eof, too_long, Scanner, reading, ended, scan_ended, scan, Decoded, document,
  failed, finished, component_kind, scanner_error, Round, result, again, endless, decode, collect,
  decode_loop, decode_yaml, unmarshalled,
}

pub take_all : {A : Type 0} (n : ℕ) (xs : List A) → length xs ≤ n → take n xs ≡ xs
take_all zero [] h = refl
take_all (suc n) [] h = refl
take_all zero (x ∷ xs) h = absurd (omega arith)
take_all (suc n) (x ∷ xs) h = ap (λ l. x ∷ l) (take_all n xs (omega (arith, h)))

length-drop : {A : Type 0} (n : ℕ) (xs : List A) → length (drop n xs) ≡ length xs - n
length-drop zero [] = refl
length-drop (suc n) [] = omega arith
length-drop zero (x ∷ xs) = omega arith
length-drop (suc n) (x ∷ xs) = omega (arith, length-drop n xs)

-- the rounds that a scanner has left, where its text is read to the end
abbrev pub left : Scanner → ℕ
left (reading rest) = length rest + 2
left (ended _ held) = length held + 1

-- the scanner does not give up for a token that is too long
abbrev pub Fits : ℕ → Scanner → Type 0
Fits max (reading rest) = length rest < max
Fits max (ended eof _) = Unit {0}
Fits max (ended too_long _) = ⊥

pub record Scans (max : ℕ) (s s' : Scanner) : Type 0 where
  pub fits : Fits max s'
  pub fewer : left s' < left s

-- a call of the split function that finds a token
found_IsToken :
    (content : List ℕ) (at_eof : Bool) (token : List ℕ)
    → (split_yaml_doc content at_eof).1 ≡ some token
    → IsToken content (split_yaml_doc content at_eof).0 token
found_IsToken content at_eof token h =
    let advance = (split_yaml_doc content at_eof).0 in
    split_yaml_doc-IsToken content at_eof advance token (ap (λ o. (advance, o)) h)

drop_shorter :
    (content token : List ℕ) (advance : ℕ)
    → IsToken content advance token
    → length (drop advance content) < length content
drop_shorter content token advance h = omega (arith, length-drop advance content, h.moves, h.inside)

scan_ended-Scans :
    (max : ℕ) (held t : List ℕ) (s' : Scanner)
    → scan_ended eof held ≡ (some t, s')
    → Scans max (ended eof held) s'
unfolding scan_ended
scan_ended-Scans max held t s' h = elim (Option-cases (split_yaml_doc held true).1) [
  | inl gone ↦ absurd (ground (arith, gone, h))
  | inr (token, found) ↦
      let rest = drop (split_yaml_doc held true).0 held in
      let e : ended eof rest ≡ s' = ground (arith, found, h) in
      let shorter =
        drop_shorter held token (split_yaml_doc held true).0
          (found_IsToken held true token found) in
      subst (Scans max (ended eof held)) e (record { fits = tt; fewer = omega (arith, shorter) })
]

scan-Scans :
    (max : ℕ) (s s' : Scanner) (t : List ℕ)
    → Fits max s
    → scan max s ≡ (some t, s')
    → Scans max s s'
unfolding scan
scan-Scans max (ended eof held) s' t fits h = scan_ended-Scans max held t s' h
scan-Scans max (ended too_long held) s' t fits h = absurd fits
scan-Scans max (reading rest) s' t fits h =
    let whole : take max rest ≡ rest = take_all max rest (omega (arith, fits)) in
    elim (Option-cases (split_yaml_doc (take max rest) false).1) [
      | inr (token, found) ↦
          let advance = (split_yaml_doc (take max rest) false).0 in
          let e : reading (drop advance rest) ≡ s' = ground (arith, found, h) in
          let there =
            subst (λ c. IsToken c advance token) whole
              (found_IsToken (take max rest) false token found) in
          let shorter = drop_shorter rest token advance there in
          subst (Scans max (reading rest)) e
            (record { fits = omega (arith, shorter, fits); fewer = omega (arith, shorter) })
      | inl gone ↦
          let at_end : scan_ended eof rest ≡ (some t, s') = ground (arith, gone, h, fits) in
          let last = scan_ended-Scans max rest t s' at_end in
          record { fits = last.fits; fewer = omega (arith, last.fewer) }
    ]

-- where no token is found, a scanner that fits has come to the end of the text
scan-finished :
    (max : ℕ) (s : Scanner)
    → Fits max s
    → (scan max s).0 ≡ none
    → scanner_error (scan max s).1 ≡ finished
unfolding scan scan_ended
scan-finished max (ended eof held) fits h = ground (arith, h)
scan-finished max (ended too_long held) fits h = absurd fits
scan-finished max (reading rest) fits h = ground (arith, h, fits)

module _ (unmarshal : List ℕ → Result YamlComponent) (new_uuid : ℕ → String) (max : ℕ) where
  unmarshalled-ne-finished :
      (r : Result YamlComponent) → unmarshalled unmarshal new_uuid max r ≢ finished
  unmarshalled-ne-finished (ok c) e = cc
  unmarshalled-ne-finished (err x) e = cc

  abbrev pub resume : ℕ → Round → Option (List Spec × List Error)
  resume fuel (result list errs) = some (list, errs)
  resume fuel (again n s list errs) = decode_loop unmarshal new_uuid max fuel n s list errs
  resume fuel endless = none

  pub decode_loop-suc :
      (fuel n : ℕ) (s : Scanner) (list : List Spec) (errs : List Error)
      → (let d = decode unmarshal new_uuid max s in
          decode_loop unmarshal new_uuid max (suc fuel) n s list errs
          ≡ resume fuel (collect unmarshal new_uuid max d.0 n d.1 list errs))
  unfolding decode_loop
  decode_loop-suc fuel n s list errs = go (
      collect unmarshal new_uuid max (decode unmarshal new_uuid max s).0 n
        (decode unmarshal new_uuid max s).1 list errs)
    where
      go :
          (r : Round)
          → elim r as (λ _. Option (List Spec × List Error)) [
            | result list' errs' ↦ some (list', errs')
            | again n' s' list' errs' ↦ decode_loop unmarshal new_uuid max fuel n' s' list' errs'
            | endless ↦ none
          ]
            ≡ resume fuel r
      go (result l e) = refl
      go (again m s' l e) = refl
      go endless = refl

  -- a loop that goes nowhere after a round that is not the last
  resume-none :
      (fuel n : ℕ) (d : Decoded) (s : Scanner) (list : List Spec) (errs : List Error)
      → d ≢ finished
      → ((m : ℕ) (l : List Spec) (e : List Error)
          → decode_loop unmarshal new_uuid max fuel m s l e ≡ none)
      → resume fuel (collect unmarshal new_uuid max d n s list errs) ≡ none
  unfolding collect
  resume-none fuel n finished s list errs more h = absurd (more refl)
  resume-none fuel n (failed x) s list errs more h = h n list (errs ++ x ∷ [])
  resume-none fuel n (document c) s list errs more h =
      elim (Bool-cases (c.kind == component_kind)) [
        | inr other ↦ ground (arith, other, h n list errs)
        | inl same ↦ elim (Option-cases (convert_metadata_items new_uuid n c.metadata [])) [
          | inl gone ↦ ground (arith, same, gone)
          | inr ((properties, m), done) ↦
              let spec : Spec = record {
                name = c.name;
                type = c.type;
                version = c.version;
                metadata = some properties;
                scopes = c.scopes;
              } in
              ground (arith, same, done, h m (list ++ spec ∷ []) errs)
        ]
      ]

  ended_decode :
      (held : List ℕ)
      → (held' : List ℕ) × ((decode unmarshal new_uuid max (ended too_long held)).1
          ≡ ended too_long held')
        × ((decode unmarshal new_uuid max (ended too_long held)).0 ≢ finished)
  unfolding decode scan scan_ended
  ended_decode held = elim (Option-cases (split_yaml_doc held true).1) [
    | inl gone ↦ ([], ground (arith, gone), ground (arith, gone))
    | inr (token, found) ↦ (
      drop (split_yaml_doc held true).0 held,
      ground (arith, found),
      ground (arith, found, unmarshalled-ne-finished (unmarshal token)),
    )
  ]

  -- a scanner whose token was too long never ends: each round reports the error again
  ended_too_long :
      (fuel n : ℕ) (held : List ℕ) (list : List Spec) (errs : List Error)
      → decode_loop unmarshal new_uuid max fuel n (ended too_long held) list errs ≡ none
  unfolding decode_loop
  ended_too_long zero n held list errs = refl
  ended_too_long (suc fuel) n held list errs =
      let s = ended too_long held in
      let (held', e, more) = ended_decode held in
      let stuck : (m : ℕ) (l : List Spec) (x : List Error)
          → decode_loop unmarshal new_uuid max fuel m (decode unmarshal new_uuid max s).1 l x
            ≡ none =
        λ m l x. rw e (ended_too_long fuel m held' l x) in
      decode_loop-suc fuel n s list errs
      ∙ resume-none fuel n (decode unmarshal new_uuid max s).0 (decode unmarshal new_uuid max s).1
          list errs more stuck

  reading_decode :
      (content : List ℕ)
      → max ≤ length content
      → cut yaml_separator (take max content) ≡ none
      → ((decode unmarshal new_uuid max (reading content)).1 ≡ ended too_long (take max content))
        × ((decode unmarshal new_uuid max (reading content)).0 ≢ finished)
  unfolding decode scan
  reading_decode content long whole =
      let nothing = split-none (take max content) whole in
      (ground (arith, nothing, long), ground (arith, nothing, long))

  last_round :
      (fuel n : ℕ) (s : Scanner) (list : List Spec) (errs : List Error)
      → Fits max s
      → (scan max s).0 ≡ none
      → (let d = decode unmarshal new_uuid max s in
          resume fuel (collect unmarshal new_uuid max d.0 n d.1 list errs) ≡ some (list, errs))
  unfolding decode collect
  last_round fuel n s list errs fits gone = ground (arith, gone, scan-finished max s fits gone)

  next_round :
      (s : Scanner) (token : List ℕ)
      → Fits max s
      → (scan max s).0 ≡ some token
      → ((decode unmarshal new_uuid max s).0 ≢ finished)
        × Fits max (decode unmarshal new_uuid max s).1
        × (left (decode unmarshal new_uuid max s).1 < left s)
  unfolding decode
  next_round s token fits found =
      let scans =
        scan-Scans max s (scan max s).1 token fits (ap (λ o. (o, (scan max s).1)) found) in
      (ground (arith, found, unmarshalled-ne-finished (unmarshal token)), scans.fits, scans.fewer)

  -- Where the first `max` bytes of a text of `max` bytes or more hold no separator, the loop never ends.
  pub decode_loop_endless :
      (fuel n : ℕ) (content : List ℕ) (list : List Spec) (errs : List Error)
      → max ≤ length content
      → cut yaml_separator (take max content) ≡ none
      → decode_loop unmarshal new_uuid max fuel n (reading content) list errs ≡ none
  unfolding decode_loop
  decode_loop_endless zero n content list errs long whole = refl
  decode_loop_endless (suc fuel) n content list errs long whole =
      let (e, more) = reading_decode content long whole in
      let stuck : (m : ℕ) (l : List Spec) (x : List Error)
          → decode_loop unmarshal new_uuid max fuel m
              (decode unmarshal new_uuid max (reading content)).1 l x
            ≡ none =
        λ m l x. rw e (ended_too_long fuel m (take max content) l x) in
      decode_loop-suc fuel n (reading content) list errs
      ∙ resume-none fuel n (decode unmarshal new_uuid max (reading content)).0
          (decode unmarshal new_uuid max (reading content)).1 list errs more stuck

  module _ (plain : (n : ℕ) → count_open (new_uuid n) ≡ 0) where
    collect-again :
        (d : Decoded) (n : ℕ) (s : Scanner) (list : List Spec) (errs : List Error)
        → d ≢ finished
        → (m : ℕ) × (l : List Spec) × (e : List Error) × (collect unmarshal new_uuid max d n s list
              errs
            ≡ again m s l e)
    unfolding collect
    collect-again finished n s list errs more = absurd (more refl)
    collect-again (failed x) n s list errs more = (n, list, errs ++ x ∷ [], refl)
    collect-again (document c) n s list errs more = elim (Bool-cases (c.kind == component_kind)) [
      | inr other ↦ (n, list, errs, ground (arith, other))
      | inl same ↦
          let (properties, m, done, _) =
            convert_metadata_items-total new_uuid plain n c.metadata [] tt in
          let spec : Spec = record {
            name = c.name;
            type = c.type;
            version = c.version;
            metadata = some properties;
            scopes = c.scopes;
          } in
          (m, list ++ spec ∷ [], errs, ground (arith, same, done))
    ]

    decode_loop-total :
        (fuel n : ℕ) (s : Scanner) (list : List Spec) (errs : List Error)
        → Fits max s
        → left s < fuel
        → (r : List Spec × List Error) × (decode_loop unmarshal new_uuid max fuel n s list errs
            ≡ some r)
    decode_loop-total zero n s list errs fits enough = absurd (omega arith)
    decode_loop-total (suc fuel) n s list errs fits enough = elim (Option-cases (scan max s).0) [
      | inl gone ↦ (
        (list, errs),
        decode_loop-suc fuel n s list errs ∙ last_round fuel n s list errs fits gone,
      )
      | inr (token, found) ↦
          let (more, fits', fewer) = next_round s token fits found in
          let d = decode unmarshal new_uuid max s in
          let (m, l, e, goes_on) = collect-again d.0 n d.1 list errs more in
          let (r, ends) = decode_loop-total fuel m d.1 l e fits' (omega (arith, fewer, enough)) in
          (r, decode_loop-suc fuel n s list errs ∙ rw goes_on ends)
    ]

    -- A text of fewer than `max` bytes is decoded: the loop ends, whatever the text and the decoder.
    pub decode_yaml-total :
        (content : List ℕ)
        → length content < max
        → (r : List Spec × List Error) × (decode_yaml unmarshal new_uuid max content ≡ some r)
    unfolding decode_yaml
    decode_yaml-total content short =
        decode_loop-total (length content + 3) 0 (reading content) [] [] short (omega arith)
