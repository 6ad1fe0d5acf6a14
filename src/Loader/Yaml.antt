-- ===== src/Loader/Yaml.antt =====
-- The loading of components from files: pkg/custom-resource/components/loader/local.go. The decoder of
-- YAML, the files, the environment and the random UUIDs are parameters.
pub mod Ends
pub mod Documents
pub mod Files
use rusi.Prelude.{
  ℕ, zero, suc, ◌+◌, ◌-◌, ◌*◌, ◌/◌, ◌%◌, ◌^◌, ◌≤◌, ◌<◌, String, ◌≡◌, refl, sym, ap, ◌∙◌, subst, ◌≢◌,
  ◌↔◌, ◌⊎◌, inl, inr, Bool, true, false, not, ◌&&◌, ◌||◌, Option, none, some, List, [], ◌∷◌, ◌++◌,
  map, append_assoc, append-nil, arith, ◌==◌, eq_iff, eq_refl, ltb, leb, beq, if◌then◌else◌,
  Bool-cases, Option-cases, length, is_empty, any, length-append, any-append_right, All, All-append,
  Error, Result, ok, err, ◌>>=◌, ◌>>◌, fail_if, Result-cases, >>=-eq-ok,
}
use rusi.Prelude.Int.{ℤ, pos, negsuc, pos_part, neg_part, neg, ltb_ℤ, IsSigned, to_uint64, to_int64}
use rusi.Prelude.Dict.{
  Dict, lookup, insert, delete, lookup-insert, lookup-delete, lookup-empty, dict_laws, get,
}
use rusi.Prelude.Text.{◌⊕◌, single, to_lower, to_lower-append, split, trim_space, replace_char}
use rusi.Prelude.Number.{parse_uint64, parse_int32, parse_int32-IsSigned, parse_uint64-lt, itoa}
use rusi.Components.{Spec}
use rusi.Components.Uuid.{convert_metadata_items}
use rusi.Loader.Split.{take, drop, split_yaml_doc}

pub record YamlComponent : Type 0 where
  pub kind : String
  pub name : String
  pub type : String
  pub version : String
  -- names and values
  pub metadata : List (String × String)
  pub scopes : List String

pub data ScanError : Type 0 where
  eof too_long : ScanError

-- bufio.Scanner over a reader of the whole text: what has not been scanned, or, once no more can be read,
-- what is left in its buffer
pub data Scanner : Type 0 where
  reading : List ℕ → Scanner
  ended : ScanError → List ℕ → Scanner

-- `Scan` when nothing more is read
unfoldable pub scan_ended : ScanError → List ℕ → Option (List ℕ) × Scanner
scan_ended e held =
    let (advance, token) = split_yaml_doc held true in
    elim token [ some t ↦ (some t, ended e (drop advance held)) | none ↦ (none, ended e []) ]

-- `Scan`, for a buffer that grows to `max` bytes, which is bufio.MaxScanTokenSize
unfoldable pub scan : ℕ → Scanner → Option (List ℕ) × Scanner
unfolding scan_ended
scan max (reading rest) =
    let (advance, token) = split_yaml_doc (take max rest) false in
    elim token [
      | some t ↦ (some t, reading (drop advance rest))
      | none ↦
          if ltb (length rest) max
          then scan_ended eof rest
          else (none, ended too_long (take max rest))
    ]
scan max (ended e held) = scan_ended e held

abbrev pub max_scan_token_size : ℕ
max_scan_token_size = 65536

abbrev pub component_kind : String
component_kind = "Component"

pub data Decoded : Type 0 where
  document : YamlComponent → Decoded
  failed : Error → Decoded
  finished : Decoded

abbrev pub scanner_error : Scanner → Decoded
scanner_error (ended too_long _) = failed "bufio.Scanner: token too long"
scanner_error _ = finished

-- What the loop has collected, or the state in which its next round starts; `endless` is a value whose
-- UUIDs are never all filled in.
pub data Round : Type 0 where
  result : List Spec → List Error → Round
  again : ℕ → Scanner → List Spec → List Error → Round
  endless : Round

module _ (unmarshal : List ℕ → Result YamlComponent) (new_uuid : ℕ → String) (max : ℕ) where
  abbrev pub unmarshalled : Result YamlComponent → Decoded
  unmarshalled (ok c) = document c
  unmarshalled (err e) = failed e

  pub decode : Scanner → Decoded × Scanner
  decode s =
      let (token, s') = scan max s in
      (elim token [ some t ↦ unmarshalled (unmarshal t) | none ↦ scanner_error s' ], s')

  -- the rest of one round of decodeYaml, after `decode`
  unfoldable pub collect : Decoded → ℕ → Scanner → List Spec → List Error → Round
  collect finished n s list errs = result list errs
  collect (failed e) n s list errs = again n s list (errs ++ e ∷ [])
  collect (document comp) n s list errs =
      if not (comp.kind == component_kind)
      then again n s list errs
      else elim (convert_metadata_items new_uuid n comp.metadata []) [
        | none ↦ endless
        | some (properties, n') ↦
            let spec : Spec = record {
              name = comp.name;
              type = comp.type;
              version = comp.version;
              metadata = some properties;
              scopes = comp.scopes;
            } in
            again n' s (list ++ spec ∷ []) errs
      ]

  -- the loop of decodeYaml on fuel; `none` is fuel that has run out
  pub decode_loop : ℕ → ℕ → Scanner → List Spec → List Error → Option (List Spec × List Error)
  decode_loop zero n s list errs = none
  decode_loop (suc fuel) n s list errs = elim (collect (decode s).0 n (decode s).1 list errs) [
    | result list' errs' ↦ some (list', errs')
    | again n' s' list' errs' ↦ decode_loop fuel n' s' list' errs'
    | endless ↦ none
  ]

  -- one round for each byte, and three more
  pub decode_yaml : List ℕ → Option (List Spec × List Error)
  unfolding decode_loop
  decode_yaml content = decode_loop (length content + 3) 0 (reading content) [] []
