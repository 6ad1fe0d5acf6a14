-- ===== src/Loader/Yaml/Files.antt =====
-- LoadLocalComponents and loadComponentsFromFile of pkg/custom-resource/components/loader/local.go. The
-- directories, the files and the environment are parameters, as are the decoder of YAML and the UUIDs of
-- each file.
pub mod Laws
use rusi.Prelude.{
  ℕ, zero, suc, ◌+◌, ◌-◌, ◌*◌, ◌/◌, ◌%◌, ◌^◌, ◌≤◌, ◌<◌, String, ◌≡◌, refl, sym, ap, ◌∙◌, subst, ◌≢◌,
  ◌↔◌, ◌⊎◌, inl, inr, Bool, true, false, not, ◌&&◌, ◌||◌, Option, none, some, List, [], ◌∷◌, ◌++◌,
  map, append_assoc, append-nil, arith, ◌==◌, eq_iff, eq_refl, ltb, leb, beq, if◌then◌else◌,
  Bool-cases, Option-cases, length, is_empty, any, length-append, any-append_right, All, All-append,
  Error, Result, ok, err, ◌>>=◌, ◌>>◌, fail_if, Result-cases, >>=-eq-ok,
}
use rusi.Prelude.Int.{ℤ, pos, negsuc, pos_part, neg_part, neg, ltb_ℤ, IsSigned, to_uint64, to_int64}
use rusi.Prelude.Dict.{
  Dict, lookup, insert, delete, lookup-insert, lookup-delete, lookup-empty, dict_laws, get,
}
use rusi.Prelude.Text.{◌⊕◌, single, to_lower, to_lower-append, split, trim_space, replace_char}
use rusi.Prelude.Number.{parse_uint64, parse_int32, parse_int32-IsSigned, parse_uint64-lt, itoa}
use Prim.Native.Char.{code}
use Prim.Native.String
use rusi.Components.{Spec}
use rusi.Loader.Yaml.{YamlComponent, decode_yaml, max_scan_token_size}

has_slash : String → Bool
has_slash String.[] = false
has_slash (String.◌∷◌ c s) = beq (code c) b'/' || has_slash s

-- `filepath.Ext`: from the last dot after the last slash
unfoldable pub ext : String → String
unfolding has_slash
ext String.[] = ""
ext (String.◌∷◌ c s) =
    let later = ext s in
    if not (later == "")
    then later
    else if beq (code c) b'.' && not (has_slash s)
    then String.◌∷◌ c s
    else ""

unfoldable pub is_yaml : String → Bool
unfolding ext to_lower
is_yaml file_name =
    let extension = to_lower (ext file_name) in
    if (extension == ".yaml") || (extension == ".yml") then true else false

pub record FileInfo : Type 0 where
  pub name : String
  pub is_dir : Bool

-- `filepath.Join` of a directory's clean path and a name in it
abbrev pub join : String → String → String
join dir name = if dir == "" then name else dir ⊕ "/" ⊕ name

pub record Host : Type 0 where
  pub read_dir : String → Result (List FileInfo)
  pub read_file : String → Result (List ℕ)
  pub expand_env : List ℕ → List ℕ
  pub unmarshal : List ℕ → Result YamlComponent
  pub new_uuid : String → ℕ → String

module _ (host : Host) where
  -- what is loaded, and the error that is returned; `none` is a loop that does not end
  pub load_components_from_file : String → Option (List Spec × Option Error)
  load_components_from_file path = elim (host.read_file path) [
    | err e ↦ some ([], some e)
    | ok b ↦
        elim (decode_yaml host.unmarshal (host.new_uuid path) max_scan_token_size
          (host.expand_env b)) [ none ↦ none | some (comps, _) ↦ some (comps, none) ]
  ]

  -- the loop over the files
  pub load_files : String → List FileInfo → List Spec → Option (List Spec)
  unfolding load_components_from_file is_yaml
  load_files dir [] list = some list
  load_files dir (file ∷ files) list =
      if not file.is_dir && is_yaml file.name
      then elim (load_components_from_file (join dir file.name)) [
        | none ↦ none
        | some (comps, _) ↦ load_files dir files (list ++ comps)
      ]
      else load_files dir files list

  -- what the goroutine sends on the channel, in this order
  pub load_local_components : String → Option (Result (List Spec))
  unfolding load_files
  load_local_components dir = elim (host.read_dir dir) [
    | err e ↦ some (err e)
    | ok files ↦ elim (load_files dir files []) [ none ↦ none | some list ↦ some (ok list) ]
  ]
