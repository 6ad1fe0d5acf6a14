-- ===== src/Loader/Yaml/Files/Laws.antt =====
-- What the loader of a directory sends.
use rusi.Prelude.{
  ℕ, ◌<◌, String, ◌≡◌, refl, ◌∙◌, inl, inr, not, ◌&&◌, Option, none, some, List, [], ◌∷◌, ◌++◌,
  append_assoc, append-nil, map, sym, true, ◌∙◌, Error, arith, if◌then◌else◌, Bool-cases,
  Option-cases, length, ok, err, Result-cases,
}
use rusi.Components.{Spec}
use rusi.Components.Uuid.{count_open}
use rusi.Loader.Yaml.{decode_yaml, max_scan_token_size}
use rusi.Loader.Yaml.Ends.{decode_yaml-total}
use rusi.Loader.Yaml.Documents.{written, ArePlain, decode_documents, decode_yaml-written}
use rusi.Loader.Yaml.Files.{
  FileInfo, Host, join, is_yaml, load_components_from_file, load_files, load_local_components,
}

-- What a file of the directory holds: the reading fails, or it gives these documents.
pub data Content : Type 0 where
  unreadable : Error → Content
  documents : List (List ℕ) → Content

module _ (host : Host) where
  -- the components of one entry of the directory; a file that cannot be read has none
  file_components : String → FileInfo → Option (List Spec)
  file_components dir file =
      if not file.is_dir && is_yaml file.name
      then elim (host.read_file (join dir file.name)) [
        | err _ ↦ some []
        | ok b ↦
            elim (decode_yaml host.unmarshal (host.new_uuid (join dir file.name))
              max_scan_token_size (host.expand_env b)) [
                | none ↦ none
                | some (comps, _) ↦ some comps
              ]
      ]
      else some []

  load_files-cons :
      (dir : String) (file : FileInfo) (files : List FileInfo) (list : List Spec)
      → load_files host dir (file ∷ files) list ≡ elim (file_components dir file) [
        | none ↦ none
        | some comps ↦ load_files host dir files (list ++ comps)
      ]
  unfolding load_files load_components_from_file file_components
  load_files-cons dir file files list = elim (Bool-cases (not file.is_dir && is_yaml file.name)) [
    | inr other ↦ ground (arith, other, append-nil list)
    | inl yaml ↦ elim (Result-cases (host.read_file (join dir file.name))) [
      | inr (e, bad) ↦ ground (arith, yaml, bad, append-nil list)
      | inl (b, read) ↦
          elim (Option-cases (
            decode_yaml host.unmarshal (host.new_uuid (join dir file.name)) max_scan_token_size
              (host.expand_env b))) [
                | inl endless ↦ ground (arith, yaml, read, endless)
                | inr ((comps, errs), ends) ↦ ground (arith, yaml, read, ends)
              ]
    ]
  ]

  -- The host gives this content for the path: after the environment is filled in, the documents without the
  -- separator, with a line `---` after each but the last, the last not empty, and fewer than 65536 bytes.
  abbrev pub IsContent : String → Content → Type 0
  IsContent path (unreadable e) = host.read_file path ≡ err e
  IsContent path (documents docs) =
      (b : List ℕ) × (host.read_file path ≡ ok b)
      × (host.expand_env b ≡ written docs)
      × ArePlain docs
      × (length (written docs) < max_scan_token_size)

  -- the host gives the content of each YAML file
  abbrev pub AreContents : String → List (FileInfo × Content) → Type 0
  AreContents dir [] = Unit {0}
  AreContents dir ((file, content) ∷ entries) =
      ((not file.is_dir && is_yaml file.name) ≡ true → IsContent (join dir file.name) content)
      × AreContents dir entries

  -- the components of a content: those that its documents say, one by one
  content_components : String → Content → Option (List Spec)
  content_components path (unreadable e) = some []
  content_components path (documents docs) =
      elim (decode_documents host.unmarshal (host.new_uuid path) 0 docs [] []) [
        | none ↦ none
        | some (comps, _) ↦ some comps
      ]

  -- the components of all YAML files, in their order
  pub listed : String → List (FileInfo × Content) → Option (List Spec)
  unfolding content_components
  listed dir [] = some []
  listed dir ((file, content) ∷ entries) =
      let others = listed dir entries in
      if not file.is_dir && is_yaml file.name
      then elim (content_components (join dir file.name) content) [
        | none ↦ none
        | some comps ↦ elim others [ none ↦ none | some rest ↦ some (comps ++ rest) ]
      ]
      else others

  module _ (plain : (path : String) (n : ℕ) → count_open (host.new_uuid path n) ≡ 0) where
    file_components-content :
        (dir : String) (file : FileInfo) (content : Content)
        → (not file.is_dir && is_yaml file.name) ≡ true
        → IsContent (join dir file.name) content
        → (comps : List Spec) × (content_components (join dir file.name) content ≡ some comps)
          × (file_components dir file ≡ some comps)
    unfolding file_components content_components
    file_components-content dir file (unreadable e) yaml bad = ([], refl, ground (arith, yaml, bad))
    file_components-content dir file (documents docs) yaml (b, read, expanded, separate, short) =
        let path = join dir file.name in
        let (r, ends) =
          decode_yaml-total host.unmarshal (host.new_uuid path) max_scan_token_size (plain path)
            (written docs) short in
        let same =
          decode_yaml-written host.unmarshal (host.new_uuid path) max_scan_token_size docs separate
            short in
        (r.0, ground (arith, sym same ∙ ends), ground (arith, yaml, read, expanded, ends))

    load_files-listed :
        (dir : String) (entries : List (FileInfo × Content)) (list : List Spec)
        → AreContents dir entries
        → (found : List Spec) × (listed dir entries ≡ some found)
          × (load_files host dir (map (λ entry. entry.0) entries) list ≡ some (list ++ found))
    unfolding listed load_files
    load_files-listed dir [] list held = ([], refl, ground (arith, append-nil list))
    load_files-listed dir ((file, content) ∷ entries) list (held, others) =
        let files = map (λ entry. entry.0) entries in
        elim (Bool-cases (not file.is_dir && is_yaml file.name)) [
          | inr other ↦
              let (found, all, loaded) = load_files-listed dir entries list others in
              (found, ground (arith, other, all), ground (arith, other, loaded))
          | inl yaml ↦
              let (comps, said, first) =
                file_components-content dir file content yaml (held yaml) in
              let (found, all, loaded) = load_files-listed dir entries (list ++ comps) others in
              (
                comps ++ found,
                ground (arith, yaml, said, all),
                load_files-cons dir file files list
                    ∙ ground (arith, first, loaded, append_assoc list comps found),
              )
        ]

    -- A directory that is read is loaded: what is sent are the components that the documents of its YAML
    -- files say, file after file and document after document. An entry that is a directory or no YAML file,
    -- a file that cannot be read, a document that cannot be decoded and a document of another kind give
    -- none and hold back no other. The files that are read are, after the environment is filled in,
    -- documents without the separator, with a line `---` between them and fewer than 65536 bytes in all,
    -- the last not empty; a UUID holds no placeholder of its own.
    pub load_local_components-listed :
        (dir : String) (entries : List (FileInfo × Content))
        → host.read_dir dir ≡ ok (map (λ entry. entry.0) entries)
        → AreContents dir entries
        → (found : List Spec) × (listed dir entries ≡ some found)
          × (load_local_components host dir ≡ some (ok found))
    unfolding load_local_components
    load_local_components-listed dir entries read held =
        let (found, all, loaded) = load_files-listed dir entries [] held in
        (found, all, ground (arith, read, loaded))
