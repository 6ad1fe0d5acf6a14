-- ===== src/Witnesses/Loader.antt =====
-- A text of two documents, and a directory with a file that cannot be read and a file of four documents.
use rusi.Prelude.{
  ℕ, String, ◌≡◌, refl, false, none, some, List, [], ◌∷◌, map, true, ◌==◌, arith, beq,
  if◌then◌else◌, Error, Result, ok, err,
}
use rusi.Components.{Spec}
use rusi.Components.Uuid.{count_open}
use rusi.Loader.Split.{cut, after_prefix, index_byte, split_yaml_doc}
use rusi.Loader.Split.Laws.{IsToken, split_yaml_doc-IsToken}
use rusi.Loader.Yaml.{YamlComponent, decode_yaml, decode_loop, reading}
use rusi.Loader.Yaml.Ends.{decode_yaml-total, decode_loop_endless}
use rusi.Loader.Yaml.Documents.{written, decode_documents, decode_yaml-written, decode_yaml-lost}
use rusi.Loader.Yaml.Files.{FileInfo, Host, is_yaml, ext, load_local_components}
use rusi.Loader.Yaml.Files.Laws.{
  Content, unreadable, documents, listed, load_local_components-listed,
}

abbrev a_component : YamlComponent
a_component = record {
  kind = "Component";
  name = "bus";
  type = "pubsub.x";
  version = "v1";
  metadata = ("a", "1") ∷ [];
  scopes = [];
}

-- a document is a component where it starts with an `a`
abbrev unmarshal_a : List ℕ → Result YamlComponent
unmarshal_a [] = err "empty"
unmarshal_a (b ∷ _) = if beq b b'a' then ok a_component else err "no component"

abbrev uuids : ℕ → String
uuids n = "0-0"

uuids-plain : (n : ℕ) → count_open (uuids n) ≡ 0
unfolding count_open
uuids-plain n = refl

abbrev two_documents : List (List ℕ)
two_documents = (b'a' ∷ []) ∷ (b'b' ∷ []) ∷ []

decode_yaml-written_example :
    decode_yaml unmarshal_a uuids 100 (written two_documents)
    ≡ decode_documents unmarshal_a uuids 0 two_documents [] []
unfolding cut after_prefix written
decode_yaml-written_example =
    decode_yaml-written unmarshal_a uuids 100 two_documents (refl, (refl, refl)) (omega arith)

decode_yaml-total_example :
    (r : List Spec × List Error) × (decode_yaml unmarshal_a uuids 100 (b'a' ∷ b'b' ∷ []) ≡ some r)
decode_yaml-total_example =
    decode_yaml-total unmarshal_a uuids 100 uuids-plain (b'a' ∷ b'b' ∷ []) (omega arith)

-- "a\n---b"
decode_yaml-lost_example :
    decode_yaml unmarshal_a uuids 100 (b'a' ∷ 10 ∷ b'-' ∷ b'-' ∷ b'-' ∷ b'b' ∷ []) ≡ some ([], [])
unfolding cut after_prefix index_byte
decode_yaml-lost_example =
    decode_yaml-lost unmarshal_a uuids 100 (b'a' ∷ 10 ∷ b'-' ∷ b'-' ∷ b'-' ∷ b'b' ∷ []) (b'a' ∷ [])
      (b'b' ∷ []) refl refl refl (omega arith)

decode_loop_endless_example :
    decode_loop unmarshal_a uuids 2 10 0 (reading (b'a' ∷ b'b' ∷ b'c' ∷ [])) [] [] ≡ none
unfolding cut after_prefix
decode_loop_endless_example =
    decode_loop_endless unmarshal_a uuids 2 10 0 (b'a' ∷ b'b' ∷ b'c' ∷ []) [] [] (omega arith) refl

split_yaml_doc-IsToken_example :
    IsToken (b'a' ∷ 10 ∷ b'-' ∷ b'-' ∷ b'-' ∷ 10 ∷ b'b' ∷ []) 6 (b'a' ∷ [])
unfolding split_yaml_doc cut after_prefix index_byte
split_yaml_doc-IsToken_example =
    split_yaml_doc-IsToken (b'a' ∷ 10 ∷ b'-' ∷ b'-' ∷ b'-' ∷ 10 ∷ b'b' ∷ []) false 6 (b'a' ∷ [])
      refl

abbrev other_kind : YamlComponent
other_kind = record a_component { kind = "Configuration" }

-- an `a` is a component, a `k` an object of another kind, and nothing else can be decoded
abbrev unmarshal_kinds : List ℕ → Result YamlComponent
unmarshal_kinds [] = err "empty"
unmarshal_kinds (b ∷ _) =
    if beq b b'a' then ok a_component else if beq b b'k' then ok other_kind else err "no component"

abbrev four_documents : List (List ℕ)
four_documents = (b'b' ∷ []) ∷ (b'a' ∷ []) ∷ (b'k' ∷ []) ∷ (b'a' ∷ []) ∷ []

abbrev entries : List (FileInfo × Content)
entries =
    (record { name = "lost.yml"; is_dir = false }, unreadable "no such file")
    ∷ (record { name = "more.yaml"; is_dir = true }, unreadable "a directory")
    ∷ (record { name = "bus.yaml"; is_dir = false }, documents four_documents)
    ∷ []

abbrev a_host : Host
a_host = record {
  read_dir = λ _. ok (map (λ entry. entry.0) entries);
  read_file =
      λ path. if path == "d/bus.yaml" then ok (written four_documents) else err "no such file";
  expand_env = λ b. b;
  unmarshal = unmarshal_kinds;
  new_uuid = λ _ n. uuids n;
}

load_local_components-listed_example :
    (found : List Spec) × (listed a_host "d" entries ≡ some found)
    × (load_local_components a_host "d" ≡ some (ok found))
unfolding cut after_prefix written is_yaml ext
load_local_components-listed_example =
    load_local_components-listed a_host (λ _ n. uuids-plain n) "d" entries refl
      (
        (λ yaml. refl),
        (
          (λ yaml. absurd (ground (arith, yaml))),
          (
            (λ yaml. (
              written four_documents,
              refl,
              refl,
              (refl, (refl, (refl, (refl, refl)))),
              omega arith,
            )),
            tt,
          ),
        ),
      )
