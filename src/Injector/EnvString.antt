-- ===== src/Injector/EnvString.antt =====
-- pkg/utils/strings.go: environment variables in an annotation, "A=1,B=2".
pub mod RoundTrip
use rusi.Prelude.{String, List, [], ◌∷◌, Bool, true, false, ◌==◌, if◌then◌else◌}
use rusi.Prelude.Text.{split, trim_space}
use rusi.Injector.Kube.{EnvVar}

-- one round of the loop: a pair that is not of the form NAME=VALUE is skipped
abbrev pub add_pair : List String → List EnvVar → List EnvVar
add_pair (name ∷ value ∷ []) rest = record { name = name; value = value } ∷ rest
add_pair _ rest = rest

parse_pairs : List String → List EnvVar
parse_pairs [] = []
parse_pairs (value ∷ pairs) = add_pair (split (trim_space value) b'=') (parse_pairs pairs)

unfoldable pub parse_env_string : String → List EnvVar
unfolding parse_pairs split trim_space
parse_env_string env_str = parse_pairs (split env_str b',')

unfoldable pub string_slice_contains : String → List String → Bool
string_slice_contains needle [] = false
string_slice_contains needle (item ∷ haystack) =
    if item == needle then true else string_slice_contains needle haystack
