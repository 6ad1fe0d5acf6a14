-- ===== src/Prelude/Paths.antt =====
-- Go's `path.Join` and `path.Clean`: lexical paths with slashes.
use mathlib.Core.List.{reverse}
use rusi.Prelude.{String, Bool, not, ◌&&◌, ◌||◌, List, [], ◌∷◌, ◌==◌, if◌then◌else◌}
use rusi.Prelude.Text.{◌⊕◌, split}
use text.Mathlib.Text.{starts_with}

-- the elements that are not empty, with a slash between two
join_nonempty : List String → String
join_nonempty [] = ""
join_nonempty (e ∷ es) =
    let rest = join_nonempty es in
    if e == "" then rest else if rest == "" then e else e ⊕ "/" ⊕ rest

-- one element of the path; the stack has its top at the head
clean_part : Bool → List String → String → List String
clean_part rooted [] part =
    if part == "" || part == "." then [] else if part == ".." && rooted then [] else part ∷ []
clean_part rooted (top ∷ stack) part =
    if part == "" || part == "."
    then top ∷ stack
    else if part == ".." && not (top == "..")
    then stack
    else part ∷ top ∷ stack

clean_parts : Bool → List String → List String → List String
clean_parts rooted stack [] = reverse stack
clean_parts rooted stack (part ∷ parts) = clean_parts rooted (clean_part rooted stack part) parts

join_parts : List String → String
join_parts [] = ""
join_parts (p ∷ []) = p
join_parts (p ∷ q ∷ ps) = p ⊕ "/" ⊕ join_parts (q ∷ ps)

clean : String → String
unfolding clean_part clean_parts join_parts
clean path =
    let rooted = starts_with path "/" in
    let body = join_parts (clean_parts rooted [] (split path b'/')) in
    let whole = (if rooted then "/" ⊕ body else body) in if whole == "" then "." else whole

unfoldable pub path_join : List String → String
unfolding clean join_nonempty split
path_join elements =
    let joined = join_nonempty elements in if joined == "" then "" else clean joined
