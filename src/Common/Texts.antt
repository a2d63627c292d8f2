-- ===== src/Common/Texts.antt =====
-- Texts that the program builds and takes apart: fmt.Sprintf with %s alone, and the functions of
-- strings and path/filepath that it calls, with "/" as the separator.
pub mod Slashes
use Prim.Native.Char.{Char, code}
use Prim.Native.String.{String, [], ◌∷◌, ◌++◌}
use mathlib.Core.Bool.{Bool, true, false, ◌&&◌, ◌||◌}
use mathlib.Core.List
use mathlib.Core.List.{List}
use margo_hello_world.Common.Tests.{◌==◌, numbers, words, if◌then◌else◌}

abbrev nil_texts : List String
nil_texts = List.[]

abbrev cons_text : String → List String → List String
cons_text s ss = List.◌∷◌ s ss

-- The pieces put together.
unfoldable pub concat : List String → String
concat List.[] = []
concat (List.◌∷◌ s ss) = s ++ concat ss

abbrev pub is_slash : Char → Bool
is_slash c = code c == b'/'

-- strings.HasPrefix(s, p), the prefix first
unfoldable pub has_prefix : String → String → Bool
has_prefix [] s = true
has_prefix (c ∷ p) [] = false
has_prefix (c ∷ p) (d ∷ s) = code c == code d && has_prefix p s

-- strings.HasSuffix(s, t), the suffix first
unfoldable pub has_suffix : String → String → Bool
has_suffix t [] = t == ""
has_suffix t (c ∷ s) = t == (c ∷ s) || has_suffix t s

-- strings.TrimSuffix(s, "/")
unfoldable pub trim_slash : String → String
trim_slash [] = []
trim_slash (c ∷ []) = if is_slash c then [] else c ∷ []
trim_slash (c ∷ (d ∷ s)) = c ∷ trim_slash (d ∷ s)

-- A character in front of the first piece.
unfoldable pub cons_first : Char → List String → List String
cons_first c List.[] = cons_text (c ∷ []) nil_texts
cons_first c (List.◌∷◌ w ws) = cons_text (c ∷ w) ws

-- strings.Split(s, "/")
unfoldable pub split : String → List String
unfolding cons_first
split [] = cons_text [] nil_texts
split (c ∷ s) = let rest = split s in if is_slash c then cons_text [] rest else cons_first c rest

-- The pieces with "/" between them.
unfoldable pub join_slash : List String → String
join_slash List.[] = []
join_slash (List.◌∷◌ s List.[]) = s
join_slash (List.◌∷◌ s (List.◌∷◌ t ts)) = s ++ ("/" ++ join_slash (List.◌∷◌ t ts))

-- One element of a path, against those kept so far, the last one first.
unfoldable pub clean_element : Bool → String → List String → List String
clean_element rooted e List.[] =
    if e == "" || e == "."
    then nil_texts
    else if e == ".." && rooted
    then nil_texts
    else cons_text e nil_texts
clean_element rooted e (List.◌∷◌ k ks) =
    if e == "" || e == "."
    then cons_text k ks
    else if e == ".."
    then (if k == ".." then cons_text e (cons_text k ks) else ks)
    else cons_text e (cons_text k ks)

unfoldable pub clean_elements : Bool → List String → List String → List String
unfolding clean_element
clean_elements rooted List.[] kept = kept
clean_elements rooted (List.◌∷◌ e es) kept = clean_elements rooted es (clean_element rooted e kept)

abbrev pub is_rooted : String → Bool
is_rooted [] = false
is_rooted (c ∷ s) = is_slash c

-- filepath.Clean
unfoldable pub clean : String → String
unfolding clean_elements split join_slash
clean s =
    let body = join_slash (List.reverse (clean_elements (is_rooted s) (split s) nil_texts)) in
    if is_rooted s then "/" ++ body else if body == "" then "." else body

unfoldable pub non_empty : List String → List String
non_empty List.[] = nil_texts
non_empty (List.◌∷◌ s ss) = let rest = non_empty ss in if s == "" then rest else cons_text s rest

-- filepath.Join
unfoldable pub join : List String → String
unfolding clean non_empty
join ss = let s = join_slash (non_empty ss) in if s == "" then "" else clean s
