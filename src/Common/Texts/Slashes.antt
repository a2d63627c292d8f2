-- ===== src/Common/Texts/Slashes.antt =====
-- Texts with no "/" in them are the elements of a path: what the functions on texts make of those.
use Prim.Native.Nat.{ℕ}
use Prim.Native.Char.{Char, code}
use Prim.Native.String.{String, [], ◌∷◌, ◌++◌}
use Prim.Native.String.compare
use mathlib.Core.Path.{◌≡◌, refl, ap}
use mathlib.Core.Logic.{inl, inr}
use mathlib.Core.Bool.{Bool, true, false, not, ◌&&◌}
use mathlib.Core.List.{List}
use native.Mathlib.Omega.{arith}
use text.Mathlib.TextLemmas.{nil-append, cons-append}
use text.Mathlib.TextEquality.{Char-path}
use margo_hello_world.Common.Tests.{◌==◌, numbers, words, Bool-cases}
use margo_hello_world.Common.Texts.{
  is_slash, is_rooted, has_prefix, has_suffix, trim_slash, split, nil_texts, cons_text, clean,
  clean_element, clean_elements, non_empty, join, join_slash,
}

-- No character is "/".
unfoldable pub no_slash : String → Bool
no_slash [] = true
no_slash (c ∷ s) = not (is_slash c) && no_slash s

pub split-append :
    (s t : String) → no_slash s ≡ true → split (s ++ ("/" ++ t)) ≡ cons_text s (split t)
unfolding split no_slash
split-append [] t h = rw (nil-append, cons-append, nil-append) refl
split-append (c ∷ s) t h = elim (Bool-cases (is_slash c)) [
  | inl e ↦ ground (arith, e)
  | inr e ↦ rw cons-append (rw (e, split-append s t (ground arith)) refl)
]

pub split_single : (s : String) → no_slash s ≡ true → split s ≡ cons_text s nil_texts
unfolding split no_slash
split_single [] h = refl
split_single (c ∷ s) h = elim (Bool-cases (is_slash c)) [
  | inl e ↦ ground (arith, e)
  | inr e ↦ rw (e, split_single s (ground arith)) refl
]

pub trim_slash-no_slash : (s : String) → no_slash s ≡ true → trim_slash s ≡ s
unfolding trim_slash no_slash
trim_slash-no_slash [] h = refl
trim_slash-no_slash (c ∷ []) h = ground arith
trim_slash-no_slash (c ∷ (d ∷ s)) h = ap (◌∷◌ c) (trim_slash-no_slash (d ∷ s) (ground arith))

pub has_prefix-append : (p s : String) → has_prefix p (p ++ s) ≡ true
unfolding has_prefix
has_prefix-append [] s = refl
has_prefix-append (c ∷ p) s = rw cons-append (ground (arith, has_prefix-append p s))

pub has_suffix-append : (s t u : String) → has_suffix t u ≡ true → has_suffix t (s ++ u) ≡ true
unfolding has_suffix
has_suffix-append [] t u h = rw nil-append h
has_suffix-append (c ∷ s) t u h = rw cons-append (ground (arith, has_suffix-append s t u h))

not_slash_first : (n : ℕ) (a b : Bool) → 47 == n && a ≡ true → not (n == 47) && b ≡ true → ⊥
not_slash_first n a b h k = ground arith

not_slash_second : (n : ℕ) (a b : Bool) → n == 47 && a ≡ true → not (n == 47) && b ≡ true → ⊥
not_slash_second n a b h k = ground arith

equal_heads : (m n : ℕ) (a : Bool) → m == n && a ≡ true → m ≡ n
equal_heads m n a h = ground arith

abbrev slash : Char
slash = "/"

slash_append : (u : String) → "/" ++ u ≡ slash ∷ u
slash_append u = rw (cons-append, nil-append) refl

-- A path begins with an element and "/" only if that is its first element.
pub first_of_prefix :
    (p s t u : String)
    → no_slash p ≡ true
    → no_slash s ≡ true
    → has_prefix (p ++ ("/" ++ u)) (s ++ ("/" ++ t)) ≡ true
    → p ≡ s
unfolding has_prefix no_slash
first_of_prefix [] [] t u hp hs h = refl
first_of_prefix [] (c ∷ s) t u hp hs h =
    let e : has_prefix (slash ∷ u) (c ∷ (s ++ ("/" ++ t))) ≡ true =
      rw (nil-append ("/" ++ u), slash_append u, cons-append c s) at h in
    absurd (not_slash_first (code c) (has_prefix u (s ++ ("/" ++ t))) (no_slash s) e hs)
first_of_prefix (c ∷ p) [] t u hp hs h =
    let e : has_prefix (c ∷ (p ++ ("/" ++ u))) (slash ∷ t) ≡ true =
      rw (nil-append ("/" ++ t), slash_append t, cons-append c p) at h in
    absurd (not_slash_second (code c) (has_prefix (p ++ ("/" ++ u)) t) (no_slash p) e hp)
first_of_prefix (c ∷ p) (d ∷ s) t u hp hs h =
    let e : has_prefix (c ∷ (p ++ ("/" ++ u))) (d ∷ (s ++ ("/" ++ t))) ≡ true =
      rw (cons-append c p, cons-append d s) at h in
    λ i.
      Char-path c d (equal_heads (code c) (code d) _ e) i
      ∷ first_of_prefix p s t u (ground arith) (ground arith) (ground arith) i

-- A text that filepath.Clean leaves where it is in a path.
abbrev pub IsElement : String → Type 0
IsElement s = (no_slash s ≡ true) × (s == "" ≡ false) × (s == "." ≡ false) × (s == ".." ≡ false)

-- Three elements, put together.
abbrev pub slashed : String → String → String → String
slashed s t u = s ++ ("/" ++ (t ++ ("/" ++ u)))

abbrev pub three : String → String → String → List String
three s t u = cons_text s (cons_text t (cons_text u nil_texts))

pub split_elements :
    (s t u : String) → IsElement s → IsElement t → IsElement u → split (slashed s t u) ≡ three s t u
split_elements s t u hs ht hu =
    rw (split-append s (t ++ ("/" ++ u)) hs.0, split-append t u ht.0, split_single u hu.0) refl

kept : (s : String) (ks : List String) → IsElement s → clean_element false s ks ≡ cons_text s ks
unfolding clean_element
kept s List.[] (a, b, c, d) = rw (b, c, d) refl
kept s (List.◌∷◌ k ks) (a, b, c, d) = rw (b, c, d) refl

cleaned :
    (s t u : String)
    → IsElement s
    → IsElement t
    → IsElement u
    → clean_elements false (three s t u) nil_texts ≡ three u t s
unfolding clean_elements
cleaned s t u hs ht hu =
    rw
      (
        kept s nil_texts hs,
        kept t (cons_text s nil_texts) ht,
        kept u (cons_text t (cons_text s nil_texts)) hu,
      )
      refl

non_empty_elements :
    (s t u : String)
    → IsElement s
    → IsElement t
    → IsElement u
    → non_empty (three s t u) ≡ three s t u
unfolding non_empty
non_empty_elements s t u hs ht hu = rw (hs.1, ht.1, hu.1) refl

not_rooted : (s t : String) → IsElement s → is_rooted (s ++ t) ≡ false
unfolding no_slash
not_rooted [] t (a, b, c, d) = absurd (ground (arith, b))
not_rooted (c ∷ s) t h = let a = h.0 in rw cons-append (ground arith)

not_empty : (s t : String) → IsElement s → s ++ t == "" ≡ false
not_empty [] t (a, b, c, d) = absurd (ground (arith, b))
not_empty (c ∷ s) t h = rw (cons-append, compare.cons-nil) refl

pub join_elements :
    (s t u : String) → IsElement s → IsElement t → IsElement u → join (three s t u) ≡ slashed s t u
unfolding join clean join_slash
join_elements s t u hs ht hu =
    let body = "/" ++ (t ++ ("/" ++ u)) in
    rw
      (
        non_empty_elements s t u hs ht hu,
        not_empty s body hs,
        not_rooted s body hs,
        split_elements s t u hs ht hu,
        cleaned s t u hs ht hu,
        not_empty s body hs,
      )
      refl
