-- ===== src/Common/Dict.antt =====
-- Go's `map[string]V` as an association list. The order of its entries is that of one iteration:
-- Go leaves the order open, so no statement may rest on it.
use Prim.Native.String.{String}
use mathlib.Core.Path.{◌≡◌, refl}
use mathlib.Core.Option.{Option, none, some}
use mathlib.Core.List.{List, [], ◌∷◌}
use native.Mathlib.Omega.{arith}
use text.Mathlib.TextEquality.{eq_iff}
use margo_hello_world.Common.Tests.{◌==◌, words, if◌then◌else◌}

abbrev pub Dict {ℓ} : Type ℓ → Type ℓ
Dict V = List (String × V)

module _ {ℓ} {V : Type ℓ} where
  -- v, ok := m[k]
  unfoldable pub lookup : String → Dict V → Option V
  lookup key [] = none
  lookup key (e ∷ rest) = if e.0 == key then some e.1 else lookup key rest

  -- m[k] = v
  unfoldable pub insert : String → V → Dict V → Dict V
  insert key new [] = (key, new) ∷ []
  insert key new (e ∷ rest) =
      let kept = insert key new rest in if e.0 == key then (key, new) ∷ rest else e ∷ kept

  -- delete(m, k)
  unfoldable pub delete : String → Dict V → Dict V
  delete key [] = []
  delete key (e ∷ rest) = let kept = delete key rest in if e.0 == key then kept else e ∷ kept

  module _ (key other : String) where
    pub lookup-insert :
        (new : V) (d : Dict V)
        → lookup other (insert key new d) ≡ (if key == other then some new else lookup other d)
    unfolding lookup insert
    lookup-insert new [] = refl
    lookup-insert new (e ∷ rest) =
        ground (arith, lookup-insert new rest, eq_iff e.0 key, eq_iff e.0 other, eq_iff key other)

    pub lookup-delete :
        (d : Dict V) → lookup other (delete key d) ≡ (if key == other then none else lookup other d)
    unfolding lookup delete
    lookup-delete [] = ground arith
    lookup-delete (e ∷ rest) =
        ground (arith, lookup-delete rest, eq_iff e.0 key, eq_iff e.0 other, eq_iff key other)
