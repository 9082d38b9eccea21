-- ===== src/Prelude/Texts.antt =====
-- The order of texts, by which `Array.prototype.sort` puts two ids in order. It compares UTF-16 code
-- units, and the native order compares code points: on the ASCII text of a UUID they agree.
use Prim.Native.Nat.{ℕ, Ordering, compare as compare_ℕ}
use Prim.Native.Char.{code}
use Prim.Native.String.compare
use Prim.Native.String.{String, compare, then, ◌++◌ as text_append}
use mathlib.Core.Path.{◌≡◌, refl}
use native.Mathlib.Omega.{arith}
use text.Mathlib.TextEquality.{path_by_compare}
use mathlib.Core.List.{List, [], ◌∷◌}

-- `[a, b].sort()`
unfoldable pub sort_pair : String → String → List String
sort_pair a b = elim (compare b a) [ Ordering.lt ↦ b ∷ a ∷ [] | _ ↦ a ∷ b ∷ [] ]

-- Two texts joined, as in a template literal.
infixr 65 ◌<>◌
abbrev pub ◌<>◌ : String → String → String
a <> b = text_append a b

abbrev flip : Ordering → Ordering
flip Ordering.lt = Ordering.gt
flip Ordering.eq = Ordering.eq
flip Ordering.gt = Ordering.lt

compare_ℕ-flip : (m n : ℕ) → compare_ℕ n m ≡ flip (compare_ℕ m n)
compare_ℕ-flip m n = grind arith

flip-then : (o p : Ordering) → then (flip o) (flip p) ≡ flip (then o p)
flip-then Ordering.lt p = refl
flip-then Ordering.eq p = refl
flip-then Ordering.gt p = refl

compare-flip : (s t : String) → compare t s ≡ flip (compare s t)
compare-flip String.[] String.[] = refl
compare-flip String.[] (String.◌∷◌ d t) = rw (compare.nil-cons d t, compare.cons-nil d t)
compare-flip (String.◌∷◌ c s) String.[] = rw (compare.nil-cons c s, compare.cons-nil c s)
compare-flip (String.◌∷◌ c s) (String.◌∷◌ d t) =
    rw
      (
        compare.cons-cons c d s t,
        compare.cons-cons d c t s,
        compare_ℕ-flip (code c) (code d),
        compare-flip s t,
      )
      (flip-then (compare_ℕ (code c) (code d)) (compare s t))

sort_pair-cases : (a b : String) (o : Ordering) → compare b a ≡ o → sort_pair a b ≡ sort_pair b a
unfolding sort_pair
sort_pair-cases a b Ordering.lt h = ground (arith, compare-flip b a)
sort_pair-cases a b Ordering.eq h = rw (path_by_compare b a h)
sort_pair-cases a b Ordering.gt h = ground (arith, compare-flip b a)

-- Both orders of a pair are sorted alike.
pub sort_pair_comm : (a b : String) → sort_pair a b ≡ sort_pair b a
sort_pair_comm a b = sort_pair-cases a b (compare b a) refl
