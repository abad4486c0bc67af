-- ===== src/Prelude/Sorting.antt =====
-- Python's `sorted`, a stable sort, by a Boolean order on the elements' keys.
use Prim.Native.Nat.{Ordering}
use Prim.Native.String.{String, compare}
use mathlib.Core.Bool.{Bool, true, false}
use mathlib.Core.List.{List, [], ◌∷◌}
use native.Mathlib.Omega.{arith}
use imcodex.Prelude.Tests.{if◌then◌else◌}
use imcodex.Prelude.Lists.{All}

-- `s <= t` on texts
abbrev pub str_le : String → String → Bool
str_le s t = elim (compare s t) [ Ordering.gt ↦ false | _ ↦ true ]

-- `s < t` on texts
abbrev pub str_lt : String → String → Bool
str_lt s t = elim (compare s t) [ Ordering.lt ↦ true | _ ↦ false ]

module _ {ℓ} {A : Type ℓ} (le : A → A → Bool) where
  unfoldable pub insert_sorted : A → List A → List A
  insert_sorted x [] = x ∷ []
  insert_sorted x (y ∷ ys) =
      let rest = insert_sorted x ys in if le x y then x ∷ y ∷ ys else y ∷ rest

  unfoldable pub sorted : List A → List A
  unfolding insert_sorted
  sorted [] = []
  sorted (x ∷ xs) = insert_sorted x (sorted xs)

  module _ {κ} (P : A → Type κ) where
    All-insert_sorted : (x : A) (ys : List A) → P x → All P ys → All P (insert_sorted x ys)
    unfolding insert_sorted
    All-insert_sorted x [] h a = (h, tt)
    All-insert_sorted x (y ∷ ys) h a = ground (arith, All-insert_sorted x ys h a.1)

    pub All-sorted : (xs : List A) → All P xs → All P (sorted xs)
    unfolding sorted
    All-sorted [] a = tt
    All-sorted (x ∷ xs) a = All-insert_sorted x (sorted xs) a.0 (All-sorted xs a.1)
