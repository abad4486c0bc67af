-- ===== src/Prelude/Slices.antt =====
-- Python's slices from the end of a list.
use Prim.Native.Nat.{ℕ, zero, suc, ◌-◌, ◌≤◌}
use mathlib.Core.Path.{◌≡◌, refl, ap, ◌∙◌}
use mathlib.Core.List.{List, [], ◌∷◌, ◌++◌}
use native.Mathlib.Omega.{arith}
use imcodex.Prelude.Lists.{length, take, drop, length-drop, length-append}

module _ {ℓ} {A : Type ℓ} where
  -- `xs[-n:]` for a positive n
  abbrev pub last_n : ℕ → List A → List A
  last_n n xs = drop (length xs - n) xs

  -- `xs[:-n]` for a positive n
  abbrev pub but_last_n : ℕ → List A → List A
  but_last_n n xs = take (length xs - n) xs

  pub length-last_n-le : (n : ℕ) (xs : List A) → length (last_n n xs) ≤ n
  length-last_n-le n xs = omega (arith, length-drop (length xs - n) xs)

  pub last_n_of_length-le : (n : ℕ) (xs : List A) → length xs ≤ n → last_n n xs ≡ xs
  last_n_of_length-le n xs h =
      let e : length xs - n ≡ 0 = omega arith in ap (λ (k : ℕ). drop k xs) e

  drop-append : (k : ℕ) (xs ys : List A) → k ≤ length xs → drop k (xs ++ ys) ≡ drop k xs ++ ys
  drop-append zero xs ys h = refl
  drop-append (suc k) [] ys h = elim h [ ]
  drop-append (suc k) (x ∷ xs) ys h = drop-append k xs ys (omega arith)

  -- An element appended last is kept by any positive slice from the end.
  pub last_n-snoc :
      (n : ℕ) (xs : List A) (x : A) → last_n (suc n) (xs ++ x ∷ []) ≡ last_n n xs ++ x ∷ []
  last_n-snoc n xs x =
      let e : length (xs ++ x ∷ []) - suc n ≡ length xs - n =
        omega (arith, length-append xs (x ∷ [])) in
      ap (λ (k : ℕ). drop k (xs ++ x ∷ [])) e
      ∙ drop-append (length xs - n) xs (x ∷ []) (omega arith)
