-- ===== src/Prelude/Equality.antt =====
-- Python's `==` on the values that the program compares: numbers, texts, pairs and optional values.
use Prim.Native.Nat.{ℕ}
use Prim.Native.String.{String}
use mathlib.Core.Path.{◌≡◌, refl}
use mathlib.Core.Logic.{◌↔◌}
use mathlib.Core.Bool.{Bool, true, false, ◌&&◌, not}
use mathlib.Core.Option.{Option, none, some}
use mathlib.Core.List.{List, [], ◌∷◌, ◌++◌}
use native.Mathlib.Omega.{arith}
use text.Mathlib.Text.{◌==◌ as str_eq}
use text.Mathlib.TextEquality.{eq_iff}
use imcodex.Prelude.Tests.{nat_eq, nat_eq_iff, if◌then◌else◌}

pub record Eq {ℓ} (A : Type ℓ) : Type ℓ where
  pub beq : A → A → Bool
  pub beq_iff : (a b : A) → (beq a b ≡ true) ↔ (a ≡ b)

instance abbrev pub string_eq : Eq String
string_eq = record { beq = str_eq; beq_iff = eq_iff }

instance abbrev pub number_eq : Eq ℕ
number_eq = record { beq = nat_eq; beq_iff = nat_eq_iff }

module _ {ℓ} {A : Type ℓ} ⦃e : Eq A⦄ where
  abbrev pub pair_beq : A × A → A × A → Bool
  pair_beq (a, b) (c, d) = e.beq a c && e.beq b d

  pub pair_beq_iff : (p q : A × A) → (pair_beq p q ≡ true) ↔ (p ≡ q)
  pair_beq_iff (a, b) (c, d) = ground (arith, e.beq_iff a c, e.beq_iff b d)

  abbrev pub option_beq : Option A → Option A → Bool
  option_beq none none = true
  option_beq (some a) (some b) = e.beq a b
  option_beq none (some b) = false
  option_beq (some a) none = false

  pub option_beq_iff : (a b : Option A) → (option_beq a b ≡ true) ↔ (a ≡ b)
  option_beq_iff none none = ground arith
  option_beq_iff (some a) (some b) = ground (arith, e.beq_iff a b)
  option_beq_iff none (some b) = ground arith
  option_beq_iff (some a) none = ground arith

  instance abbrev pub pair_eq : Eq (A × A)
  pair_eq = record { beq = pair_beq; beq_iff = pair_beq_iff }

  instance abbrev pub option_eq : Eq (Option A)
  option_eq = record { beq = option_beq; beq_iff = option_beq_iff }

  pub beq_refl : (a : A) → e.beq a a ≡ true
  beq_refl a = (e.beq_iff a a).1 refl

  -- `a in xs`
  abbrev pub contains : List A → A → Bool
  contains [] a = false
  contains (x ∷ xs) a = let rest = contains xs a in if e.beq x a then true else rest

  pub contains-snoc : (xs : List A) (a : A) → contains (xs ++ a ∷ []) a ≡ true
  contains-snoc [] a = ground (arith, beq_refl a)
  contains-snoc (x ∷ xs) a = ground (arith, contains-snoc xs a)

-- `bool(text)` is false exactly on the empty text.
abbrev pub is_empty : String → Bool
is_empty s = str_eq s ""

abbrev pub truthy : Option String → Bool
truthy none = false
truthy (some s) = not (is_empty s)

infix 50 ◌==◌
abbrev pub ◌==◌ {ℓ} : {A : Type ℓ} ⦃e : Eq A⦄ → A → A → Bool
◌==◌ ⦃e⦄ = e.beq
