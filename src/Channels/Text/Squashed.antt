-- ===== src/Channels/Text/Squashed.antt =====
-- The characters of a text that are not white space, which a split must keep.
use Prim.Native.Char.{Char, code}
use imcodex.Prelude.{
  ℕ, zero, suc, String, ◌≡◌, refl, sym, ap, ◌∙◌, true, false, List, [], ◌∷◌, ◌++◌, if◌then◌else◌,
  Bool-cases, inl, inr,
}
use imcodex.Text.{lstrip, rstrip, strip, take_chars, is_space, keep_first}
use imcodex.Channels.Text.{drop_chars}

-- The white space is left out.
abbrev pub ink : String → List Char
ink String.[] = []
ink (String.◌∷◌ c s) = let rest = ink s in if is_space (code c) then rest else c ∷ rest

abbrev pub ink_of : List String → List Char
ink_of [] = []
ink_of (part ∷ parts) = ink part ++ ink_of parts

module _ (c : Char) (s : String) where
  ink-space : is_space (code c) ≡ true → ink (String.◌∷◌ c s) ≡ ink s
  ink-space w = rw w refl

  ink-other : is_space (code c) ≡ false → ink (String.◌∷◌ c s) ≡ c ∷ ink s
  ink-other n = rw n refl

  lstrip-space : is_space (code c) ≡ true → lstrip (String.◌∷◌ c s) ≡ lstrip s
  unfolding lstrip
  lstrip-space w = rw w refl

  lstrip-other : is_space (code c) ≡ false → lstrip (String.◌∷◌ c s) ≡ String.◌∷◌ c s
  unfolding lstrip
  lstrip-other n = rw n refl

pub ink-lstrip : (s : String) → ink (lstrip s) ≡ ink s
unfolding lstrip
ink-lstrip String.[] = refl
ink-lstrip (String.◌∷◌ c s) = elim (Bool-cases (is_space (code c))) [
  | inl w ↦ ap ink (lstrip-space c s w) ∙ ink-lstrip s ∙ sym (ink-space c s w)
  | inr n ↦ ap ink (lstrip-other c s n)
]

ink-keep_first : (c : Char) (t : String) → ink (keep_first c t) ≡ ink (String.◌∷◌ c t)
ink-keep_first c String.[] = elim (Bool-cases (is_space (code c))) [
  | inl w ↦ rw (ink-space c String.[] w) (rw w refl)
  | inr n ↦ rw (ink-other c String.[] n) (rw n (ink-other c String.[] n))
]
ink-keep_first c (String.◌∷◌ d t) = refl

ink-same_head :
    (c : Char) (s t : String) → ink s ≡ ink t → ink (String.◌∷◌ c s) ≡ ink (String.◌∷◌ c t)
ink-same_head c s t e = elim (Bool-cases (is_space (code c))) [
  | inl w ↦ ink-space c s w ∙ e ∙ sym (ink-space c t w)
  | inr n ↦ ink-other c s n ∙ ap (◌∷◌ c) e ∙ sym (ink-other c t n)
]

pub ink-rstrip : (s : String) → ink (rstrip s) ≡ ink s
unfolding rstrip
ink-rstrip String.[] = refl
ink-rstrip (String.◌∷◌ c s) =
    ink-keep_first c (rstrip s) ∙ ink-same_head c (rstrip s) s (ink-rstrip s)

pub ink-strip : (s : String) → ink (strip s) ≡ ink s
unfolding strip
ink-strip s = rw (ink-rstrip (lstrip s), ink-lstrip s) refl

-- A cut loses nothing.
pub ink-cut : (n : ℕ) (s : String) → ink (take_chars n s) ++ ink (drop_chars n s) ≡ ink s
unfolding take_chars
ink-cut zero s = refl
ink-cut (suc n) String.[] = refl
ink-cut (suc n) (String.◌∷◌ c s) = elim (Bool-cases (is_space (code c))) [
  | inl w ↦ rw w (ink-cut n s)
  | inr v ↦ rw v (ap (◌∷◌ c) (ink-cut n s))
]
