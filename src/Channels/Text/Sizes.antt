-- ===== src/Channels/Text/Sizes.antt =====
-- The sizes of what is cut off, and the bounds of the place of a break.
use Prim.Native.Char.{Char, code}
use imcodex.Prelude.{
  ℕ, zero, suc, ◌+◌, ◌-◌, ◌/◌, ◌≤◌, ◌<◌, String, ◌≡◌, refl, subst, Bool, true, false, Option, none,
  some, arith, leb, is_empty, max, min, Bool-cases, inl, inr, and_left, leb→le,
}
use imcodex.Text.{lstrip, rstrip, take_chars, is_space, keep_first}
use imcodex.Channels.Text.{
  size, drop_chars, or_here, or_limit, rfind_from, later_place, break_place,
}

pub size-take_chars : (n : ℕ) (s : String) → size (take_chars n s) ≡ min n (size s)
unfolding take_chars
size-take_chars zero s = omega arith
size-take_chars (suc n) String.[] = omega arith
size-take_chars (suc n) (String.◌∷◌ c s) = omega (arith, size-take_chars n s)

pub size-drop_chars : (n : ℕ) (s : String) → size (drop_chars n s) ≡ size s - n
size-drop_chars zero s = omega arith
size-drop_chars (suc n) String.[] = omega arith
size-drop_chars (suc n) (String.◌∷◌ c s) = omega (arith, size-drop_chars n s)

pub size-lstrip-le : (s : String) → size (lstrip s) ≤ size s
unfolding lstrip
size-lstrip-le String.[] = omega arith
size-lstrip-le (String.◌∷◌ c s) = ground (arith, size-lstrip-le s)

size-keep_first-le : (c : Char) (t : String) → size (keep_first c t) ≤ suc (size t)
size-keep_first-le c String.[] = elim (Bool-cases (is_space (code c))) [
  | inl w ↦ rw w (omega arith)
  | inr w ↦ rw w (omega arith)
]
size-keep_first-le c (String.◌∷◌ d t) = omega arith

pub size-rstrip-le : (s : String) → size (rstrip s) ≤ size s
unfolding rstrip
size-rstrip-le String.[] = omega arith
size-rstrip-le (String.◌∷◌ c s) = omega (arith, size-keep_first-le c (rstrip s), size-rstrip-le s)

pub size-positive : (s : String) → is_empty s ≡ false → 1 ≤ size s
size-positive String.[] h = absurd (ground arith)
size-positive (String.◌∷◌ c s) h = omega arith

-- A place, if there is one, is from `lo` on and before `hi`.
abbrev Within : ℕ → ℕ → Option ℕ → Type 0
Within lo hi none = Unit
Within lo hi (some place) = (lo ≤ place) × (place < hi)

or_here-Within :
    (later : Option ℕ) (fits : Bool) (at lo hi : ℕ)
    → Within lo hi later
    → (fits ≡ true → (lo ≤ at) × (at < hi))
    → Within lo hi (or_here later fits at)
or_here-Within (some p) fits at lo hi w h = w
or_here-Within none true at lo hi w h = h refl
or_here-Within none false at lo hi w h = tt

-- A part that is found lies in the text, from the start of the search on.
rfind-Within :
    (at : ℕ) (part : String) (start : ℕ) (s : String)
    → Within start (at + size s) (rfind_from at part start s)
unfolding rfind_from
rfind-Within at part start String.[] = tt
rfind-Within at part start (String.◌∷◌ c s) =
    or_here-Within (rfind_from (suc at) part start s) _ at start (at + suc (size s))
      (subst (λ n. Within start n (rfind_from (suc at) part start s)) (omega arith)
        (rfind-Within (suc at) part start s))
      (λ h. (leb→le start at (and_left (leb start at) _ h), omega arith))

later-Within :
    (lo hi : ℕ) (a b : Option ℕ) → Within lo hi a → Within lo hi b → Within lo hi (later_place a b)
later-Within lo hi none b v w = w
later-Within lo hi (some a) none v w = v
later-Within lo hi (some a) (some b) v w = (ground (arith, v.0, w.0), ground (arith, v.1, w.1))

or_limit-bounds :
    (found : Option ℕ) (minimum limit : ℕ)
    → 1 ≤ minimum
    → 1 ≤ limit
    → Within minimum (suc limit) found
    → (1 ≤ or_limit found minimum limit) × (or_limit found minimum limit ≤ limit)
or_limit-bounds none minimum limit m l w = (l, omega arith)
or_limit-bounds (some p) minimum limit m l w = ground (arith, w.0, w.1)

window-le : (limit : ℕ) (s : String) → size (take_chars (suc limit) s) ≤ suc limit
window-le limit s = omega (arith, size-take_chars (suc limit) s)

Within-weaken : (lo hi hi' : ℕ) (a : Option ℕ) → hi ≤ hi' → Within lo hi a → Within lo hi' a
Within-weaken lo hi hi' none h w = tt
Within-weaken lo hi hi' (some p) h w = (w.0, omega (arith, w.1))

-- A break falls after the first character and not after the limit.
pub break-bounds :
    (limit : ℕ) (s : String) → 1 ≤ limit → (1 ≤ break_place limit s) × (break_place limit s ≤ limit)
unfolding break_place
break-bounds limit s l =
    let window = take_chars (suc limit) s in
    let minimum = max 1 (limit / 2) in
    let search : (part : String) → Within minimum (suc limit) (rfind_from 0 part minimum window) =
      λ part.
        Within-weaken minimum (0 + size window) (suc limit) (rfind_from 0 part minimum window)
          (omega (arith, window-le limit s)) (rfind-Within 0 part minimum window) in
    or_limit-bounds _ minimum limit (omega arith) l (
      later-Within minimum (suc limit) _ _ (search "\n\n")
        (later-Within minimum (suc limit) _ _ (search "\n") (search " ")))
