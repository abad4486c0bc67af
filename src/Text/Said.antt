-- ===== src/Text/Said.antt =====
-- Texts that say something: one character at least is not white space.
use Prim.Native.Char.{Char, code}
use Prim.Native.String.{◌++◌ as text_append}
use Prim.Native.String.append.{nil, cons}
use Prim.Native.String.compare.{cons-nil}
use text.Mathlib.Text.{is_eq}
use imcodex.Prelude.{
  String, ◌≡◌, refl, ap, ◌∙◌, Bool, false, [], ◌∷◌, arith, ◌||◌, not, is_empty, Bool-cases, inl,
  inr,
}
use imcodex.Text.{is_space, lstrip, rstrip, strip, keep_first, join_parts, join}

-- A character that is not white space
abbrev says : String → Bool
says String.[] = false
says (String.◌∷◌ c s) = not (is_space (code c)) || says s

says-lstrip : (s : String) → says (lstrip s) ≡ says s
unfolding lstrip
says-lstrip String.[] = refl
says-lstrip (String.◌∷◌ c s) = ground (arith, says-lstrip s)

cons-is_empty : (c : Char) (s : String) → is_empty (String.◌∷◌ c s) ≡ false
cons-is_empty c s = ap is_eq (λ i. cons-nil c s i)

keep_first-is_empty :
    (c : Char) (t : String)
    → is_empty (keep_first c t) ≡ not (not (is_space (code c)) || not (is_empty t))
keep_first-is_empty c String.[] = elim (Bool-cases (is_space (code c))) [
  | inl w ↦ rw w refl
  | inr n ↦ rw n (cons-is_empty c String.[])
]
keep_first-is_empty c (String.◌∷◌ d t) =
    ground (arith, cons-is_empty c (String.◌∷◌ d t), cons-is_empty d t)

rstrip-is_empty : (s : String) → is_empty (rstrip s) ≡ not (says s)
unfolding rstrip
rstrip-is_empty String.[] = refl
rstrip-is_empty (String.◌∷◌ c s) =
    ground (arith, keep_first-is_empty c (rstrip s), rstrip-is_empty s)

strip-is_empty : (s : String) → is_empty (strip s) ≡ not (says s)
unfolding strip
strip-is_empty s = rstrip-is_empty (lstrip s) ∙ ap not (says-lstrip s)

append-cons :
    (c : Char) (s t : String) → text_append (String.◌∷◌ c s) t ≡ String.◌∷◌ c (text_append s t)
append-cons c s t = λ i. cons c s t i

says-append : (s t : String) → says (text_append s t) ≡ (says s || says t)
says-append String.[] t = ap says (λ i. nil t i)
says-append (String.◌∷◌ c s) t = ap says (append-cons c s t) ∙ ground (arith, says-append s t)

-- What stands behind a text that says something does not make it blank.
pub append-says :
    (s t : String) → is_empty (strip s) ≡ false → is_empty (strip (text_append s t)) ≡ false
append-says s t h =
    ground (arith, h, strip-is_empty s, strip-is_empty (text_append s t), says-append s t)

strip-empty : (s : String) → is_empty (strip s) ≡ false → is_empty s ≡ false
strip-empty String.[] h = absurd (ground (arith, h, strip-is_empty String.[]))
strip-empty (String.◌∷◌ c s) h = cons-is_empty c s

-- The same for a text that is joined with another.
pub join_parts-says :
    (separator s t : String)
    → is_empty (strip s) ≡ false
    → is_empty (strip (join_parts separator (s ∷ t ∷ []))) ≡ false
unfolding join_parts join
join_parts-says separator s t h = elim (Bool-cases (is_empty t)) [
  | inl e ↦ rw (strip-empty s h, e, join_parts, join) h
  | inr e ↦ rw (strip-empty s h, e, join_parts, join) (append-says s (text_append separator t) h)
]
