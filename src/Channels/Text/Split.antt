-- ===== src/Channels/Text/Split.antt =====
-- The parts of a split: they fit, none is empty, and together they are the text.
use imcodex.Prelude.{
  ℕ, zero, suc, ◌≤◌, ◌<◌, String, ◌≡◌, refl, sym, ap, ◌∙◌, subst, true, false, Option, none, some,
  List, [], ◌∷◌, ◌++◌, append-nil, arith, ltb, ltb→lt, lt→ltb, if◌then◌else◌, is_empty, All,
  Bool-cases, inl, inr, string_eq, eq_iff,
}
use imcodex.Text.{strip, lstrip, rstrip, take_chars}
use imcodex.Channels.Text.{
  size, drop_chars, break_place, next_chunk, split_loop, chunks, split_text,
}
use imcodex.Channels.Text.Sizes.{
  size-take_chars, size-drop_chars, size-lstrip-le, size-rstrip-le, size-positive, break-bounds,
}
use imcodex.Channels.Text.Squashed.{ink, ink_of, ink-lstrip, ink-rstrip, ink-strip, ink-cut}

-- A part is not empty and fits.
abbrev pub Fits : ℕ → String → Type 0
Fits limit part = (1 ≤ size part) × (size part ≤ limit)

-- A chunk with the place after it, cut off a text
abbrev Cut : ℕ → String → String × ℕ → Type 0
Cut limit s (chunk, place) =
    Fits limit chunk × (1 ≤ place) × (ink chunk ++ ink (drop_chars place s) ≡ ink s)

next-Cut : (limit : ℕ) (s : String) → 1 ≤ limit → limit < size s → Cut limit s (next_chunk limit s)
unfolding next_chunk
next-Cut limit s l h = elim (Bool-cases (is_empty (rstrip (take_chars (break_place limit s) s)))) [
  | inl e ↦
      rw (e, next_chunk)
        (
          (omega (arith, size-take_chars limit s), omega (arith, size-take_chars limit s)),
          l,
          ink-cut limit s,
        )
  | inr e ↦
      let b = break-bounds limit s l in
      let place = break_place limit s in
      rw (e, next_chunk)
        (
          (
            size-positive (rstrip (take_chars place s)) e,
            omega (arith, size-rstrip-le (take_chars place s), size-take_chars place s, b.1),
          ),
          b.0,
          rw (ink-rstrip (take_chars place s)) (ink-cut place s),
        )
]

-- What a split gives: parts that fit and are the text together
abbrev Parts : ℕ → String → Option (List String) → Type 0
Parts limit s result =
    (parts : List String) × (result ≡ some parts) × All (Fits limit) parts × (ink_of parts ≡ ink s)

-- One turn of the loop, for a rest that has been split
abbrev with_chunk : String → Option (List String) → Option (List String)
with_chunk chunk none = none
with_chunk chunk (some parts) = some (chunk ∷ parts)

loop-more :
    (fuel limit : ℕ) (s : String)
    → limit < size s
    → split_loop (suc fuel) limit s
      ≡ with_chunk
          (next_chunk limit s).0
          (split_loop fuel limit (lstrip (drop_chars (next_chunk limit s).1 s)))
unfolding split_loop
loop-more fuel limit s h = rw (lt→ltb limit (size s) h, split_loop) refl

loop-last :
    (fuel limit : ℕ) (s : String)
    → ltb limit (size s) ≡ false
    → split_loop (suc fuel) limit s ≡ (if is_empty s then some [] else some (s ∷ []))
unfolding split_loop
loop-last fuel limit s h = rw (h, split_loop) refl

ink-empty : (s : String) → is_empty s ≡ true → [] ≡ ink s
ink-empty s e = ap ink (sym ((eq_iff s "").0 e))

last-Parts :
    (limit : ℕ) (s : String)
    → ltb limit (size s) ≡ false
    → Parts limit s (if is_empty s then some [] else some (s ∷ []))
last-Parts limit s h = elim (Bool-cases (is_empty s)) [
  | inl e ↦ rw e ([], refl, tt, ink-empty s e)
  | inr e ↦ rw e (s ∷ [], refl, ((size-positive s e, ground (arith, h)), tt), append-nil (ink s))
]

more-Parts :
    (limit place : ℕ) (s chunk : String) (result : Option (List String))
    → Cut limit s (chunk, place)
    → Parts limit (lstrip (drop_chars place s)) result
    → Parts limit s (with_chunk chunk result)
more-Parts limit place s chunk result (fits, _, inked) (parts, e, all_fit, i) = (
  chunk ∷ parts,
  ap (with_chunk chunk) e,
  (fits, all_fit),
  ap (λ rest. ink chunk ++ rest) (i ∙ ink-lstrip (drop_chars place s)) ∙ inked,
)

loop-Parts :
    (fuel limit : ℕ) (s : String)
    → 1 ≤ limit
    → size s < fuel
    → Parts limit s (split_loop fuel limit s)
loop-Parts zero limit s l h = absurd (omega (arith, h))
loop-Parts (suc fuel) limit s l h = elim (Bool-cases (ltb limit (size s))) [
  | inl more ↦
      let longer : limit < size s = ltb→lt limit (size s) more in
      let (chunk, place) = next_chunk limit s in
      let cut : Cut limit s (chunk, place) = next-Cut limit s l longer in
      let rest = lstrip (drop_chars place s) in
      subst (Parts limit s) (sym (loop-more fuel limit s longer)) (
        more-Parts limit place s chunk (split_loop fuel limit rest) cut (
          loop-Parts fuel limit rest l (
            omega (
              arith,
              h,
              longer,
              cut.1,
              size-lstrip-le (drop_chars place s),
              size-drop_chars place s,
            ))))
  | inr fits ↦ subst (Parts limit s) (sym (loop-last fuel limit s fits)) (last-Parts limit s fits)
]

-- For a positive limit the split ends with parts that are not empty and within the limit, and that
-- together are the text but for white space.
pub split_complete :
    (text : String) (limit : ℕ)
    → 1 ≤ limit
    → (parts : List String) × (split_text text limit ≡ chunks parts)
      × All (Fits limit) parts
      × (ink_of parts ≡ ink text)
unfolding split_text
split_complete text zero l = absurd (omega (arith, l))
split_complete text (suc n) l =
    let (parts, e, fit, i) =
      loop-Parts (suc (size (strip text))) (suc n) (strip text) l (omega arith) in
    (parts, rw (e, split_text) refl, fit, i ∙ ink-strip text)
