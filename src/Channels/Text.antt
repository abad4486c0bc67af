-- ===== src/Channels/Text.antt =====
-- channels/text.py: `split_text`, which cuts a text into parts that a platform accepts.
pub mod Sizes
pub mod Squashed
pub mod Split
mod Tests
use imcodex.Prelude.{
  ℕ, zero, suc, ◌/◌, ◌&&◌, String, Bool, Option, none, some, List, [], ◌∷◌, ltb, leb, if◌then◌else◌,
  is_empty, max, starts_with,
}
use imcodex.Text.{strip, lstrip, rstrip, take_chars}

-- `len(text)`
abbrev pub size : String → ℕ
size String.[] = 0
size (String.◌∷◌ c s) = suc (size s)

-- `text[n:]`
abbrev pub drop_chars : ℕ → String → String
drop_chars zero s = s
drop_chars (suc n) String.[] = String.[]
drop_chars (suc n) (String.◌∷◌ c s) = drop_chars n s

-- A later place counts, or else this one if it fits.
abbrev pub or_here : Option ℕ → Bool → ℕ → Option ℕ
or_here (some place) fits at = some place
or_here none fits at = if fits then some at else none

-- `text.rfind(part, start)`: the last place from `start` on, counted from `at`; none is -1
unfoldable pub rfind_from : ℕ → String → ℕ → String → Option ℕ
rfind_from at part start String.[] = none
rfind_from at part start (String.◌∷◌ c s) =
    or_here (rfind_from (suc at) part start s) (leb start at && starts_with (String.◌∷◌ c s) part)
      at

-- `max` of two places, where none is -1
abbrev pub later_place : Option ℕ → Option ℕ → Option ℕ
later_place none b = b
later_place (some a) none = some a
later_place (some a) (some b) = some (max a b)

-- The fallback where no soft break was found
abbrev pub or_limit : Option ℕ → ℕ → ℕ → ℕ
or_limit none minimum limit = limit
or_limit (some place) minimum limit = if ltb place minimum then limit else place

-- The place of the break, from the three searches in the window to the fallback
unfoldable pub break_place : ℕ → String → ℕ
unfolding rfind_from
break_place limit remaining =
    let window = take_chars (suc limit) remaining in
    let minimum = max 1 (limit / 2) in
    let found =
      later_place (rfind_from 0 "\n\n" minimum window)
        (later_place (rfind_from 0 "\n" minimum window) (rfind_from 0 " " minimum window)) in
    or_limit found minimum limit

-- The chunk and the place after it
unfoldable pub next_chunk : ℕ → String → String × ℕ
unfolding break_place
next_chunk limit remaining =
    let place = break_place limit remaining in
    let chunk = rstrip (take_chars place remaining) in
    if is_empty chunk then (take_chars limit remaining, limit) else (chunk, place)

-- The loop on fuel: nothing if the fuel does not suffice
unfoldable pub split_loop : ℕ → ℕ → String → Option (List String)
unfolding next_chunk
split_loop zero limit remaining = none
split_loop (suc fuel) limit remaining =
    let (chunk, place) = next_chunk limit remaining in
    let rest = split_loop fuel limit (lstrip (drop_chars place remaining)) in
    if ltb limit (size remaining)
    then elim rest [ none ↦ none | some chunks ↦ some (chunk ∷ chunks) ]
    else if is_empty remaining
    then some []
    else some (remaining ∷ [])

-- A limit that is not positive is a ValueError, told apart from the end of the fuel.
pub data SplitResult : Type 0 where
  bad_limit : SplitResult
  out_of_fuel : SplitResult
  chunks : List String → SplitResult

unfoldable pub split_text : String → ℕ → SplitResult
unfolding split_loop
split_text text zero = bad_limit
split_text text (suc n) =
    let remaining = strip text in
    elim (split_loop (suc (size remaining)) (suc n) remaining) [
      | none ↦ out_of_fuel
      | some parts ↦ chunks parts
    ]
