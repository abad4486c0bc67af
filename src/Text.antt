-- ===== src/Text.antt =====
-- Python's `str.strip` and its halves, on the characters of a text, and `str.join`.
pub mod Paths
pub mod Said
use Prim.Native.Char.{Char, code}
use Prim.Native.String.{◌++◌ as text_append}
use imcodex.Prelude.{
  ℕ, zero, suc, String, Bool, ◌&&◌, ◌||◌, leb, nat_eq, if◌then◌else◌, true, false, List, [], ◌∷◌,
  keep, not, is_empty, ◌+◌,
}

-- `c.isspace()` for one character, by its code point
unfoldable pub is_space : ℕ → Bool
is_space c =
    (leb 9 c && leb c 13)
    || ((leb 28 c && leb c 32)
        || (nat_eq c 0x85
            || (nat_eq c 0xa0
                || (nat_eq c 0x1680
                    || ((leb 0x2000 c && leb c 0x200a)
                        || (nat_eq c 0x2028
                            || (nat_eq c 0x2029
                                || (nat_eq c 0x202f || (nat_eq c 0x205f || nat_eq c 0x3000)))))))))

unfoldable pub lstrip : String → String
unfolding is_space
lstrip String.[] = String.[]
lstrip (String.◌∷◌ c s) = let rest = lstrip s in if is_space (code c) then rest else String.◌∷◌ c s

-- A character stays in front of a stripped text unless both are white space.
abbrev pub keep_first : Char → String → String
keep_first c String.[] = if is_space (code c) then String.[] else String.◌∷◌ c String.[]
keep_first c (String.◌∷◌ d t) = String.◌∷◌ c (String.◌∷◌ d t)

unfoldable pub rstrip : String → String
unfolding is_space
rstrip String.[] = String.[]
rstrip (String.◌∷◌ c s) = keep_first c (rstrip s)

unfoldable pub strip : String → String
unfolding lstrip rstrip
strip s = rstrip (lstrip s)

-- `text[:n]`
unfoldable pub take_chars : ℕ → String → String
take_chars zero s = String.[]
take_chars (suc n) String.[] = String.[]
take_chars (suc n) (String.◌∷◌ c s) = String.◌∷◌ c (take_chars n s)

-- `separator.join(parts)`
unfoldable pub join : String → List String → String
join separator [] = ""
join separator (part ∷ []) = part
join separator (part ∷ more ∷ parts) =
    text_append part (text_append separator (join separator (more ∷ parts)))

-- `separator.join(part for part in parts if part)`
unfoldable pub join_parts : String → List String → String
join_parts separator parts = join separator (keep (λ part. not (is_empty part)) parts)

-- An upper-case letter of ASCII as a lower-case one, by its code point
abbrev lowered : ℕ → ℕ
lowered c = if leb 65 c && leb c 90 then c + 32 else c

-- `text.lower() == word` for a word of lower-case letters of ASCII without k: no other character
-- has such a letter as its lower case.
unfoldable pub lowers_to : String → String → Bool
lowers_to String.[] String.[] = true
lowers_to String.[] (String.◌∷◌ d t) = false
lowers_to (String.◌∷◌ c s) String.[] = false
lowers_to (String.◌∷◌ c s) (String.◌∷◌ d t) =
    let rest = lowers_to s t in if nat_eq (lowered (code c)) (code d) then rest else false

-- Puts a character before the first part.
abbrev prepend : Char → List String → List String
prepend c [] = String.◌∷◌ c String.[] ∷ []
prepend c (part ∷ parts) = String.◌∷◌ c part ∷ parts

-- `text.split(d)` for the one character `d`, given by its code point
unfoldable pub split_on : ℕ → String → List String
split_on d String.[] = "" ∷ []
split_on d (String.◌∷◌ c s) =
    let parts = split_on d s in if nat_eq (code c) d then "" ∷ parts else prepend c parts
