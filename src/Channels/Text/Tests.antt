-- ===== src/Channels/Text/Tests.antt =====
-- A text of a few words.
use imcodex.Prelude.{String, ◌≡◌, refl, [], ◌∷◌, List, arith, All}
use imcodex.Text.{strip, lstrip, rstrip, take_chars}
use imcodex.Channels.Text.{chunks, split_text}
use imcodex.Channels.Text.Squashed.{ink, ink_of}
use imcodex.Channels.Text.Split.{Fits, split_complete}

words_split : split_text " one two\nthree-four " 9 ≡ chunks ("one two" ∷ "three-fou" ∷ "r" ∷ [])
unfolding split_text strip lstrip rstrip take_chars
words_split = refl

split_complete_example :
    (parts : List String) × (split_text " one two\nthree-four " 9 ≡ chunks parts)
    × All (Fits 9) parts
    × (ink_of parts ≡ ink " one two\nthree-four ")
split_complete_example = split_complete " one two\nthree-four " 9 (omega arith)
