-- ===== src/Channels/Access.antt =====
-- channels/access.py: `ChannelAccessPolicy`, whose sets of ids are lists here, and `parse_id_set`.
pub mod Meaning
mod Tests
use imcodex.Prelude.{
  ℕ, ◌+◌, String, Bool, true, false, Option, none, some, List, [], ◌∷◌, ◌++◌, ◌==◌, ◌&&◌, ◌||◌, not,
  string_eq, if◌then◌else◌, is_empty, contains, keep, map, all, any, nat_eq,
}
use Prim.Native.String.{◌++◌ as text_append}
use imcodex.Text.{strip, split_on, lowers_to}

-- A value of the configuration: `None`, a text, or an iterable of values, each as its `str`.
pub data IdSetValue : Type 0 where
  absent : IdSetValue
  text : String → IdSetValue
  items : List String → IdSetValue

-- `value.replace("\n", ",").split(",")`: both characters separate
unfoldable pub split_ids : String → List String
unfolding split_on
split_ids value = split_lines (split_on 10 value)
  where
    split_lines : List String → List String
    split_lines [] = []
    split_lines (line ∷ lines) = split_on 44 line ++ split_lines lines

abbrev pub stripped_ids : List String → List String
stripped_ids values = keep (λ id. not (is_empty id)) (map (λ value. strip value) values)

unfoldable pub parse_id_set : IdSetValue → List String
unfolding split_ids
parse_id_set absent = []
parse_id_set (text value) = stripped_ids (split_ids value)
parse_id_set (items values) = stripped_ids values

pub record ChannelAccessPolicy : Type 0 where
  pub allowed_user_ids : List String
  pub allowed_conversation_ids : List String
  pub access_match : String

-- `ChannelAccessPolicy(…)` with `__post_init__`; nothing is a ValueError
unfoldable pub new_policy : List String → List String → String → Option ChannelAccessPolicy
new_policy users conversations access_match =
    let configured = users ++ conversations in
    if not (access_match == "any" || access_match == "all")
    then none
    else if contains configured "none" && not (all (λ id. id == "none") configured)
    then none
    else some (record {
      allowed_user_ids = users;
      allowed_conversation_ids = conversations;
      access_match = access_match;
    })

-- `str(config.get("access_match") or "any").strip().lower()`, where only the two values matter: any
-- other text is rejected in either case.
unfoldable pub match_of : Option String → String
match_of none = "any"
match_of (some given) =
    let chosen = strip (if is_empty given then "any" else given) in
    if lowers_to chosen "any" then "any" else if lowers_to chosen "all" then "all" else chosen

unfoldable pub from_config : IdSetValue → IdSetValue → Option String → Option ChannelAccessPolicy
unfolding parse_id_set match_of new_policy
from_config users conversations access_match =
    new_policy (parse_id_set users) (parse_id_set conversations) (match_of access_match)

unfoldable pub allow_all : Option ChannelAccessPolicy
unfolding new_policy
allow_all = new_policy [] [] "any"

unfoldable pub denies_all : ChannelAccessPolicy → Bool
denies_all p = contains p.allowed_user_ids "none" || contains p.allowed_conversation_ids "none"

unfoldable pub restricted_user_ids : ChannelAccessPolicy → List String
unfolding denies_all
restricted_user_ids p =
    if contains p.allowed_user_ids "*" || denies_all p then [] else p.allowed_user_ids

unfoldable pub restricted_conversation_ids : ChannelAccessPolicy → List String
unfolding denies_all
restricted_conversation_ids p =
    if contains p.allowed_conversation_ids "*" || denies_all p
    then []
    else p.allowed_conversation_ids

-- `int(bool(ids))`
abbrev pub counted : List String → ℕ
counted [] = 0
counted (_ ∷ _) = 1

unfoldable pub active_restriction_count : ChannelAccessPolicy → ℕ
unfolding restricted_user_ids restricted_conversation_ids
active_restriction_count p =
    counted (restricted_user_ids p) + counted (restricted_conversation_ids p)

unfoldable pub mode : ChannelAccessPolicy → String
unfolding denies_all active_restriction_count
mode p =
    if denies_all p
    then "deny_all"
    else if nat_eq (active_restriction_count p) 0
    then "platform"
    else text_append "restricted_" p.access_match

-- `if ids: matches.append(id in ids)`
abbrev pub matches_of : List String → String → List Bool
matches_of [] id = []
matches_of (x ∷ xs) id = contains (x ∷ xs) id ∷ []

abbrev pub decided : String → List Bool → Bool
decided access_match [] = true
decided access_match (m ∷ ms) =
    if access_match == "any" then any (λ b. b) (m ∷ ms) else all (λ b. b) (m ∷ ms)

unfoldable pub allows : ChannelAccessPolicy → String → String → Bool
unfolding denies_all restricted_user_ids restricted_conversation_ids
allows p user conversation =
    if denies_all p
    then false
    else decided p.access_match (
        matches_of (restricted_user_ids p) user
        ++ matches_of (restricted_conversation_ids p) conversation)
