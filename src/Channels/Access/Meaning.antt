-- ===== src/Channels/Access/Meaning.antt =====
-- What a policy means: each dimension alone, and both together.
use imcodex.Prelude.{
  String, ◌≡◌, refl, Bool, true, false, List, [], ◌∷◌, ◌++◌, arith, ◌==◌, ◌&&◌, ◌||◌, not,
  string_eq, if◌then◌else◌, contains, Bool-cases, inl, inr,
}
use imcodex.Channels.Access.{
  ChannelAccessPolicy, denies_all, restricted_user_ids, restricted_conversation_ids, matches_of,
  decided, allows,
}

-- A dimension that is empty or holds the star restricts nobody.
abbrev pub is_free : List String → Bool
is_free [] = true
is_free (x ∷ xs) = contains (x ∷ xs) "*"

-- The policy in words: both dimensions admit under "all"; under "any" one that restricts admits, or
-- none restricts.
abbrev pub admits : String → List String → List String → String → String → Bool
admits access_match users conversations user conversation =
    let user_listed = contains users user in
    let conversation_listed = contains conversations conversation in
    if access_match == "any"
    then (is_free users && is_free conversations)
      || ((not (is_free users) && user_listed)
          || (not (is_free conversations) && conversation_listed))
    else (is_free users || user_listed) && (is_free conversations || conversation_listed)

either_decides :
    (access_match : String) (users conversations : List String) (user conversation : String)
    → decided access_match (
        matches_of (if contains users "*" || false then [] else users) user
        ++ matches_of
            (if contains conversations "*" || false then [] else conversations)
            conversation)
      ≡ admits access_match users conversations user conversation
either_decides a [] [] u c = ground arith
either_decides a [] (y ∷ ys) u c = ground arith
either_decides a (x ∷ xs) [] u c = ground arith
either_decides a (x ∷ xs) (y ∷ ys) u c = ground arith

-- A message is allowed exactly if no dimension denies all and the two dimensions together admit it.
pub allows-admits :
    (p : ChannelAccessPolicy) (user conversation : String)
    → allows p user conversation ≡ (
        not (contains p.allowed_user_ids "none" || contains p.allowed_conversation_ids "none")
        && admits p.access_match p.allowed_user_ids p.allowed_conversation_ids user conversation)
unfolding allows denies_all restricted_user_ids restricted_conversation_ids
allows-admits p user conversation =
    elim (Bool-cases
      (contains p.allowed_user_ids "none" || contains p.allowed_conversation_ids "none")) [
        | inl d ↦ rw d refl
        | inr d ↦ rw d (
            either_decides p.access_match p.allowed_user_ids p.allowed_conversation_ids user
              conversation)
      ]
