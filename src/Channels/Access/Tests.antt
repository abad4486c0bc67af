-- ===== src/Channels/Access/Tests.antt =====
-- A policy for two users in one group.
use imcodex.Prelude.{◌≡◌, refl, some, [], ◌∷◌, ◌&&◌, ◌||◌, not, string_eq, contains}
use imcodex.Text.{strip, lstrip, rstrip, split_on, lowers_to}
use imcodex.Channels.Access.{ChannelAccessPolicy, text, parse_id_set, from_config, allows, mode}
use imcodex.Channels.Access.Meaning.{admits, allows-admits}

abbrev policy : ChannelAccessPolicy
policy = record {
  allowed_user_ids = "alice" ∷ "bob" ∷ [];
  allowed_conversation_ids = "group" ∷ [];
  access_match = "all";
}

ids_read : parse_id_set (text " alice,bob\n\n carol ") ≡ "alice" ∷ "bob" ∷ "carol" ∷ []
unfolding parse_id_set split_on strip lstrip rstrip
ids_read = refl

configured : from_config (text "alice,bob") (text "group") (some " ALL ") ≡ some policy
unfolding from_config parse_id_set split_on strip lstrip rstrip lowers_to
configured = refl

reported : mode policy ≡ "restricted_all"
unfolding mode
reported = refl

allows-admits_example : allows policy "alice" "elsewhere" ≡ (
    not (contains policy.allowed_user_ids "none" || contains policy.allowed_conversation_ids "none")
    && admits policy.access_match policy.allowed_user_ids policy.allowed_conversation_ids "alice"
        "elsewhere")
allows-admits_example = allows-admits policy "alice" "elsewhere"
