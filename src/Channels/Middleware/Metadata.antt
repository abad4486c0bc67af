-- ===== src/Channels/Middleware/Metadata.antt =====
-- channels/middleware.py: what is written into the metadata of a message before it is sent.
use Prim.Native.String.{◌++◌ as text_append}
use Prim.Native.Nat.{◌%◌}
use imcodex.Prelude.{
  ℕ, zero, suc, ◌/◌, String, Option, none, some, List, [], ◌∷◌, ◌==◌, string_eq, option_eq,
  if◌then◌else◌, is_empty, is_some, leb, ltb,
}
use imcodex.Models.Json.{Json}
use imcodex.Models.{
  Pair, Items, Fields, end, field, nil, cons, null, bool, num, str, arr, obj, get_field, as_dict,
  ConversationBinding,
}
use imcodex.Store.State.{Store}
use imcodex.Store.Registry.{get_binding}
use imcodex.Store.Inbound.{Inbound}
use imcodex.Bridge.Delivery.Direct.{put_field}
use imcodex.Bridge.Identity.{hash_input}

-- `d.setdefault(name, value)`
unfoldable pub set_default : String → Json → Fields → Fields
unfolding put_field
set_default name value d = if is_some (get_field d name) then d else put_field name value d

-- The answer of `get_route_context` that counts here: the last message, and when it was seen
abbrev pub seen_for : String → ConversationBinding → Option ℕ
seen_for reply_to binding =
    if binding.reply_context.last_inbound_message_id == some reply_to
    then binding.reply_context.last_inbound_seen_at
    else none

abbrev pub with_seen_at : Option ℕ → Fields → Fields
with_seen_at none metadata = metadata
with_seen_at (some seen_at) metadata = set_default "reply_to_seen_at" (num seen_at) metadata

-- `_attach_reply_metadata`; an empty id is a missing one
unfoldable pub attach_reply_metadata : Pair → String → Fields → Store → Fields × Store
unfolding set_default
attach_reply_metadata key reply_to metadata s =
    let (binding, s') = get_binding key s in
    let replied = set_default "reply_to_message_id" (str reply_to) metadata in
    if is_empty reply_to
    then (metadata, s)
    else (with_seen_at (seen_for reply_to binding) replied, s')

-- `_json_safe_value` on JSON values: what is nested too deep is dropped.
mutual
  pub json_safe_value : ℕ → Json → Json
  json_safe_value depth null = null
  json_safe_value depth (bool b) = bool b
  json_safe_value depth (num n) = num n
  json_safe_value depth (str s) = str s
  json_safe_value depth (arr items) =
      let safe = json_safe_items (suc depth) items in if leb 8 depth then null else arr safe
  json_safe_value depth (obj d) =
      let safe = json_safe_fields (suc depth) d in if leb 8 depth then null else obj safe

  pub json_safe_items : ℕ → Items → Items
  json_safe_items depth nil = nil
  json_safe_items depth (cons v items) =
      cons (json_safe_value depth v) (json_safe_items depth items)

  pub json_safe_fields : ℕ → Fields → Fields
  json_safe_fields depth end = end
  json_safe_fields depth (field k v d) =
      field k (json_safe_value depth v) (json_safe_fields depth d)

-- `_json_safe_mapping`
unfoldable pub json_safe_mapping : Option Json → Fields
json_safe_mapping value = json_safe_fields 1 (as_dict value)

-- `str(n)`, on fuel that is the number itself and one more
abbrev digit : ℕ → String
digit zero = "0"
digit (suc zero) = "1"
digit (suc (suc zero)) = "2"
digit (suc (suc (suc zero))) = "3"
digit (suc (suc (suc (suc zero)))) = "4"
digit (suc (suc (suc (suc (suc zero))))) = "5"
digit (suc (suc (suc (suc (suc (suc zero)))))) = "6"
digit (suc (suc (suc (suc (suc (suc (suc zero))))))) = "7"
digit (suc (suc (suc (suc (suc (suc (suc (suc zero)))))))) = "8"
digit (suc (suc (suc (suc (suc (suc (suc (suc (suc n))))))))) = "9"

unfoldable pub decimal : ℕ → ℕ → String
decimal zero n = digit n
decimal (suc fuel) n =
    let front = decimal fuel (n / 10) in
    if ltb n 10 then digit n else text_append front (digit (n % 10))

module _ (utf8 : String → List ℕ) (digest : List ℕ → String) where
  -- `_delivery_id`
  unfoldable pub delivery_id : String → Inbound → ℕ → String
  unfolding decimal
  delivery_id namespace m index = text_append "imcodex:" (
      digest (
        hash_input utf8 (
          namespace
          ∷ m.conversation.0
          ∷ m.conversation.1
          ∷ m.message_id
          ∷ decimal (suc index) index
          ∷ [])))
