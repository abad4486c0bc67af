-- ===== src/Bridge/Delivery/Payload.antt =====
-- bridge/terminal_delivery.py and models.py: a staged payload read as a message. A message stands for
-- itself as its `asdict`, so that `asdict(message)` is the identity.
use imcodex.Prelude.{
  String, Bool, true, false, Option, none, some, List, [], ◌∷◌, ◌||◌, string_eq, if◌then◌else◌,
  contains, is_empty, not,
}
use imcodex.Models.Json.{Json}
use imcodex.Models.{
  Pair, Items, Fields, end, field, nil, cons, get_field, str, null, bool, num, obj, arr,
}

-- Every key is the name of a field of the data class, or the call is a TypeError.
unfoldable pub only_keys : List String → Fields → Bool
only_keys names end = true
only_keys names (field k v d) =
    let rest = only_keys names d in if contains names k then rest else false

-- A keyword argument without a default: its absence is a TypeError.
unfoldable pub required : String → Fields → Option Fields → Option Fields
required name payload none = none
required name payload (some rest) = elim (get_field payload name) [
  | none ↦ none
  | some value ↦ some (field name value rest)
]

unfoldable pub optional : String → Json → Fields → Fields → Fields
optional name default payload rest = elim (get_field payload name) [
  | none ↦ field name default rest
  | some value ↦ field name value rest
]

-- `OutboundArtifact(**item)`; an item that is no dict is a TypeError
unfoldable pub construct_artifact : Json → Option Json
unfolding only_keys required optional
construct_artifact (obj item) =
    let names =
      "kind" ∷ "local_path" ∷ "content_type" ∷ "filename" ∷ "size_bytes" ∷ "sha256" ∷ [] in
    let fields = required "kind" item (
      required "local_path" item (
        required "content_type" item (
          required "filename" item
            (required "size_bytes" item (some (optional "sha256" (str "") item end)))))) in
    if not (only_keys names item)
    then none
    else elim fields [ none ↦ none | some built ↦ some (obj built) ]
construct_artifact _ = none

-- The comprehension of `__post_init__`
unfoldable pub construct_artifacts : Items → Option Items
unfolding construct_artifact
construct_artifacts nil = some nil
construct_artifacts (cons item items) =
    let rest = construct_artifacts items in
    elim (construct_artifact item) [
      | none ↦ none
      | some built ↦ elim rest [ none ↦ none | some more ↦ some (cons built more) ]
    ]

-- `__post_init__`: what is iterated over is a list, or is empty, or raises.
unfoldable pub post_init : Option Json → Option Items
unfolding construct_artifacts
post_init none = some nil
post_init (some (arr items)) = construct_artifacts items
post_init (some (str text)) = if is_empty text then some nil else none
post_init (some (obj end)) = some nil
post_init (some (obj (field _ _ _))) = none
post_init (some null) = none
post_init (some (bool _)) = none
post_init (some (num _)) = none

-- `OutboundMessage(**payload)`, as `asdict` gives it
unfoldable pub construct : Fields → Option Fields
unfolding only_keys required optional post_init
construct payload =
    let names =
      "channel_id" ∷ "conversation_id" ∷ "message_type" ∷ "text" ∷ "request_id" ∷ "metadata"
      ∷ "artifacts" ∷ [] in
    if not (only_keys names payload)
    then none
    else elim (post_init (get_field payload "artifacts")) [
      | none ↦ none
      | some artifacts ↦ required "channel_id" payload (
          required "conversation_id" payload (
            required "message_type" payload (
              required "text" payload (
                some (
                  optional "request_id" null payload (
                    optional "metadata" (obj end) payload
                      (field "artifacts" (arr artifacts) end)))))))
    ]

-- An id in a payload is a text; anything else counts as missing.
unfoldable pub text_field : String → Fields → String
text_field name payload = elim (get_field payload name) [ some (str text) ↦ text | _ ↦ "" ]

-- `(message.channel_id, message.conversation_id)`
unfoldable pub route_of : Fields → Pair
unfolding text_field
route_of message = (text_field "channel_id" message, text_field "conversation_id" message)

-- The message of a staged payload; without one the delivery is discarded.
unfoldable pub message_of : Fields → Option Fields
unfolding text_field construct
message_of payload =
    if is_empty (text_field "channel_id" payload) || is_empty (text_field "conversation_id" payload)
    then none
    else construct payload
