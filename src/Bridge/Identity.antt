-- ===== src/Bridge/Identity.antt =====
-- bridge/terminal_identity.py: the stable ids of what a turn delivers. `encode("utf-8")`, sha256 and
-- the text of a JSON value are those of the libraries.
pub mod Injective
pub mod Recovered
mod Tests
use Prim.Native.String.{◌++◌ as text_append}
use imcodex.Prelude.{
  ℕ, zero, suc, ◌+◌, ◌/◌, String, Bool, true, false, Option, none, some, List, [], ◌∷◌, ◌++◌, ◌==◌,
  ◌&&◌, ◌||◌, not, string_eq, if◌then◌else◌, is_empty, length, map, contains,
}
use Prim.Native.Nat.{◌%◌}
use imcodex.Models.Json.{Json}
use imcodex.Models.{Pair, Fields, Items, nil, cons, get_field, as_dict, obj, arr}
use imcodex.Text.{strip}
use imcodex.Bridge.Delivery.Payload.{text_field}

-- `n.to_bytes(k, "big")`, for a number that fits
abbrev pub to_bytes : ℕ → ℕ → List ℕ
to_bytes zero n = []
to_bytes (suc k) n = to_bytes k (n / 256) ++ (n % 256) ∷ []

pub record TerminalDeliveryIdentity : Type 0 where
  pub delivery_id : String
  pub thread_id : String
  pub turn_id : String

-- `str(x or "")` for the first text of two that is not empty
abbrev pub first_text : String → String → String
first_text a b = if is_empty a then b else a

-- The parts of an event that an identity depends on
pub record Event : Type 0 where
  pub kind : String
  pub thread_id : String
  pub turn_id : String
  pub payload : Fields

abbrev is_dict : Option Json → Bool
is_dict (some (obj _)) = true
is_dict _ = false

unfoldable pub event_terminal_key : Event → Option Pair
event_terminal_key event =
    let turn = as_dict (get_field event.payload "turn") in
    let turn_id =
      first_text event.turn_id (first_text (text_field "id" turn) (text_field "turnId" turn)) in
    if is_empty event.thread_id || is_empty turn_id then none else some (event.thread_id, turn_id)

-- An item that is the final answer, with a text
unfoldable pub is_final_answer : Fields → Bool
is_final_answer item =
    (text_field "type" item == "agentMessage")
    && ((text_field "phase" item == "final_answer")
        && not (is_empty (strip (text_field "text" item))))

unfoldable pub final_items : Items → List Fields
unfolding is_final_answer
final_items nil = []
final_items (cons (obj item) items) =
    let rest = final_items items in if is_final_answer item then item ∷ rest else rest
final_items (cons _ items) = final_items items

unfoldable pub recovered_turn_final_items : Fields → List Fields
unfolding final_items
recovered_turn_final_items turn = elim (get_field turn "items") [
  | some (arr items) ↦ final_items items
  | _ ↦ []
]

-- `len(set(ids)) != len(ids)`
abbrev pub has_duplicate : List String → Bool
has_duplicate [] = false
has_duplicate (id ∷ ids) = contains ids id || has_duplicate ids

-- What the hash is fed with: each value behind its length
unfoldable pub hash_input : (String → List ℕ) → List String → List ℕ
hash_input utf8 [] = []
hash_input utf8 (value ∷ values) =
    to_bytes 8 (length (utf8 value)) ++ (utf8 value ++ hash_input utf8 values)

abbrev pub item_values : String → String → String → List String
item_values thread turn item = "terminal-item" ∷ thread ∷ turn ∷ item ∷ []

abbrev pub turn_values : String → String → List String
turn_values thread turn = "terminal-turn" ∷ thread ∷ turn ∷ []

unfoldable pub message_identity : Pair → Fields → Option TerminalDeliveryIdentity
message_identity (thread, turn) message =
    let id = text_field "delivery_id" (as_dict (get_field message "metadata")) in
    if is_empty id
    then none
    else some (record { delivery_id = id; thread_id = thread; turn_id = turn })

abbrev pub no_items : List Fields → Bool
no_items [] = true
no_items (_ ∷ _) = false

module _ (utf8 : String → List ℕ) (digest : List ℕ → String) (dumps : Fields → String) where
  unfoldable pub stable_delivery_id : List String → String
  unfolding hash_input
  stable_delivery_id values = text_append "imcodex:native:" (digest (hash_input utf8 values))

  unfoldable pub stable_terminal_item_delivery_id : String → String → String → String
  unfolding stable_delivery_id
  stable_terminal_item_delivery_id thread turn item =
      stable_delivery_id (item_values thread turn item)

  unfoldable pub stable_terminal_turn_delivery_id : String → String → String
  unfolding stable_delivery_id
  stable_terminal_turn_delivery_id thread turn = stable_delivery_id (turn_values thread turn)

  unfoldable pub terminal_item_key : Fields → String → String
  terminal_item_key item fallback =
      let id = first_text (text_field "id" item) (first_text fallback (text_field "itemId" item)) in
      if is_empty id then text_append "payload:" (digest (utf8 (dumps item))) else id

  unfoldable pub event_terminal_identity : Event → Option TerminalDeliveryIdentity
  unfolding event_terminal_key is_final_answer stable_terminal_item_delivery_id
      stable_terminal_turn_delivery_id terminal_item_key
  event_terminal_identity event = elim (event_terminal_key event) [
    | none ↦ none
    | some (thread, turn) ↦
        let item = as_dict (get_field event.payload "item") in
        let key = terminal_item_key item (text_field "itemId" event.payload) in
        if event.kind == "turn_completed"
        then some (record {
          delivery_id = stable_terminal_turn_delivery_id thread turn;
          thread_id = thread;
          turn_id = turn;
        })
        else if not (event.kind == "item_completed")
        then none
        else if not (is_dict (get_field event.payload "item")) || not (is_final_answer item)
        then none
        else some (record {
          delivery_id = stable_terminal_item_delivery_id thread turn key;
          thread_id = thread;
          turn_id = turn;
        })
  ]

  -- A message that belongs to such an event, by the id in its metadata
  unfoldable pub event_message_identity : Event → Option Fields → Option TerminalDeliveryIdentity
  unfolding event_terminal_identity message_identity
  event_message_identity event none = none
  event_message_identity event (some message) = elim (event_terminal_identity event) [
    | none ↦ none
    | some _ ↦ elim (event_terminal_key event) [
      | none ↦ none
      | some key ↦ message_identity key message
    ]
  ]

  -- The identity of one recovered answer
  abbrev pub item_identity : String → String → Fields → TerminalDeliveryIdentity
  item_identity thread turn item = record {
    delivery_id = stable_terminal_item_delivery_id thread turn (terminal_item_key item "");
    thread_id = thread;
    turn_id = turn;
  }

  abbrev pub turn_identity : String → String → TerminalDeliveryIdentity
  turn_identity thread turn = record {
    delivery_id = stable_terminal_turn_delivery_id thread turn;
    thread_id = thread;
    turn_id = turn;
  }

  -- Nothing is the ValueError for answers without distinct ids.
  unfoldable pub recovered_turn_identities :
      String → Fields → Bool → Option (List TerminalDeliveryIdentity)
  unfolding recovered_turn_final_items stable_terminal_item_delivery_id
      stable_terminal_turn_delivery_id terminal_item_key
  recovered_turn_identities thread turn fallback =
      let turn_id = first_text (text_field "id" turn) (text_field "turnId" turn) in
      let items = recovered_turn_final_items turn in
      let identities = map (item_identity thread turn_id) items in
      if is_empty thread || is_empty turn_id
      then some []
      else if has_duplicate (map (λ i. i.delivery_id) identities)
      then none
      else if fallback || no_items items
      then some (identities ++ turn_identity thread turn_id ∷ [])
      else some identities
