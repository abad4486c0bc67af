-- ===== src/Store/Load.antt =====
-- store.py: `_load`, on the state that `_snapshot_state` writes, once the JSON text is decoded: a
-- snapshot has the right types, so that what is left of the checks are those on the values. None is
-- the RuntimeError of an invalid entry. The proofs are in the modules below.
pub mod Outbox
mod Tests
use imcodex.Prelude.{
  ℕ, ◌+◌, String, Bool, true, false, Option, none, some, List, [], ◌∷◌, ◌==◌, ◌&&◌, ◌||◌, not, max,
  string_eq, pair_eq, if◌then◌else◌, is_empty, nat_eq,
}
use imcodex.Text.{strip}
use imcodex.Dict
use imcodex.Dict.{Dict, values}
use imcodex.Models.Json
use imcodex.Models.{
  Pair, Fields, str, get_field, as_dict, ConversationBinding, TerminalDeliveryWatch,
  PendingTerminalDelivery,
}
use imcodex.Store.State.{Store, Snapshot, Acknowledgement}
use imcodex.Store.Deliveries.{prune_standalone_delivery_acknowledgements}

-- `item.get("visibility_profile") or "standard"`
abbrev load_binding : ConversationBinding → ConversationBinding
load_binding b =
    if is_empty b.visibility_profile then record b { visibility_profile = "standard" } else b

unfoldable pub load_bindings :
    Dict Pair ConversationBinding → List ConversationBinding → Dict Pair ConversationBinding
load_bindings d [] = d
load_bindings d (b ∷ bs) =
    load_bindings (Dict.put d (b.channel_id, b.conversation_id) (load_binding b)) bs

unfoldable pub load_routes : Dict String Pair → List (String × Pair) → Option (Dict String Pair)
load_routes d [] = some d
load_routes d ((thread, (channel, conversation)) ∷ items) =
    let rest = load_routes (Dict.put d (strip thread) (strip channel, strip conversation)) items in
    if is_empty (strip thread) || (is_empty (strip channel) || is_empty (strip conversation))
    then none
    else rest

-- The loop over the bindings: a bound thread is routed to its conversation.
abbrev route_binding : Option String → Pair → Dict String Pair → Dict String Pair
route_binding none key d = d
route_binding (some thread) key d = if is_empty thread then d else Dict.put d thread key

unfoldable pub binding_routes : Dict String Pair → List ConversationBinding → Dict String Pair
binding_routes d [] = d
binding_routes d (b ∷ bs) =
    binding_routes (route_binding b.thread_id (b.channel_id, b.conversation_id) d) bs

unfoldable pub load_watches :
    Dict Pair TerminalDeliveryWatch
    → List TerminalDeliveryWatch
    → Option (Dict Pair TerminalDeliveryWatch)
load_watches d [] = some d
load_watches d (w ∷ ws) =
    let rest = load_watches (Dict.put d (w.thread_id, w.turn_id) w) ws in
    if is_empty w.thread_id || is_empty w.turn_id then none else rest

-- `bool(thread_id) != bool(turn_id)`
abbrev pub half_empty : String → String → Bool
half_empty thread turn =
    (is_empty thread && not (is_empty turn)) || (not (is_empty thread) && is_empty turn)

-- `str(metadata.get("delivery_id") or "")`, where the id is a text
abbrev text_or_empty : Option Json.Json → String
text_or_empty (some (str text)) = text
text_or_empty _ = ""

-- The outcome of a standalone delivery is read beside its acknowledgement.
abbrev add_outcome : String → Option Fields → Dict String Fields → Dict String Fields
add_outcome delivery none outcomes = outcomes
add_outcome delivery (some outcome) outcomes = Dict.put outcomes delivery outcome

abbrev pub note_outcome : Acknowledgement → Dict String Fields → Dict String Fields
note_outcome a outcomes =
    if is_empty a.thread_id then add_outcome a.delivery_id a.outcome outcomes else outcomes

-- The acknowledgements and the outcomes. One of a turn that is not watched is skipped.
unfoldable pub load_acknowledged :
    Dict Pair TerminalDeliveryWatch
    → Dict String Pair × Dict String Fields
    → List Acknowledgement
    → Option (Dict String Pair × Dict String Fields)
load_acknowledged watches loaded [] = some loaded
load_acknowledged watches (d, outcomes) (a ∷ more) =
    let skipped = load_acknowledged watches (d, outcomes) more in
    let kept = Dict.put d a.delivery_id (a.thread_id, a.turn_id) in
    let rest = load_acknowledged watches (kept, note_outcome a outcomes) more in
    if is_empty a.delivery_id || half_empty a.thread_id a.turn_id
    then none
    else if not (is_empty a.thread_id) && not (Dict.has watches (a.thread_id, a.turn_id))
    then skipped
    else rest

-- The store after its parts have been read, as far as they could be.
unfoldable pub assemble :
    Store
    → Dict Pair ConversationBinding
    → Option (Dict String Pair)
    → Option (Dict Pair TerminalDeliveryWatch)
    → Option (Dict String PendingTerminalDelivery × ℕ)
    → List Acknowledgement
    → Option Store
unfolding load_acknowledged
assemble s bindings none watches pending acks = none
assemble s bindings (some routes) none pending acks = none
assemble s bindings (some routes) (some watches) none acks = none
assemble s bindings (some routes) (some watches) (some (pending, highest)) acks =
    elim (load_acknowledged watches ([], []) acks) [
      | none ↦ none
      | some (acknowledged, outcomes) ↦ some (
          prune_standalone_delivery_acknowledgements (record s {
            bindings = bindings;
            thread_recipient_routes = binding_routes routes (values bindings);
            terminal_delivery_watches = watches;
            pending_terminal_deliveries = pending;
            next_terminal_delivery_sequence = highest;
            acknowledged_terminal_deliveries = acknowledged;
            standalone_delivery_outcomes = outcomes;
          }))
    ]

-- `digest` is the id that is made of the SHA-256 of a message.
module _ (digest : Fields → String) where
  unfoldable pub delivery_id_of : PendingTerminalDelivery → String
  delivery_id_of p =
      let named =
        text_or_empty (get_field (as_dict (get_field p.message "metadata")) "delivery_id") in
      if not (is_empty p.delivery_id)
      then p.delivery_id
      else if is_empty named
      then digest p.message
      else named

  -- `item.get("sequence") or legacy_sequence`
  abbrev pub sequence_or : ℕ → ℕ → ℕ
  sequence_or sequence legacy = if nat_eq sequence 0 then legacy else sequence

  unfoldable pub load_entry : ℕ → PendingTerminalDelivery → PendingTerminalDelivery
  unfolding delivery_id_of
  load_entry legacy p = record p {
    delivery_id = delivery_id_of p;
    sequence = sequence_or p.sequence legacy;
  }

  -- The entries from number `legacy` on: the outbox and the highest sequence number.
  unfoldable pub load_pending :
      ℕ
      → Dict String PendingTerminalDelivery
      → ℕ
      → List PendingTerminalDelivery
      → Option (Dict String PendingTerminalDelivery × ℕ)
  unfolding load_entry
  load_pending legacy d highest [] = some (d, highest)
  load_pending legacy d highest (p ∷ ps) =
      let entry = load_entry legacy p in
      let rest =
        load_pending (legacy + 1) (Dict.put d entry.delivery_id entry) (max highest entry.sequence)
          ps in
      if half_empty p.thread_id p.turn_id then none else rest

  -- `_load` into a store that is new
  unfoldable pub load : Snapshot → Store → Option Store
  unfolding load_bindings load_routes load_watches load_pending assemble
  load state s =
      assemble s (load_bindings [] state.bindings) (load_routes [] state.thread_recipient_routes)
        (load_watches [] state.terminal_delivery_watches)
        (load_pending 1 [] 0 state.pending_terminal_deliveries)
        state.acknowledged_terminal_deliveries
