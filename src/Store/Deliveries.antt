-- ===== src/Store/Deliveries.antt =====
-- store_terminal_deliveries.py: recovery watches, the outbox of staged messages, and the
-- acknowledgements. The proofs are in the modules below.
pub mod Outbox
pub mod Listing
pub mod Acknowledgements
pub mod Watches
mod Tests
use imcodex.Prelude.{
  ℕ, ◌+◌, String, Bool, true, false, Option, none, some, List, [], ◌∷◌, ◌++◌, ◌==◌, ◌&&◌, ◌||◌, not,
  string_eq, pair_eq, if◌then◌else◌, is_some, is_none, is_empty, find, keep, contains, ltb, nat_eq,
  leb, str_le, str_lt, sorted, starts_with, length, but_last_n,
}
use imcodex.Dict
use imcodex.Dict.{Dict, keys, values}
use imcodex.Models.{
  Pair, Fields, end, field, get_field, as_dict, TerminalDeliveryWatch, PendingTerminalDelivery,
}
use imcodex.Store.State.{Store, save}
use imcodex.Store.Registry.{find_binding_by_thread_id}

-- _STANDALONE_DELIVERY_ACK_LIMIT
abbrev pub standalone_delivery_ack_limit : ℕ
standalone_delivery_ack_limit = 512

unfoldable pub watch_terminal_delivery : String → String → ℕ → Store → Store
watch_terminal_delivery thread turn now s =
    let key : Pair = (thread, turn) in
    if is_empty thread || (is_empty turn || is_none (find_binding_by_thread_id thread s))
    then s
    else if Dict.has s.terminal_delivery_watches key
    then s
    else save (record s {
      terminal_delivery_watches =
          Dict.put s.terminal_delivery_watches key
            (record { thread_id = thread; turn_id = turn; created_at = now });
    })

-- `stage_terminal_delivery`, its branch for a key that is not staged
unfoldable pub stage_new :
    String → String → String → Fields → ℕ → Store → PendingTerminalDelivery × Store
stage_new delivery thread turn message now s =
    let sequence = s.next_terminal_delivery_sequence + 1 in
    let pending : PendingTerminalDelivery = record {
      delivery_id = delivery;
      thread_id = thread;
      turn_id = turn;
      message = message;
      created_at = now;
      sequence = sequence;
    } in
    (
      pending,
      save (record s {
        next_terminal_delivery_sequence = sequence;
        pending_terminal_deliveries = Dict.put s.pending_terminal_deliveries delivery pending;
      }),
    )

-- `none` is the ValueError for an empty delivery_id.
unfoldable pub stage_terminal_delivery :
    String → String → String → Fields → ℕ → Store → Option (PendingTerminalDelivery × Store)
unfolding stage_new
stage_terminal_delivery delivery thread turn message now s =
    if is_empty delivery then none else elim (Dict.get s.pending_terminal_deliveries delivery) [
      | some pending ↦ some (pending, s)
      | none ↦ some (stage_new delivery thread turn message now s)
    ]

-- The optional filter of the two list methods: `thread_id is None` keeps everything.
abbrev pub matches_thread : Option String → String → Bool
matches_thread none thread = true
matches_thread (some wanted) thread = thread == wanted

unfoldable pub list_terminal_delivery_watches : Option String → Store → List TerminalDeliveryWatch
list_terminal_delivery_watches thread s =
    keep (λ entry. matches_thread thread entry.thread_id) (values s.terminal_delivery_watches)

-- `(sequence, created_at, delivery_id)` of one entry is at most that of the other
abbrev pub delivery_le : PendingTerminalDelivery → PendingTerminalDelivery → Bool
delivery_le a b =
    ltb a.sequence b.sequence
    || (nat_eq a.sequence b.sequence
        && (ltb a.created_at b.created_at
            || (nat_eq a.created_at b.created_at && str_le a.delivery_id b.delivery_id)))

unfoldable pub list_pending_terminal_deliveries :
    Option String → Store → List PendingTerminalDelivery
list_pending_terminal_deliveries thread s =
    sorted delivery_le
      (keep (λ entry. matches_thread thread entry.thread_id) (values s.pending_terminal_deliveries))

unfoldable pub find_delivery_id_with_prefix : String → Store → Option String
find_delivery_id_with_prefix prefix s =
    elim (find (λ d. starts_with d prefix) (keys s.pending_terminal_deliveries)) [
      | some delivery ↦ some delivery
      | none ↦ find (λ d. starts_with d prefix) (keys s.acknowledged_terminal_deliveries)
    ]

unfoldable pub update_terminal_delivery_message : String → Fields → Store → Store
update_terminal_delivery_message delivery message s =
    elim (Dict.get s.pending_terminal_deliveries delivery) [
      | none ↦ s
      | some pending ↦ save (record s {
        pending_terminal_deliveries =
            Dict.put s.pending_terminal_deliveries delivery (record pending { message = message });
      })
    ]

unfoldable pub retry_terminal_delivery_persistence : Store → Store
retry_terminal_delivery_persistence s = elim s.pending_terminal_deliveries [
  | [] ↦ s
  | _ ∷ _ ↦ save s
]

unfoldable pub retry_state_persistence : Store → Store
retry_state_persistence s = save s

-- `key: metadata[key]` for one key, if the metadata has it
copy_key : String → Fields → Fields → Fields
copy_key key metadata rest = elim (get_field metadata key) [
  | none ↦ rest
  | some value ↦ field key value rest
]

-- The receipts and the failures of a delivered message.
outcome_of : Fields → Fields
unfolding copy_key
outcome_of message =
    let metadata = as_dict (get_field message "metadata") in
    copy_key "artifact_receipts" metadata (copy_key "artifact_failures" metadata end)

-- The standalone acknowledgements, those of no thread and no turn.
unfoldable pub standalone_ids : Dict String Pair → List String
standalone_ids acknowledged = keys (keep (λ e. e.1 == ("", "")) acknowledged)

unfoldable pub prune_standalone_delivery_acknowledgements : Store → Store
unfolding standalone_ids
prune_standalone_delivery_acknowledgements s =
    let old =
      but_last_n standalone_delivery_ack_limit
        (standalone_ids s.acknowledged_terminal_deliveries) in
    record s {
      acknowledged_terminal_deliveries = Dict.pop_all s.acknowledged_terminal_deliveries old;
      standalone_delivery_outcomes = Dict.pop_all s.standalone_delivery_outcomes old;
    }

-- `complete_terminal_delivery`, up to the prune: the delivery moves from the outbox to the
-- acknowledgements.
unfoldable pub acknowledge : String → PendingTerminalDelivery → Store → Store
unfolding outcome_of
acknowledge delivery pending s =
    let key : Pair = (pending.thread_id, pending.turn_id) in
    record s {
      pending_terminal_deliveries = Dict.pop s.pending_terminal_deliveries delivery;
      standalone_delivery_outcomes =
          if key == ("", "")
          then Dict.put s.standalone_delivery_outcomes delivery (outcome_of pending.message)
          else s.standalone_delivery_outcomes;
      acknowledged_terminal_deliveries = Dict.put s.acknowledged_terminal_deliveries delivery key;
    }

unfoldable pub complete_terminal_delivery : String → Store → Store
unfolding acknowledge
complete_terminal_delivery delivery s = elim (Dict.get s.pending_terminal_deliveries delivery) [
  | none ↦ s
  | some pending ↦
      save (prune_standalone_delivery_acknowledgements (acknowledge delivery pending s))
]

unfoldable pub is_terminal_delivery_acknowledged : String → Store → Bool
is_terminal_delivery_acknowledged delivery s = Dict.has s.acknowledged_terminal_deliveries delivery

unfoldable pub get_standalone_delivery_outcome : String → Store → Option Fields
get_standalone_delivery_outcome delivery s = Dict.get s.standalone_delivery_outcomes delivery

unfoldable pub has_acknowledged_terminal_delivery : String → String → Store → Bool
has_acknowledged_terminal_delivery thread turn s =
    contains (values s.acknowledged_terminal_deliveries) (thread, turn)

unfoldable pub discard_terminal_watch : String → String → Store → Store
discard_terminal_watch thread turn s =
    let removed = Dict.get s.terminal_delivery_watches (thread, turn) in
    let acknowledged = keep (λ e. not (e.1 == (thread, turn))) s.acknowledged_terminal_deliveries in
    let popped = record s {
      terminal_delivery_watches = Dict.pop s.terminal_delivery_watches (thread, turn);
    } in
    if is_some removed
      || not (nat_eq (length acknowledged) (length s.acknowledged_terminal_deliveries))
    then save (record popped { acknowledged_terminal_deliveries = acknowledged })
    else popped

-- `_remove_terminal_deliveries_for_thread(thread_id, preserve_staged=…)`
unfoldable pub remove_terminal_deliveries_for_thread : String → Bool → Store → Store
remove_terminal_deliveries_for_thread thread preserve_staged s = record s {
  terminal_delivery_watches = keep (λ e. not (e.1.thread_id == thread)) s.terminal_delivery_watches;
  pending_terminal_deliveries =
      keep (λ e. not (e.1.thread_id == thread) || preserve_staged) s.pending_terminal_deliveries;
  acknowledged_terminal_deliveries =
      keep (λ e. not (e.1.0 == thread)) s.acknowledged_terminal_deliveries;
}
