-- ===== src/Store/Calls/Journalled.antt =====
-- The journal of native events, under every call.
use imcodex.Prelude.{◌≡◌, arith}
use imcodex.Store.State.{Store, save}
use imcodex.Store.Registry
use imcodex.Store.Bindings
use imcodex.Store.Bindings.{saved}
use imcodex.Store.Deliveries
use imcodex.Store.Requests
use imcodex.Store.Journal.Order.{IsJournal, append-IsJournal, update-IsJournal}
use imcodex.Store.Turns
use imcodex.Store.Inbound
use imcodex.Store.Calls.{Call, step}

-- The two stores have the same journal.
record SameJournal (s t : Store) : Type 0 where
  limit : t.journal_limit ≡ s.journal_limit
  sequence : t.journal_sequence ≡ s.journal_sequence
  journal : t.journal ≡ s.journal

SameJournal-IsJournal : (s t : Store) → SameJournal s t → IsJournal s → IsJournal t
SameJournal-IsJournal s t e j = record {
  positive = rw e.limit j.positive;
  bounded = rw (e.limit, e.journal) j.bounded;
  counted = rw (e.sequence, e.journal) j.counted;
  ends = rw (e.sequence, e.journal) j.ends;
}

pub step-IsJournal : (call : Call) (s : Store) → IsJournal s → IsJournal (step call s)
unfolding step save Deliveries.watch_terminal_delivery Deliveries.stage_terminal_delivery
    Deliveries.update_terminal_delivery_message Deliveries.complete_terminal_delivery
    Deliveries.discard_terminal_watch Deliveries.retry_terminal_delivery_persistence
    Deliveries.retry_state_persistence Deliveries.prune_standalone_delivery_acknowledgements
    Deliveries.remove_terminal_deliveries_for_thread Bindings.note_thread_snapshot
    Bindings.set_bootstrap_cwd Bindings.bind_thread Bindings.bind_thread_with_cwd
    Bindings.clear_thread_binding Bindings.set_visibility_profile Bindings.set_commentary_visibility
    Bindings.set_toolcall_visibility Bindings.set_system_visibility Bindings.current_cwd
    Registry.get_binding Requests.upsert_pending_request Requests.remove_pending_request
    Requests.remove_pending_requests_for_turn Requests.invalidate_pending_requests_for_connection
    Turns.note_active_turn Turns.complete_turn Turns.clear_active_turn Turns.suppress_turn
    Turns.update_thread_snapshot Turns.set_thread_browser_context Turns.get_thread_browser_context
    Turns.clear_thread_browser_context Inbound.ensure_inbound_message_durable
    Inbound.note_inbound_message Inbound.commit_inbound_message_processed
    Inbound.record_inbound_message_processed Inbound.should_drop_duplicate_inbound_message
    Inbound.mark_inbound_message_processed
step-IsJournal (Call.append_native_appserver_event e) s j = append-IsJournal e s j
step-IsJournal (Call.update_native_appserver_event q o n) s j = update-IsJournal q o n s j
step-IsJournal call s j =
    SameJournal-IsJournal s (step call s)
      (record { limit = ground arith; sequence = ground arith; journal = ground arith }) j
