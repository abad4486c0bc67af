-- ===== src/Store/Calls.antt =====
-- The methods of `ConversationStore` that change its state, as one type of calls, and the store
-- after a sequence of calls. `now` is what the clock returns during the call.
pub mod Exclusive
pub mod Journalled
pub mod Staged
pub mod Keyed
pub mod Reachable
mod Tests
use imcodex.Prelude.{ℕ, String, Bool, true, false, Option, none, some, List, [], ◌∷◌}
use imcodex.Models.{
  Pair, Fields, Items, PendingNativeRequestRoute, NativeThreadSnapshot, ThreadBrowserContext,
  NativeAppServerJournalEntry,
}
use imcodex.Persistence.{Io}
use imcodex.Store.State.{Store}
use imcodex.Store.Registry
use imcodex.Store.Bindings
use imcodex.Store.Deliveries
use imcodex.Store.Requests
use imcodex.Store.Journal
use imcodex.Store.Turns
use imcodex.Store.Turns.{SnapshotUpdate}
use imcodex.Store.Inbound
use imcodex.Store.Inbound.{Inbound as InboundMessage}

pub data Call : Type 0 where
  get_binding : Pair → Call
  set_bootstrap_cwd : Pair → String → Call
  bind_thread : Pair → String → Call
  bind_thread_with_cwd : Pair → String → Option String → Call
  clear_thread_binding : Pair → Call
  set_visibility_profile : Pair → String → Call
  set_commentary_visibility : Pair → Bool → Call
  set_toolcall_visibility : Pair → Bool → Call
  set_system_visibility : Pair → Bool → Call
  current_cwd : Pair → Call
  note_inbound_message : Pair → String → Option String → ℕ → Call
  mark_inbound_message_processed : InboundMessage → Option Items → ℕ → Call
  commit_inbound_message_processed : InboundMessage → Option Items → ℕ → Io → Call
  ensure_inbound_message_durable : InboundMessage → Io → Call
  should_drop_duplicate_inbound_message : InboundMessage → ℕ → Call
  note_thread_snapshot : NativeThreadSnapshot → Call
  update_thread_snapshot : String → SnapshotUpdate → Call
  set_thread_browser_context : ThreadBrowserContext → ℕ → Call
  get_thread_browser_context : Pair → ℕ → Call
  clear_thread_browser_context : Pair → Call
  note_active_turn : String → String → String → ℕ → Call
  complete_turn : String → String → String → Call
  clear_active_turn : String → Call
  suppress_turn : String → String → Call
  watch_terminal_delivery : String → String → ℕ → Call
  stage_terminal_delivery : String → String → String → Fields → ℕ → Call
  update_terminal_delivery_message : String → Fields → Call
  retry_terminal_delivery_persistence : Call
  retry_state_persistence : Call
  complete_terminal_delivery : String → Call
  discard_terminal_watch : String → String → Call
  upsert_pending_request : PendingNativeRequestRoute → Option Fields → Call
  remove_pending_request : String → Call
  remove_pending_requests_for_turn : String → String → Call
  invalidate_pending_requests_for_connection : ℕ → Call
  append_native_appserver_event : NativeAppServerJournalEntry → Call
  update_native_appserver_event : ℕ → Option String → Option String → Call

-- A call that raises leaves the store as it was.
abbrev pub or_unchanged {ℓ} : {A : Type ℓ} → Store → Option (A × Store) → Store
or_unchanged s none = s
or_unchanged s (some (_, s')) = s'

unfoldable pub step : Call → Store → Store
step (get_binding k) s = (Registry.get_binding k s).1
step (set_bootstrap_cwd k cwd) s = (Bindings.set_bootstrap_cwd k cwd s).1
step (bind_thread k t) s = (Bindings.bind_thread k t s).1
step (bind_thread_with_cwd k t cwd) s = (Bindings.bind_thread_with_cwd k t cwd s).1
step (clear_thread_binding k) s = (Bindings.clear_thread_binding k s).1
step (set_visibility_profile k p) s = (Bindings.set_visibility_profile k p s).1
step (set_commentary_visibility k b) s = (Bindings.set_commentary_visibility k b s).1
step (set_toolcall_visibility k b) s = (Bindings.set_toolcall_visibility k b s).1
step (set_system_visibility k b) s = (Bindings.set_system_visibility k b s).1
step (current_cwd k) s = (Bindings.current_cwd k s).1
step (note_inbound_message k m u now) s = Inbound.note_inbound_message k m u now s
step (mark_inbound_message_processed m r now) s = Inbound.mark_inbound_message_processed m r now s
step (commit_inbound_message_processed m r now io) s =
    (Inbound.commit_inbound_message_processed m r now io s).0
step (ensure_inbound_message_durable m io) s = (Inbound.ensure_inbound_message_durable m io s).0
step (should_drop_duplicate_inbound_message m now) s =
    (Inbound.should_drop_duplicate_inbound_message m now s).1
step (note_thread_snapshot n) s = Bindings.note_thread_snapshot n s
step (update_thread_snapshot t u) s = Turns.update_thread_snapshot t u s
step (set_thread_browser_context c now) s = (Turns.set_thread_browser_context c now s).1
step (get_thread_browser_context k now) s = (Turns.get_thread_browser_context k now s).1
step (clear_thread_browser_context k) s = Turns.clear_thread_browser_context k s
step (note_active_turn t u status now) s = Turns.note_active_turn t u status now s
step (complete_turn t u status) s = Turns.complete_turn t u status s
step (clear_active_turn t) s = Turns.clear_active_turn t s
step (suppress_turn t u) s = Turns.suppress_turn t u s
step (watch_terminal_delivery t u now) s = Deliveries.watch_terminal_delivery t u now s
step (stage_terminal_delivery d t u m now) s =
    or_unchanged s (Deliveries.stage_terminal_delivery d t u m now s)
step (update_terminal_delivery_message d m) s = Deliveries.update_terminal_delivery_message d m s
step retry_terminal_delivery_persistence s = Deliveries.retry_terminal_delivery_persistence s
step retry_state_persistence s = Deliveries.retry_state_persistence s
step (complete_terminal_delivery d) s = Deliveries.complete_terminal_delivery d s
step (discard_terminal_watch t u) s = Deliveries.discard_terminal_watch t u s
step (upsert_pending_request r p) s = (Requests.upsert_pending_request r p s).1
step (remove_pending_request r) s = (Requests.remove_pending_request r s).1
step (remove_pending_requests_for_turn t u) s = Requests.remove_pending_requests_for_turn t u s
step (invalidate_pending_requests_for_connection e) s =
    (Requests.invalidate_pending_requests_for_connection e s).1
step (append_native_appserver_event e) s = (Journal.append_native_appserver_event e s).1
step (update_native_appserver_event q o n) s = (Journal.update_native_appserver_event q o n s).1

unfoldable pub run : List Call → Store → Store
run [] s = s
run (call ∷ calls) s = run calls (step call s)
