-- ===== src/Store/Calls/Staged.antt =====
-- The outbox, under every call.
use imcodex.Prelude.{
  ℕ, String, ◌≡◌, refl, ◌∙◌, true, string_eq, Option, none, some, arith, is_empty, truthy,
  Bool-cases, Option-cases, inl, inr,
}
use imcodex.Dict
use imcodex.Models.{Pair, Fields}
use imcodex.Store.State.{Store, save}
use imcodex.Store.Registry
use imcodex.Store.Bindings
use imcodex.Store.Deliveries
use imcodex.Store.Deliveries.Outbox.{IsOutbox, stage-empty, stage-there, stage-absent}
use imcodex.Store.Deliveries.Listing.{stage_new-IsOutbox, update-IsOutbox, complete-IsOutbox}
use imcodex.Store.Deliveries.Watches.{remove-pending}
use imcodex.Store.Requests
use imcodex.Store.Journal
use imcodex.Store.Turns
use imcodex.Store.Inbound
use imcodex.Store.Calls.{Call, step, or_unchanged}

-- The two stores have the same outbox.
record SameOutbox (s t : Store) : Type 0 where
  pending : t.pending_terminal_deliveries ≡ s.pending_terminal_deliveries
  sequence : t.next_terminal_delivery_sequence ≡ s.next_terminal_delivery_sequence

SameOutbox-IsOutbox : (s t : Store) → SameOutbox s t → IsOutbox s → IsOutbox t
SameOutbox-IsOutbox s t e o = record {
  unique = rw e.pending o.unique;
  own = rw e.pending o.own;
  ascending = rw e.pending o.ascending;
  counted = rw (e.pending, e.sequence) o.counted;
}

stage-IsOutbox :
    (delivery thread turn : String) (message : Fields) (now : ℕ) (s : Store)
    → IsOutbox s
    → IsOutbox
        (or_unchanged s (Deliveries.stage_terminal_delivery delivery thread turn message now s))
stage-IsOutbox delivery thread turn message now s o = elim (Bool-cases (is_empty delivery)) [
  | inl e ↦ rw (stage-empty delivery thread turn message now s e) o
  | inr e ↦ elim (Option-cases (Dict.get s.pending_terminal_deliveries delivery)) [
    | inl absent ↦
        rw (stage-absent delivery thread turn message now s e absent)
          (stage_new-IsOutbox delivery thread turn message now s absent o)
    | inr (p, there) ↦ rw (stage-there delivery thread turn message now s p e there) o
  ]
]

-- A thread that is left keeps its staged messages.
leave-SameOutbox :
    (thread : String) (s : Store)
    → SameOutbox s (Deliveries.remove_terminal_deliveries_for_thread thread true s)
unfolding Deliveries.remove_terminal_deliveries_for_thread
leave-SameOutbox thread s = record { pending = remove-pending thread s; sequence = refl }

leave_thread-SameOutbox :
    (previous : Option String) (thread : String) (s : Store)
    → SameOutbox s (Bindings.leave_thread previous thread s)
unfolding Bindings.leave_thread
leave_thread-SameOutbox none thread s = record { pending = refl; sequence = refl }
leave_thread-SameOutbox (some previous) thread s =
    let e = leave-SameOutbox previous s in
    record { pending = ground (arith, e.pending); sequence = ground (arith, e.sequence) }

forget_thread-SameOutbox :
    (thread : Option String) (s : Store) → SameOutbox s (Bindings.forget_thread thread s)
unfolding Bindings.forget_thread
forget_thread-SameOutbox none s = record { pending = refl; sequence = refl }
forget_thread-SameOutbox (some thread) s =
    let e = leave-SameOutbox thread s in record { pending = e.pending; sequence = e.sequence }

get_binding-SameOutbox : (key : Pair) (s : Store) → SameOutbox s (Registry.get_binding key s).1
unfolding Registry.get_binding Registry.set_binding
get_binding-SameOutbox key s = record { pending = ground arith; sequence = ground arith }

bind_thread-SameOutbox :
    (key : Pair) (thread : String) (s : Store) → SameOutbox s (Bindings.bind_thread key thread s).1
unfolding Bindings.bind_thread Bindings.released_store Bindings.set_route Registry.set_binding save
bind_thread-SameOutbox key thread s =
    let (binding, s') = Registry.get_binding key (Bindings.released_store key thread s) in
    let bound = record binding { thread_id = some thread } in
    let e =
      leave_thread-SameOutbox binding.thread_id thread
        (Bindings.set_route key thread (Registry.set_binding key bound s')) in
    let g = get_binding-SameOutbox key (Bindings.released_store key thread s) in
    record { pending = e.pending ∙ g.pending; sequence = e.sequence ∙ g.sequence }

clear-SameOutbox : (key : Pair) (s : Store) → SameOutbox s (Bindings.clear_thread_binding key s).1
unfolding Bindings.clear_thread_binding Registry.set_binding save
clear-SameOutbox key s =
    let (binding, s') = Registry.get_binding key s in
    let e = forget_thread-SameOutbox binding.thread_id s' in
    let g = get_binding-SameOutbox key s in
    record { pending = e.pending ∙ g.pending; sequence = e.sequence ∙ g.sequence }

bind_thread_with_cwd-SameOutbox :
    (key : Pair) (thread : String) (cwd : Option String) (s : Store)
    → SameOutbox s (Bindings.bind_thread_with_cwd key thread cwd s).1
unfolding Bindings.bind_thread_with_cwd Registry.set_binding save
bind_thread_with_cwd-SameOutbox key thread cwd s =
    let e = bind_thread-SameOutbox key thread s in
    elim (Bool-cases (truthy cwd)) [
      | inl there ↦ rw there (record { pending = e.pending; sequence = e.sequence })
      | inr missing ↦ rw missing e
    ]

pub step-IsOutbox : (call : Call) (s : Store) → IsOutbox s → IsOutbox (step call s)
unfolding step save Deliveries.watch_terminal_delivery Deliveries.discard_terminal_watch
    Deliveries.retry_terminal_delivery_persistence Deliveries.retry_state_persistence
    Bindings.note_thread_snapshot Bindings.set_bootstrap_cwd Bindings.set_visibility_profile
    Bindings.set_commentary_visibility Bindings.set_toolcall_visibility
    Bindings.set_system_visibility Bindings.current_cwd Registry.get_binding
    Requests.upsert_pending_request Requests.remove_pending_request
    Requests.remove_pending_requests_for_turn Requests.invalidate_pending_requests_for_connection
    Journal.append_native_appserver_event Journal.update_native_appserver_event
    Turns.note_active_turn Turns.complete_turn Turns.clear_active_turn Turns.suppress_turn
    Turns.update_thread_snapshot Turns.set_thread_browser_context Turns.get_thread_browser_context
    Turns.clear_thread_browser_context Inbound.ensure_inbound_message_durable
    Inbound.note_inbound_message Inbound.commit_inbound_message_processed
    Inbound.record_inbound_message_processed Inbound.should_drop_duplicate_inbound_message
    Inbound.mark_inbound_message_processed
step-IsOutbox (Call.stage_terminal_delivery d t u m now) s o = stage-IsOutbox d t u m now s o
step-IsOutbox (Call.update_terminal_delivery_message d m) s o = update-IsOutbox d m s o
step-IsOutbox (Call.complete_terminal_delivery d) s o = complete-IsOutbox d s o
step-IsOutbox (Call.bind_thread k t) s o =
    SameOutbox-IsOutbox s (step (Call.bind_thread k t) s) (bind_thread-SameOutbox k t s) o
step-IsOutbox (Call.bind_thread_with_cwd k t cwd) s o =
    SameOutbox-IsOutbox s (step (Call.bind_thread_with_cwd k t cwd) s)
      (bind_thread_with_cwd-SameOutbox k t cwd s) o
step-IsOutbox (Call.clear_thread_binding k) s o =
    SameOutbox-IsOutbox s (step (Call.clear_thread_binding k) s) (clear-SameOutbox k s) o
step-IsOutbox call s o =
    SameOutbox-IsOutbox s (step call s) (record { pending = ground arith; sequence = ground arith })
      o
