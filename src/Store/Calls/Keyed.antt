-- ===== src/Store/Calls/Keyed.antt =====
-- The pending requests, under every call.
use imcodex.Prelude.{
  String, ◌≡◌, refl, string_eq, option_eq, Option, none, some, List, [], ◌∷◌, arith, All, truthy,
  Bool-cases, inl, inr, ◌∙◌, sym,
}
use imcodex.Dict
use imcodex.Dict.{Dict, map_values}
use imcodex.Dict.Laws.{All-pop}
use imcodex.Dict.Unique.{IsUnique, pop-IsUnique, pop_all-IsUnique}
use imcodex.Models.{Pair, PendingNativeRequestRoute}
use imcodex.Store.State.{Store, save}
use imcodex.Store.Registry
use imcodex.Store.Bindings
use imcodex.Store.Bindings.{reroute}
use imcodex.Store.Deliveries
use imcodex.Store.Requests
use imcodex.Store.Requests.Removal.{IsKeyed, OwnId, upsert-IsKeyed}
use imcodex.Store.Journal
use imcodex.Store.Turns
use imcodex.Store.Inbound
use imcodex.Store.Calls.{Call, step}

SameRequests-IsKeyed :
    (s t : Store) → t.pending_requests ≡ s.pending_requests → IsKeyed s → IsKeyed t
SameRequests-IsKeyed s t e k = record { unique = rw e k.unique; own = rw e k.own }

All-pop_all :
    (ks : List String) (d : Dict String PendingNativeRequestRoute)
    → All OwnId d
    → All OwnId (Dict.pop_all d ks)
unfolding Dict.pop_all
All-pop_all [] d a = a
All-pop_all (k ∷ ks) d a = All-pop_all ks (Dict.pop d k) (All-pop OwnId d k a)

has-rerouted :
    (f : PendingNativeRequestRoute → PendingNativeRequestRoute)
    (d : Dict String PendingNativeRequestRoute) (k : String)
    → Dict.has (map_values f d) k ≡ Dict.has d k
unfolding Dict.has
has-rerouted f [] k = refl
has-rerouted f ((i, w) ∷ d) k = ground (arith, has-rerouted f d k)

rerouted-IsUnique :
    (f : PendingNativeRequestRoute → PendingNativeRequestRoute)
    (d : Dict String PendingNativeRequestRoute)
    → IsUnique d
    → IsUnique (map_values f d)
rerouted-IsUnique f [] u = tt
rerouted-IsUnique f ((i, w) ∷ d) u = (has-rerouted f d i ∙ u.0, rerouted-IsUnique f d u.1)

request_id-reroute :
    (key : Pair) (thread : String) (r : PendingNativeRequestRoute)
    → (reroute key thread r).request_id ≡ r.request_id
unfolding reroute
request_id-reroute (channel, conversation) thread r = ground arith

rerouted-OwnId :
    (key : Pair) (thread : String) (d : Dict String PendingNativeRequestRoute)
    → All OwnId d
    → All OwnId (map_values (reroute key thread) d)
rerouted-OwnId key thread [] a = tt
rerouted-OwnId key thread ((i, r) ∷ d) a =
    (a.0 ∙ sym (request_id-reroute key thread r), rerouted-OwnId key thread d a.1)

requests-leave_thread :
    (previous : Option String) (thread : String) (s : Store)
    → (Bindings.leave_thread previous thread s).pending_requests ≡ s.pending_requests
unfolding Bindings.leave_thread Deliveries.remove_terminal_deliveries_for_thread
requests-leave_thread none thread s = refl
requests-leave_thread (some previous) thread s = ground arith

requests-forget_thread :
    (thread : Option String) (s : Store)
    → (Bindings.forget_thread thread s).pending_requests ≡ s.pending_requests
unfolding Bindings.forget_thread Deliveries.remove_terminal_deliveries_for_thread
requests-forget_thread none s = refl
requests-forget_thread (some thread) s = refl

requests-get_binding :
    (key : Pair) (s : Store) → (Registry.get_binding key s).1.pending_requests ≡ s.pending_requests
unfolding Registry.get_binding Registry.set_binding
requests-get_binding key s = ground arith

requests-clear_thread_binding :
    (key : Pair) (s : Store)
    → (Bindings.clear_thread_binding key s).1.pending_requests ≡ s.pending_requests
unfolding Bindings.clear_thread_binding Registry.set_binding save
requests-clear_thread_binding key s =
    let (binding, s') = Registry.get_binding key s in
    requests-forget_thread binding.thread_id s' ∙ requests-get_binding key s

requests-bind_thread :
    (key : Pair) (thread : String) (s : Store)
    → (Bindings.bind_thread key thread s).1.pending_requests
      ≡ map_values (reroute key thread) s.pending_requests
unfolding Bindings.bind_thread Bindings.released_store Bindings.set_route Registry.set_binding save
requests-bind_thread key thread s =
    let (binding, s') = Registry.get_binding key (Bindings.released_store key thread s) in
    let bound = record binding { thread_id = some thread } in
    requests-leave_thread binding.thread_id thread
      (Bindings.set_route key thread (Registry.set_binding key bound s'))
    ∙ requests-get_binding key (Bindings.released_store key thread s)

bind_thread-IsKeyed :
    (key : Pair) (thread : String) (s : Store)
    → IsKeyed s
    → IsKeyed (Bindings.bind_thread key thread s).1
bind_thread-IsKeyed key thread s k = record {
  unique =
      rw (requests-bind_thread key thread s)
        (rerouted-IsUnique (reroute key thread) s.pending_requests k.unique);
  own = rw (requests-bind_thread key thread s) (rerouted-OwnId key thread s.pending_requests k.own);
}

bind_thread_with_cwd-IsKeyed :
    (key : Pair) (thread : String) (cwd : Option String) (s : Store)
    → IsKeyed s
    → IsKeyed (Bindings.bind_thread_with_cwd key thread cwd s).1
unfolding Bindings.bind_thread_with_cwd Registry.set_binding save
bind_thread_with_cwd-IsKeyed key thread cwd s k =
    let e = bind_thread-IsKeyed key thread s k in
    elim (Bool-cases (truthy cwd)) [
      | inl there ↦ rw there (record { unique = e.unique; own = e.own })
      | inr missing ↦ rw missing e
    ]

pub step-IsKeyed : (call : Call) (s : Store) → IsKeyed s → IsKeyed (step call s)
unfolding step save Deliveries.stage_terminal_delivery Deliveries.update_terminal_delivery_message
    Deliveries.complete_terminal_delivery Deliveries.prune_standalone_delivery_acknowledgements
    Deliveries.watch_terminal_delivery Deliveries.discard_terminal_watch
    Deliveries.retry_terminal_delivery_persistence Deliveries.retry_state_persistence
    Bindings.note_thread_snapshot Bindings.set_bootstrap_cwd Bindings.set_visibility_profile
    Bindings.set_commentary_visibility Bindings.set_toolcall_visibility
    Bindings.set_system_visibility Bindings.current_cwd Registry.get_binding
    Requests.upsert_pending_request Requests.remove_pending_request
    Requests.remove_pending_requests_for_turn Requests.invalidate_pending_requests_for_connection
    Journal.append_native_appserver_event Journal.update_native_appserver_event
    Turns.note_active_turn Turns.complete_turn Turns.clear_active_turn Turns.suppress_turn
    Turns.update_thread_snapshot Turns.set_thread_browser_context Turns.get_thread_browser_context
    Turns.clear_thread_browser_context Inbound.ensure_inbound_message_durable
    Inbound.note_inbound_message Inbound.commit_inbound_message_processed
    Inbound.record_inbound_message_processed Inbound.should_drop_duplicate_inbound_message
    Inbound.mark_inbound_message_processed
step-IsKeyed (Call.upsert_pending_request r p) s k = upsert-IsKeyed r p s k
step-IsKeyed (Call.remove_pending_request r) s k = record {
  unique = pop-IsUnique s.pending_requests r k.unique;
  own = All-pop OwnId s.pending_requests r k.own;
}
step-IsKeyed (Call.remove_pending_requests_for_turn t u) s k = record {
  unique = pop_all-IsUnique _ s.pending_requests k.unique;
  own = All-pop_all _ s.pending_requests k.own;
}
step-IsKeyed (Call.invalidate_pending_requests_for_connection e) s k = record {
  unique = pop_all-IsUnique _ s.pending_requests k.unique;
  own = All-pop_all _ s.pending_requests k.own;
}
step-IsKeyed (Call.bind_thread key t) s k = bind_thread-IsKeyed key t s k
step-IsKeyed (Call.bind_thread_with_cwd key t cwd) s k = bind_thread_with_cwd-IsKeyed key t cwd s k
step-IsKeyed (Call.clear_thread_binding key) s k =
    SameRequests-IsKeyed s (step (Call.clear_thread_binding key) s)
      (requests-clear_thread_binding key s) k
step-IsKeyed call s k = SameRequests-IsKeyed s (step call s) (ground arith) k
