-- ===== src/Store/Bindings/Tests.antt =====
-- Conversations that take a thread over from each other.
use imcodex.Prelude.{
  string_eq, pair_eq, option_eq, ◌≡◌, refl, true, not, none, some, [], ◌∷◌, keep, map,
}
use imcodex.Dict
use imcodex.Dict.{values}
use imcodex.Models.{end, Pair, PendingNativeRequestRoute, PendingTerminalDelivery}
use imcodex.Store.State.{Store, new_store, save}
use imcodex.Store.Registry.{find_binding_by_thread_id, get_binding, set_binding}
use imcodex.Store.Requests.{list_pending_requests}
use imcodex.Store.Deliveries.{stage_new}
use imcodex.Store.Deliveries.Watches.{HasLeft}
use imcodex.Store.Bindings.{bind_thread, clear_thread_binding}
use imcodex.Store.Bindings.Routing.{find_binding-bind_thread, route-bind_thread}
use imcodex.Store.Bindings.Requests.{is_of, addressed_to, list_pending-bind_thread}
use imcodex.Store.Bindings.Leaving.{leave-keeps_staged}

abbrev alice : Pair
alice = ("qq", "alice")

abbrev bob : Pair
bob = ("telegram", "bob")

abbrev request : PendingNativeRequestRoute
request = record {
  request_id = "r1";
  request_handle = some "r1";
  channel_id = "qq";
  conversation_id = "alice";
  thread_id = some "t1";
  turn_id = some "u1";
  kind = "approval";
  request_method = none;
  transport_request_id = none;
  connection_epoch = 1;
  payload = end;
}

-- alice's conversation is bound to the thread, and a request waits for her.
abbrev waiting : Store
waiting = record ((bind_thread alice "t1" (new_store true true 50)).1) {
  pending_requests = ("r1", request) ∷ [];
}

find_binding-bind_thread_example :
    find_binding_by_thread_id "t1" (bind_thread bob "t1" waiting).1
    ≡ some (bind_thread bob "t1" waiting).0
find_binding-bind_thread_example = find_binding-bind_thread bob "t1" waiting

-- bob takes the thread over: the request is his.
list_pending-bind_thread_example :
    (keep (is_of "t1") (list_pending_requests bob none (bind_thread bob "t1" waiting).1)
      ≡ map (addressed_to bob) (keep (is_of "t1") (values waiting.pending_requests)))
    × (keep (is_of "t1") (list_pending_requests alice none (bind_thread bob "t1" waiting).1) ≡ [])
    × (keep
          (λ r. not (is_of "t1" r))
          (list_pending_requests alice none (bind_thread bob "t1" waiting).1)
        ≡ keep (λ r. not (is_of "t1" r)) (list_pending_requests alice none waiting))
list_pending-bind_thread_example = list_pending-bind_thread bob alice alice "t1" waiting refl

route-bind_thread_example :
    Dict.get (bind_thread bob "t1" waiting).1.thread_recipient_routes "t1" ≡ some bob
route-bind_thread_example = route-bind_thread bob "t1" waiting

abbrev staged : PendingTerminalDelivery
staged = (stage_new "d1" "t1" "u1" end 10 waiting).0

-- Something is watched, acknowledged and staged of the thread.
abbrev busy : Store
busy = record waiting {
  terminal_delivery_watches =
      (("t1", "u1"), record { thread_id = "t1"; turn_id = "u1"; created_at = 1 })
      ∷ (("t2", "u2"), record { thread_id = "t2"; turn_id = "u2"; created_at = 2 })
      ∷ [];
  acknowledged_terminal_deliveries = ("d0", ("t1", "u0")) ∷ ("d2", ("t2", "u2")) ∷ [];
  pending_terminal_deliveries = ("d1", staged) ∷ [];
}

leave-keeps_staged_example :
    HasLeft "t1" busy (clear_thread_binding alice busy).1
    × HasLeft "t1" busy (bind_thread alice "t2" busy).1
unfolding bind_thread get_binding set_binding save Dict.get Dict.put
leave-keeps_staged_example =
    leave-keeps_staged alice "t1" "t2" busy (bind_thread alice "t1" (new_store true true 50)).0 refl
      refl refl refl
