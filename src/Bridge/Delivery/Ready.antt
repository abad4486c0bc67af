-- ===== src/Bridge/Delivery/Ready.antt =====
-- The writer stays well formed whatever is delivered.
use imcodex.Prelude.{
  String, Bool, true, false, List, [], ◌∷◌, arith, string_eq, pair_eq, Option-cases, inl, inr,
  is_empty, if◌then◌else◌,
}
use imcodex.Dict
use imcodex.Models.{Fields, PendingTerminalDelivery}
use imcodex.Persistence.{Io}
use imcodex.Persistence.Flush.{IsWriter, save-IsWriter, flush-IsWriter}
use imcodex.Store.State.{Store, save, snapshot}
use imcodex.Store.Deliveries.{
  acknowledge, prune_standalone_delivery_acknowledgements, complete_terminal_delivery,
  update_terminal_delivery_message, discard_terminal_watch, retry_terminal_delivery_persistence,
}
use imcodex.Bridge.Delivery.{
  Sink, Bridge, Pass, Round, start, release_completed_turn_watch_if_settled,
  remember_terminal_delivery, discard_invalid, after_failure, after_success, deliver_one,
  deliver_each, flush, flush_changes, schedule_terminal_delivery_retry,
  deliver_pending_terminal_once,
}
use imcodex.Bridge.Delivery.Handling.{
  Handling, invalid, waits, accepted, refused, deliver_one-Handling, prepared, passed, Passing,
  stopped, unchanged, changed, once-Passing, Outcome-cases,
}

abbrev pub IsReady : Store → Type 0
IsReady s = IsWriter s.writer

pub save-IsReady : (s : Store) → IsReady s → IsReady (save s)
unfolding save
save-IsReady s i = save-IsWriter (snapshot s) s.writer i

either_store : (c : Bool) (s t : Store) → IsReady s → IsReady t → IsReady (if c then s else t)
either_store true s t i j = i
either_store false s t i j = j

either_bridge :
    (c : Bool) (a b : Bridge)
    → IsReady a.store
    → IsReady b.store
    → IsReady (if c then a else b).store
either_bridge true a b i j = i
either_bridge false a b i j = j

complete-IsReady :
    (delivery : String) (s : Store) → IsReady s → IsReady (complete_terminal_delivery delivery s)
unfolding complete_terminal_delivery acknowledge prune_standalone_delivery_acknowledgements
complete-IsReady delivery s i =
    elim (Option-cases (Dict.get s.pending_terminal_deliveries delivery)) [
      | inl absent ↦ rw (absent, complete_terminal_delivery) i
      | inr (p, there) ↦
          rw (there, complete_terminal_delivery)
            (save-IsReady (prune_standalone_delivery_acknowledgements (acknowledge delivery p s)) i)
    ]

update-IsReady :
    (delivery : String) (message : Fields) (s : Store)
    → IsReady s
    → IsReady (update_terminal_delivery_message delivery message s)
unfolding update_terminal_delivery_message
update-IsReady delivery message s i =
    elim (Option-cases (Dict.get s.pending_terminal_deliveries delivery)) [
      | inl absent ↦ rw (absent, update_terminal_delivery_message) i
      | inr (p, there) ↦ rw (there, update_terminal_delivery_message) (save-IsReady _ i)
    ]

discard-IsReady :
    (thread turn : String) (s : Store) → IsReady s → IsReady (discard_terminal_watch thread turn s)
unfolding discard_terminal_watch
discard-IsReady thread turn s i = either_store _ _ _ (save-IsReady _ i) i

release-IsReady :
    (thread turn : String) (b : Bridge)
    → IsReady b.store
    → IsReady (release_completed_turn_watch_if_settled thread turn b).store
unfolding release_completed_turn_watch_if_settled
release-IsReady thread turn b i = ground (arith, i, discard-IsReady thread turn b.store i)

module _ (sink : Sink) (p : PendingTerminalDelivery) (pass : Pass) where
  handled-IsReady :
      (next : Pass)
      → Handling sink p pass next
      → IsReady pass.bridge.store
      → IsReady next.bridge.store
  unfolding discard_invalid after_success after_failure remember_terminal_delivery
  handled-IsReady next (invalid h) i =
      release-IsReady p.thread_id p.turn_id _ (complete-IsReady p.delivery_id pass.bridge.store i)
  handled-IsReady next (waits m h c) i = i
  handled-IsReady next (accepted m final h c s) i = release-IsReady p.thread_id p.turn_id _ (
      complete-IsReady p.delivery_id _ (
        either_store (is_empty p.thread_id) _ _
          (update-IsReady p.delivery_id final pass.bridge.store i) i))
  handled-IsReady next (refused m final h c s) i =
      update-IsReady p.delivery_id final pass.bridge.store i

each-IsReady :
    (sink : Sink) (ps : List PendingTerminalDelivery) (pass : Pass)
    → IsReady pass.bridge.store
    → IsReady (deliver_each sink ps pass).bridge.store
unfolding deliver_each
each-IsReady sink [] pass i = i
each-IsReady sink (p ∷ ps) pass i =
    each-IsReady sink ps (deliver_one sink p pass)
      (handled-IsReady sink p pass (deliver_one sink p pass) (deliver_one-Handling sink p pass) i)

pub flush-IsReady : (io : Io) (b : Bridge) → IsReady b.store → IsReady (flush io b).0.store
unfolding flush
flush-IsReady io b i = flush-IsWriter io b.store.writer i

retry-IsReady : (s : Store) → IsReady s → IsReady (retry_terminal_delivery_persistence s)
unfolding retry_terminal_delivery_persistence
retry-IsReady s i =
    elim s.pending_terminal_deliveries as (λ d. IsReady (elim d [ [] ↦ s | _ ∷ _ ↦ save s ])) [
      | [] ↦ i
      | _ ∷ _ ↦ save-IsReady s i
    ]

flush_changes-IsReady :
    (io : Io) (b : Bridge) → IsReady b.store → IsReady (flush_changes io b).store
unfolding flush_changes schedule_terminal_delivery_retry
flush_changes-IsReady io b i = elim (Outcome-cases (flush io b).1) [
  | inl e ↦ rw (e, flush_changes) (flush-IsReady io b i)
  | inr e ↦ rw (e, flush_changes) (ground (arith, flush-IsReady io b i))
]

pub once-IsReady :
    (r : Round) (b : Bridge) → IsReady b.store → IsReady (deliver_pending_terminal_once r b).1.store
once-IsReady r b i = ended (deliver_pending_terminal_once r b) (once-Passing r b)
  where
    before : IsReady (prepared r b).store
    before = flush-IsReady r.before _ (retry-IsReady b.store i)

    served : IsReady (passed r b).bridge.store
    served = each-IsReady r.sink _ (start (prepared r b)) before

    ended : (result : Bool × Bridge) → Passing r b result → IsReady result.1.store
    ended result (stopped d) = before
    ended result (unchanged d c) = served
    ended result (changed d c) = flush_changes-IsReady r.after (passed r b).bridge served
