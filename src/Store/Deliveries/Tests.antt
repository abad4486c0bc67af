-- ===== src/Store/Deliveries/Tests.antt =====
-- An outbox of two messages.
use imcodex.Prelude.{◌≤◌, ◌≡◌, refl, true, none, some, arith, keep, length, string_eq, pair_eq}
use imcodex.Dict
use imcodex.Dict.{values}
use imcodex.Models.{end, PendingTerminalDelivery}
use imcodex.Store.State.{Store, new_store, save}
use imcodex.Store.Deliveries.{
  stage_new, stage_terminal_delivery, matches_thread, list_pending_terminal_deliveries,
  standalone_ids, standalone_delivery_ack_limit, complete_terminal_delivery,
  is_terminal_delivery_acknowledged,
}
use imcodex.Store.Deliveries.Outbox.{IsOutbox, stage-stage}
use imcodex.Store.Deliveries.Listing.{stage_new-IsOutbox, list_pending-staged}
use imcodex.Store.Deliveries.Acknowledgements.{complete-bounded, complete-acknowledged}

program : Unit {0}
unfolding stage_new stage_terminal_delivery Dict.get Dict.has Dict.put standalone_ids
    is_terminal_delivery_acknowledged save
program = tt

abbrev empty : Store
empty = new_store true true 50

abbrev one : Store
one = (stage_new "d1" "t1" "u1" end 10 empty).1

abbrev two : Store
two = (stage_new "d2" "" "" end 20 one).1

empty-IsOutbox : IsOutbox empty
empty-IsOutbox = record { unique = tt; own = tt; ascending = tt; counted = tt }

one-IsOutbox : IsOutbox one
unfolding Dict.get
one-IsOutbox = stage_new-IsOutbox "d1" "t1" "u1" end 10 empty refl empty-IsOutbox

two-IsOutbox : IsOutbox two
unfolding program
two-IsOutbox = stage_new-IsOutbox "d2" "" "" end 20 one refl one-IsOutbox

stage-stage_example :
    stage_terminal_delivery "d1" "t9" "u9" end 99 one
    ≡ some ((stage_new "d1" "t1" "u1" end 10 empty).0, one)
unfolding program
stage-stage_example =
    stage-stage "d1" "t1" "u1" "t9" "u9" end end 10 99 empty
      (stage_new "d1" "t1" "u1" end 10 empty).0 one refl

list_pending-staged_example :
    list_pending_terminal_deliveries (some "t1") two
    ≡ keep
        (λ (p : PendingTerminalDelivery). matches_thread (some "t1") p.thread_id)
        (values two.pending_terminal_deliveries)
list_pending-staged_example = list_pending-staged (some "t1") two two-IsOutbox

complete-bounded_example :
    (length (standalone_ids (complete_terminal_delivery "d2" two).acknowledged_terminal_deliveries)
      ≤ standalone_delivery_ack_limit)
    × (Dict.get (complete_terminal_delivery "d2" two).pending_terminal_deliveries "d2" ≡ none)
unfolding program
complete-bounded_example = complete-bounded "d2" two tt (omega arith)

complete-acknowledged_example :
    is_terminal_delivery_acknowledged "d2" (complete_terminal_delivery "d2" two) ≡ true
unfolding program
complete-acknowledged_example =
    complete-acknowledged "d2" two (stage_new "d2" "" "" end 20 one).0 refl refl
