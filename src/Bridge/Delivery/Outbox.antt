-- ===== src/Bridge/Delivery/Outbox.antt =====
-- What a delivery that is dealt with leaves in the outbox.
use imcodex.Prelude.{
  String, ◌≡◌, refl, ◌∙◌, true, false, arith, string_eq, pair_eq, is_empty, Option-cases,
  Bool-cases, inl, inr, ◌⊎◌,
}
use imcodex.Dict
use imcodex.Dict.{Dict, values, keys}
use imcodex.Dict.Laws.{has-false, has-put_there, pop-put}
use imcodex.Dict.Trim.{pop_absent}
use imcodex.Models.{Pair, Fields, PendingTerminalDelivery}
use imcodex.Store.State.{Store, save}
use imcodex.Store.Deliveries.{
  acknowledge, prune_standalone_delivery_acknowledgements, complete_terminal_delivery,
  update_terminal_delivery_message, discard_terminal_watch,
}
use imcodex.Bridge.Delivery.{
  Bridge, Pass, store_receipts, release_completed_turn_watch_if_settled, remember_terminal_delivery,
  discard_invalid, after_failure, after_success,
}

-- A delivery that completes leaves the outbox, and nothing else does.
pub complete-pending :
    (delivery : String) (s : Store)
    → (complete_terminal_delivery delivery s).pending_terminal_deliveries
      ≡ Dict.pop s.pending_terminal_deliveries delivery
unfolding complete_terminal_delivery acknowledge prune_standalone_delivery_acknowledgements save
complete-pending delivery s =
    elim (Option-cases (Dict.get s.pending_terminal_deliveries delivery)) [
      | inl absent ↦
          rw
            (
              absent,
              complete_terminal_delivery,
              pop_absent s.pending_terminal_deliveries delivery
                  (has-false s.pending_terminal_deliveries delivery absent),
            )
            refl
      | inr (_, there) ↦ rw (there, complete_terminal_delivery) refl
    ]

module _ (delivery : String) (message : Fields) (s : Store) where
  pub update-has :
      (k : String)
      → Dict.has (update_terminal_delivery_message delivery message s).pending_terminal_deliveries k
        ≡ Dict.has s.pending_terminal_deliveries k
  unfolding update_terminal_delivery_message save
  update-has k = elim (Option-cases (Dict.get s.pending_terminal_deliveries delivery)) [
    | inl absent ↦ rw (absent, update_terminal_delivery_message) refl
    | inr (old, there) ↦
        rw (there, update_terminal_delivery_message)
          (has-put_there s.pending_terminal_deliveries delivery k _ old there)
  ]

  pub pop-update :
      Dict.pop
        (update_terminal_delivery_message delivery message s).pending_terminal_deliveries
        delivery
      ≡ Dict.pop s.pending_terminal_deliveries delivery
  unfolding update_terminal_delivery_message save
  pop-update = elim (Option-cases (Dict.get s.pending_terminal_deliveries delivery)) [
    | inl absent ↦ rw (absent, update_terminal_delivery_message) refl
    | inr (old, there) ↦
        rw (there, update_terminal_delivery_message)
          (pop-put s.pending_terminal_deliveries delivery _)
  ]

pub release-pending :
    (thread turn : String) (b : Bridge)
    → (release_completed_turn_watch_if_settled thread turn b).store.pending_terminal_deliveries
      ≡ b.store.pending_terminal_deliveries
unfolding release_completed_turn_watch_if_settled discard_terminal_watch save
release-pending thread turn b = ground arith

module _ (p : PendingTerminalDelivery) (pass : Pass) where
  pub invalid-pending :
      (discard_invalid p pass).bridge.store.pending_terminal_deliveries
      ≡ Dict.pop pass.bridge.store.pending_terminal_deliveries p.delivery_id
  unfolding discard_invalid
  invalid-pending =
      release-pending p.thread_id p.turn_id _ ∙ complete-pending p.delivery_id pass.bridge.store

  pub success-pending :
      (route : Pair) (message : Fields)
      → (after_success p route message pass).bridge.store.pending_terminal_deliveries
        ≡ Dict.pop pass.bridge.store.pending_terminal_deliveries p.delivery_id
  unfolding after_success remember_terminal_delivery
  success-pending route message =
      release-pending p.thread_id p.turn_id _
      ∙ complete-pending p.delivery_id _
      ∙ receipts (Bool-cases (is_empty p.thread_id))
    where
      receipts :
          (is_empty p.thread_id ≡ true) ⊎ (is_empty p.thread_id ≡ false)
          → Dict.pop
              (store_receipts p.thread_id p.delivery_id message
                pass.bridge.store).pending_terminal_deliveries
              p.delivery_id
            ≡ Dict.pop pass.bridge.store.pending_terminal_deliveries p.delivery_id
      receipts (inl e) = rw e (pop-update p.delivery_id message pass.bridge.store)
      receipts (inr e) = rw e refl

  pub failure-has :
      (route : Pair) (message : Fields) (k : String)
      → Dict.has (after_failure p route message pass).bridge.store.pending_terminal_deliveries k
        ≡ Dict.has pass.bridge.store.pending_terminal_deliveries k
  unfolding after_failure
  failure-has route message k = update-has p.delivery_id message pass.bridge.store k
