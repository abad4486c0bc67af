-- ===== src/Bridge/Delivery/Settled.antt =====
-- What a pass leaves to be delivered: every message that could be sent and has not been.
use imcodex.Prelude.{
  String, ◌≡◌, refl, ap, subst, Bool, false, none, some, List, [], ◌∷◌, ◌++◌, arith, ◌==◌,
  string_eq, Bool-cases, inl, inr, not, ◌&&◌, ◌||◌, of_some, is_none, All, if◌then◌else◌,
}
use imcodex.Dict
use imcodex.Dict.{Dict, values}
use imcodex.Dict.Laws.{has-pop, has-true}
use imcodex.Dict.Unique.{IsUnique}
use imcodex.Models.{Fields, PendingTerminalDelivery}
use imcodex.Store.Deliveries.{list_pending_terminal_deliveries}
use imcodex.Store.Deliveries.Outbox.{IsOutbox}
use imcodex.Bridge.Delivery.{
  Sink, Attempt, Bridge, Pass, Round, start, discard_invalid, after_failure, after_success,
  remember_terminal_delivery, deliver_one, deliver_each, deliver_pending_terminal_once,
}
use imcodex.Bridge.Delivery.Payload.{message_of, route_of}
use imcodex.Bridge.Delivery.Handling.{
  Handling, invalid, waits, accepted, refused, deliver_one-Handling, prepared, passed, Passing,
  stopped, unchanged, changed, once-Passing, prepared-attempts, prepared-pending, prepared-IsOutbox,
  list_all-staged, flush_changes-frame,
}
use imcodex.Bridge.Delivery.Outbox.{invalid-pending, success-pending, failure-has}
use imcodex.Bridge.Delivery.Order.{release-attempts}

-- The sink has accepted the message.
abbrev pub is_delivered : List Attempt → String → Bool
is_delivered [] k = false
is_delivered (a ∷ as') k =
    let rest = is_delivered as' k in if a.succeeded then (a.delivery_id == k) || rest else rest

delivered-append :
    (xs ys : List Attempt) (k : String)
    → is_delivered (xs ++ ys) k ≡ (is_delivered xs k || is_delivered ys k)
delivered-append [] ys k = refl
delivered-append (a ∷ xs) ys k = ground (arith, delivered-append xs ys k)

-- Delivery `k` is owed exactly as long as it has not been accepted.
abbrev Owed : String → Bridge → Type 0
Owed k b = Dict.has b.store.pending_terminal_deliveries k ≡ not (is_delivered b.attempts k)

-- A staged message under `k` can be read.
abbrev Readable : String → PendingTerminalDelivery → Type 0
Readable k p = ((p.delivery_id == k) && is_none (message_of p.message)) ≡ false

module _ (sink : Sink) (k : String) (p : PendingTerminalDelivery) where
  handled-Owed :
      (pass next : Pass)
      → Readable k p
      → Handling sink p pass next
      → Owed k pass.bridge
      → Owed k next.bridge
  unfolding discard_invalid after_success after_failure remember_terminal_delivery
  handled-Owed pass next v (invalid h) o =
      rw (release-attempts p.thread_id p.turn_id _, invalid-pending p pass)
        (ground (
          arith,
          o,
          v,
          ap is_none h,
          has-pop pass.bridge.store.pending_terminal_deliveries p.delivery_id k,
        ))
  handled-Owed pass next v (waits m h c) o = o
  handled-Owed pass next v (accepted m final h c s) o =
      rw
        (
          release-attempts p.thread_id p.turn_id _,
          success-pending p pass (route_of m) final,
          has-pop pass.bridge.store.pending_terminal_deliveries p.delivery_id k,
          delivered-append pass.bridge.attempts _ k,
          o,
        )
        (ground arith)
  handled-Owed pass next v (refused m final h c s) o =
      rw (failure-has p pass (route_of m) final k, delivered-append pass.bridge.attempts _ k, o)
        (ground arith)

each-Owed :
    (sink : Sink) (k : String) (ps : List PendingTerminalDelivery) (pass : Pass)
    → All (Readable k) ps
    → Owed k pass.bridge
    → Owed k (deliver_each sink ps pass).bridge
unfolding deliver_each
each-Owed sink k [] pass v o = o
each-Owed sink k (p ∷ ps) pass v o =
    each-Owed sink k ps (deliver_one sink p pass) v.1 (
      handled-Owed sink k p pass (deliver_one sink p pass) v.0 (deliver_one-Handling sink p pass) o)

abbrev OwnId : String × PendingTerminalDelivery → Type 0
OwnId e = e.0 ≡ e.1.delivery_id

Readable-absent :
    (k : String) (d : Dict String PendingTerminalDelivery)
    → All OwnId d
    → Dict.has d k ≡ false
    → All (Readable k) (values d)
unfolding Dict.has
Readable-absent k [] own h = tt
Readable-absent k ((j, q) ∷ d) own h =
    (rw⁻¹ own.0 (ground arith), Readable-absent k d own.1 (ground arith))

Readable-all :
    (k : String) (d : Dict String PendingTerminalDelivery) (p : PendingTerminalDelivery)
    (m : Fields)
    → IsUnique d
    → All OwnId d
    → Dict.get d k ≡ some p
    → message_of p.message ≡ some m
    → All (Readable k) (values d)
unfolding Dict.get
Readable-all k [] p m u own h e = tt
Readable-all k ((j, q) ∷ d) p m u own h e = elim (Bool-cases (j == k)) [
  | inl same ↦
      let eq : q ≡ p = of_some (ground (arith, same)) in
      let at : j ≡ k = (string_eq.beq_iff j k).0 same in
      (
        rw (eq, e) (ground arith),
        Readable-absent k d own.1 (subst (λ (i : String). Dict.has d i ≡ false) at u.0),
      )
  | inr other ↦ (rw⁻¹ own.0 (rw other refl), Readable-all k d p m u.1 own.1 (ground arith) e)
]

-- A pending message that can be read is pending after a pass exactly if the sink has not accepted it.
pub pass-owes :
    (r : Round) (k : String) (p : PendingTerminalDelivery) (m : Fields) (b : Bridge)
    → IsOutbox b.store
    → Dict.get b.store.pending_terminal_deliveries k ≡ some p
    → message_of p.message ≡ some m
    → is_delivered b.attempts k ≡ false
    → Dict.has (deliver_pending_terminal_once r b).1.store.pending_terminal_deliveries k
      ≡ not (is_delivered (deliver_pending_terminal_once r b).1.attempts k)
pass-owes r k p m b o there e none_yet =
    ended (deliver_pending_terminal_once r b) (once-Passing r b)
  where
    before : Owed k (prepared r b)
    before =
        rw (prepared-pending r b, prepared-attempts r b, none_yet)
          (has-true b.store.pending_terminal_deliveries k p there)

    served : Owed k (passed r b).bridge
    served =
        each-Owed r.sink k (list_pending_terminal_deliveries none (prepared r b).store)
          (start (prepared r b))
          (rw (list_all-staged (prepared r b).store (prepared-IsOutbox r b o), prepared-pending r b)
            (Readable-all k b.store.pending_terminal_deliveries p m o.unique o.own there e))
          before

    ended : (result : Bool × Bridge) → Passing r b result → Owed k result.1
    ended result (stopped d) = before
    ended result (unchanged d c) = served
    ended result (changed d c) =
        let frame = flush_changes-frame r.after (passed r b).bridge in rw (frame.0, frame.1) served
