-- ===== src/Bridge/Delivery/Order.antt =====
-- The order of deliveries: a pass over the outbox treats each route as a queue.
use imcodex.Prelude.{
  String, ◌≡◌, refl, sym, ◌∙◌, subst, Bool, true, false, none, some, List, [], ◌∷◌, ◌++◌, arith,
  append-nil, append_assoc, ◌==◌, string_eq, pair_eq, if◌then◌else◌, contains, keep, keep-append,
  beq_refl, Bool-cases, inl, inr,
}
use imcodex.Dict.{values}
use imcodex.Models.{Pair, Fields, PendingTerminalDelivery}
use imcodex.Store.Deliveries.{list_pending_terminal_deliveries}
use imcodex.Store.Deliveries.Outbox.{IsOutbox}
use imcodex.Bridge.Delivery.{
  sent, failed, Sink, Attempt, Bridge, Pass, start, release_completed_turn_watch_if_settled,
  remember_terminal_delivery, discard_invalid, after_failure, after_success, deliver_one,
  deliver_each, Round, deliver_pending_terminal_once,
}
use imcodex.Bridge.Delivery.Payload.{message_of, route_of}
use imcodex.Bridge.Delivery.Handling.{
  Handling, invalid, waits, accepted, refused, deliver_one-Handling, prepared, is_durable, passed,
  Passing, stopped, unchanged, changed, once-Passing, prepared-attempts, prepared-pending,
  prepared-IsOutbox, list_all-staged, flush_changes-frame,
}

abbrev pub on_route : Pair → Attempt → Bool
on_route route attempt = attempt.route == route

-- The messages of one route, offered in their order until one is refused.
unfoldable pub until_refused : Sink → Pair → List PendingTerminalDelivery → List Attempt
until_refused sink route [] = []
until_refused sink route (p ∷ ps) =
    let rest = until_refused sink route ps in
    elim (message_of p.message) [
      | none ↦ rest
      | some message ↦
          if route_of message == route
          then elim (sink p.delivery_id message) [
            | sent _ ↦
                (record { route = route; delivery_id = p.delivery_id; succeeded = true }) ∷ rest
            | failed _ ↦
                (record { route = route; delivery_id = p.delivery_id; succeeded = false }) ∷ []
          ]
          else rest
    ]

pub release-attempts :
    (thread turn : String) (b : Bridge)
    → (release_completed_turn_watch_if_settled thread turn b).attempts ≡ b.attempts
unfolding release_completed_turn_watch_if_settled
release-attempts thread turn b = ground arith

-- What is still to be offered on a route in the rest of a pass
abbrev remaining : Sink → Pair → List PendingTerminalDelivery → List Pair → List Attempt
remaining sink route ps blocked = if contains blocked route then [] else until_refused sink route ps

module _ (sink : Sink) (p : PendingTerminalDelivery) (ps : List PendingTerminalDelivery) where
  until-invalid :
      (route : Pair)
      → message_of p.message ≡ none
      → until_refused sink route (p ∷ ps) ≡ until_refused sink route ps
  unfolding until_refused
  until-invalid route h = rw (h, until_refused) refl

  until-other :
      (route : Pair) (m : Fields)
      → message_of p.message ≡ some m
      → (route_of m == route) ≡ false
      → until_refused sink route (p ∷ ps) ≡ until_refused sink route ps
  unfolding until_refused
  until-other route m h o = rw (h, o, until_refused) refl

  until-sent :
      (m final : Fields)
      → message_of p.message ≡ some m
      → sink p.delivery_id m ≡ sent final
      → until_refused sink (route_of m) (p ∷ ps)
        ≡ (record { route = route_of m; delivery_id = p.delivery_id; succeeded = true })
          ∷ until_refused sink (route_of m) ps
  unfolding until_refused
  until-sent m final h s = rw (h, beq_refl (route_of m), s, until_refused) refl

  until-failed :
      (m final : Fields)
      → message_of p.message ≡ some m
      → sink p.delivery_id m ≡ failed final
      → until_refused sink (route_of m) (p ∷ ps)
        ≡ (record { route = route_of m; delivery_id = p.delivery_id; succeeded = false }) ∷ []
  unfolding until_refused
  until-failed m final h s = rw (h, beq_refl (route_of m), s, until_refused) refl

  abbrev Offered : Pair → Pass → Pass → Type 0
  Offered route pass next =
      keep (on_route route) next.bridge.attempts ++ remaining sink route ps next.blocked_routes
      ≡ keep (on_route route) pass.bridge.attempts
        ++ remaining sink route (p ∷ ps) pass.blocked_routes

  same-success :
      (pass : Pass) (m final : Fields)
      → message_of p.message ≡ some m
      → contains pass.blocked_routes (route_of m) ≡ false
      → sink p.delivery_id m ≡ sent final
      → Offered (route_of m) pass (after_success p (route_of m) final pass)
  unfolding after_success remember_terminal_delivery
  same-success pass m final h c s =
      rw
        (
          release-attempts p.thread_id p.turn_id _,
          keep-append (on_route (route_of m)) pass.bridge.attempts _,
          beq_refl (route_of m),
          c,
          until-sent m final h s,
        )
        (append_assoc (keep (on_route (route_of m)) pass.bridge.attempts)
          ((record { route = route_of m; delivery_id = p.delivery_id; succeeded = true }) ∷ [])
          (until_refused sink (route_of m) ps))

  same-failure :
      (pass : Pass) (m final : Fields)
      → message_of p.message ≡ some m
      → contains pass.blocked_routes (route_of m) ≡ false
      → sink p.delivery_id m ≡ failed final
      → Offered (route_of m) pass (after_failure p (route_of m) final pass)
  unfolding after_failure
  same-failure pass m final h c s =
      rw
        (
          keep-append (on_route (route_of m)) pass.bridge.attempts _,
          beq_refl (route_of m),
          c,
          until-failed m final h s,
        )
        (append-nil _)

  other-success :
      (route : Pair) (pass : Pass) (m final : Fields)
      → message_of p.message ≡ some m
      → (route_of m == route) ≡ false
      → Offered route pass (after_success p (route_of m) final pass)
  unfolding after_success remember_terminal_delivery
  other-success route pass m final h o =
      rw
        (
          release-attempts p.thread_id p.turn_id _,
          keep-append (on_route route) pass.bridge.attempts _,
          o,
          append-nil (keep (on_route route) pass.bridge.attempts),
          until-other route m h o,
        )
        refl

  other-failure :
      (route : Pair) (pass : Pass) (m final : Fields)
      → message_of p.message ≡ some m
      → (route_of m == route) ≡ false
      → Offered route pass (after_failure p (route_of m) final pass)
  unfolding after_failure
  other-failure route pass m final h o =
      rw
        (
          keep-append (on_route route) pass.bridge.attempts _,
          o,
          append-nil (keep (on_route route) pass.bridge.attempts),
          until-other route m h o,
        )
        refl

  same_route : (a b : Pair) → (a == b) ≡ true → a ≡ b
  same_route a b h = (pair_eq.beq_iff a b).0 h

  -- What has been offered on a route, with what remains, is the same before and after a step.
  offered : (route : Pair) (pass next : Pass) → Handling sink p pass next → Offered route pass next
  unfolding discard_invalid
  offered route pass next (invalid h) =
      rw (release-attempts p.thread_id p.turn_id _, until-invalid route h) refl
  offered route pass next (waits m h c) = elim (Bool-cases (route_of m == route)) [
    | inl same ↦ subst (λ r. Offered r pass pass) (same_route (route_of m) route same) (rw c refl)
    | inr other ↦ rw (until-other route m h other) refl
  ]
  offered route pass next (accepted m final h c s) = elim (Bool-cases (route_of m == route)) [
    | inl same ↦
        subst (λ r. Offered r pass (after_success p (route_of m) final pass))
          (same_route (route_of m) route same) (same-success pass m final h c s)
    | inr other ↦ other-success route pass m final h other
  ]
  offered route pass next (refused m final h c s) = elim (Bool-cases (route_of m == route)) [
    | inl same ↦
        subst (λ r. Offered r pass (after_failure p (route_of m) final pass))
          (same_route (route_of m) route same) (same-failure pass m final h c s)
    | inr other ↦ other-failure route pass m final h other
  ]

each-offered :
    (sink : Sink) (route : Pair) (ps : List PendingTerminalDelivery) (pass : Pass)
    → keep (on_route route) (deliver_each sink ps pass).bridge.attempts
      ≡ keep (on_route route) pass.bridge.attempts ++ remaining sink route ps pass.blocked_routes
unfolding deliver_each until_refused
each-offered sink route [] pass = elim (Bool-cases (contains pass.blocked_routes route)) [
  | inl c ↦ rw c (sym (append-nil (keep (on_route route) pass.bridge.attempts)))
  | inr c ↦ rw c (sym (append-nil (keep (on_route route) pass.bridge.attempts)))
]
each-offered sink route (p ∷ ps) pass =
    each-offered sink route ps (deliver_one sink p pass)
    ∙ offered sink p ps route pass (deliver_one sink p pass) (deliver_one-Handling sink p pass)

-- In one pass each route is served as a queue in the order of staging, up to the first message that
-- the sink refuses, whatever happens on other routes; if the staged state could not be written
-- before, nothing is sent.
pub pass-in_order :
    (r : Round) (route : Pair) (b : Bridge)
    → IsOutbox b.store
    → keep (on_route route) (deliver_pending_terminal_once r b).1.attempts
      ≡ keep (on_route route) b.attempts
        ++ (if is_durable r b
            then until_refused r.sink route (values b.store.pending_terminal_deliveries)
            else [])
pass-in_order r route b o = ended (deliver_pending_terminal_once r b) (once-Passing r b)
  where
    queue : List Attempt
    queue = until_refused r.sink route (values b.store.pending_terminal_deliveries)

    served :
        keep (on_route route) (passed r b).bridge.attempts
        ≡ keep (on_route route) b.attempts ++ queue
    served =
        each-offered r.sink route (list_pending_terminal_deliveries none (prepared r b).store)
          (start (prepared r b))
        ∙ rw
            (
              list_all-staged (prepared r b).store (prepared-IsOutbox r b o),
              prepared-pending r b,
              prepared-attempts r b,
            )
            refl

    ended :
        (result : Bool × Bridge)
        → Passing r b result
        → keep (on_route route) result.1.attempts
          ≡ keep (on_route route) b.attempts ++ (if is_durable r b then queue else [])
    ended result (stopped d) =
        rw (d, prepared-attempts r b) (sym (append-nil (keep (on_route route) b.attempts)))
    ended result (unchanged d c) = rw d served
    ended result (changed d c) = rw (d, (flush_changes-frame r.after (passed r b).bridge).0) served
