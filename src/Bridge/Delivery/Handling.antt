-- ===== src/Bridge/Delivery/Handling.antt =====
-- The ways in which one pending delivery is dealt with, each with its reason.
use imcodex.Prelude.{
  String, ◌≡◌, refl, sym, ap, ◌∙◌, subst, Bool, true, false, none, some, List, [], ◌∷◌, arith,
  string_eq, pair_eq, contains, keep, Option-cases, Bool-cases, inl, inr, ◌⊎◌,
}
use imcodex.Dict.{values}
use imcodex.Models.{Fields, PendingTerminalDelivery}
use imcodex.Dict.{Dict}
use imcodex.Persistence.{Writer, Io, Outcome, returned, raised}
use imcodex.Store.State.{Store, Snapshot, save}
use imcodex.Store.Deliveries.{list_pending_terminal_deliveries, retry_terminal_delivery_persistence}
use imcodex.Store.Deliveries.Outbox.{IsOutbox}
use imcodex.Store.Deliveries.Listing.{list_pending-staged}
use imcodex.Bridge.Delivery.{
  Send, sent, failed, Sink, Bridge, Pass, start, discard_invalid, after_failure, after_success,
  attempt_delivery, deliver_one, deliver_each, Round, flush, flush_changes,
  schedule_terminal_delivery_retry, deliver_pending_terminal_once,
}
use imcodex.Bridge.Delivery.Payload.{message_of, route_of}

-- The four ways in which a pending delivery is dealt with.
module _ (sink : Sink) (p : PendingTerminalDelivery) (pass : Pass) where
  pub data Handling : Pass → Type 0 where
    invalid : message_of p.message ≡ none → Handling (discard_invalid p pass)
    waits :
        (message : Fields)
        → message_of p.message ≡ some message
        → contains pass.blocked_routes (route_of message) ≡ true
        → Handling pass
    accepted :
        (message final : Fields)
        → message_of p.message ≡ some message
        → contains pass.blocked_routes (route_of message) ≡ false
        → sink p.delivery_id message ≡ sent final
        → Handling (after_success p (route_of message) final pass)
    refused :
        (message final : Fields)
        → message_of p.message ≡ some message
        → contains pass.blocked_routes (route_of message) ≡ false
        → sink p.delivery_id message ≡ failed final
        → Handling (after_failure p (route_of message) final pass)

  Send-cases :
      (answer : Send) → ((m : Fields) × (answer ≡ sent m)) ⊎ ((m : Fields) × (answer ≡ failed m))
  Send-cases (sent m) = inl (m, refl)
  Send-cases (failed m) = inr (m, refl)

  attempt-Handling :
      (message : Fields)
      → message_of p.message ≡ some message
      → Handling (attempt_delivery sink p message pass)
  unfolding attempt_delivery
  attempt-Handling message h = elim (Bool-cases (contains pass.blocked_routes (route_of message))) [
    | inl c ↦ rw (c, attempt_delivery) (waits message h c)
    | inr c ↦ elim (Send-cases (sink p.delivery_id message)) [
      | inl (m, s) ↦ rw (c, s, attempt_delivery) (accepted message m h c s)
      | inr (m, s) ↦ rw (c, s, attempt_delivery) (refused message m h c s)
    ]
  ]

  pub deliver_one-Handling : Handling (deliver_one sink p pass)
  unfolding deliver_one
  deliver_one-Handling = elim (Option-cases (message_of p.message)) [
    | inl h ↦ rw (h, deliver_one) (invalid h)
    | inr (message, h) ↦ rw (h, deliver_one) (attempt-Handling message h)
  ]

-- The state after the flush that comes before a pass, and whether that flush has succeeded
abbrev pub prepared : Round → Bridge → Bridge
prepared r b = (flush r.before (record b { store = retry_terminal_delivery_persistence b.store })).0

abbrev pub durable : Outcome → Bool
durable returned = true
durable raised = false

abbrev pub is_durable : Round → Bridge → Bool
is_durable r b =
    durable (flush r.before (record b { store = retry_terminal_delivery_persistence b.store })).1

abbrev pub passed : Round → Bridge → Pass
passed r b =
    let ready = prepared r b in
    deliver_each r.sink (list_pending_terminal_deliveries none ready.store) (start ready)

pub Outcome-cases : (o : Outcome) → (o ≡ returned) ⊎ (o ≡ raised)
Outcome-cases returned = inl refl
Outcome-cases raised = inr refl

-- The three ends of a pass.
module _ (r : Round) (b : Bridge) where
  pub data Passing : Bool × Bridge → Type 0 where
    stopped : is_durable r b ≡ false → Passing (false, prepared r b)
    unchanged :
        is_durable r b ≡ true
        → (passed r b).state_changed ≡ false
        → Passing ((passed r b).delivered_any, (passed r b).bridge)
    changed :
        is_durable r b ≡ true
        → (passed r b).state_changed ≡ true
        → Passing ((passed r b).delivered_any, flush_changes r.after (passed r b).bridge)

  pub once-Passing : Passing (deliver_pending_terminal_once r b)
  unfolding deliver_pending_terminal_once
  once-Passing = elim (Outcome-cases (flush r.before asked).1) [
    | inr e ↦ rw (e, deliver_pending_terminal_once) (stopped (ap durable e))
    | inl e ↦ elim (Bool-cases (passed r b).state_changed) [
      | inl c ↦ rw (e, c, deliver_pending_terminal_once) (changed (ap durable e) c)
      | inr c ↦ rw (e, c, deliver_pending_terminal_once) (unchanged (ap durable e) c)
    ]
  ]
    where
      asked : Bridge
      asked = record b { store = retry_terminal_delivery_persistence b.store }

-- A flush changes the writer alone.
pub flush-frame :
    (io : Io) (b : Bridge)
    → (flush io b).0
      ≡ record b { store = record (b.store) { writer = (flush io b).0.store.writer } }
unfolding flush
flush-frame io b = refl

module _ (s : Store) where
  abbrev unless_empty : Dict String PendingTerminalDelivery → Store
  unless_empty [] = s
  unless_empty (_ ∷ _) = save s

  retry-empty : s.pending_terminal_deliveries ≡ [] → retry_terminal_delivery_persistence s ≡ s
  unfolding retry_terminal_delivery_persistence
  retry-empty e = ap unless_empty e

  pub retry-more :
      (e : String × PendingTerminalDelivery) (d : Dict String PendingTerminalDelivery)
      → s.pending_terminal_deliveries ≡ e ∷ d
      → retry_terminal_delivery_persistence s ≡ save s
  unfolding retry_terminal_delivery_persistence
  retry-more _ _ e = ap unless_empty e

  -- Making the outbox durable changes the writer alone.
  retry-frame :
      (w : Writer Snapshot) × (retry_terminal_delivery_persistence s ≡ record s { writer = w })
  unfolding save
  retry-frame = frame s.pending_terminal_deliveries refl
    where
      frame :
          (d : Dict String PendingTerminalDelivery)
          → s.pending_terminal_deliveries ≡ d
          → (w : Writer Snapshot) × (retry_terminal_delivery_persistence s
              ≡ record s { writer = w })
      frame [] e = (s.writer, retry-empty e)
      frame (x ∷ d) e = ((save s).writer, retry-more x d e)

pub prepared-frame :
    (r : Round) (b : Bridge)
    → (w : Writer Snapshot) × (prepared r b ≡ record b { store = record (b.store) { writer = w } })
unfolding flush
prepared-frame r b =
    let (w, e) = retry-frame b.store in
    (
      (prepared r b).store.writer,
      ap (λ (s : Store). record b { store = record s { writer = (prepared r b).store.writer } }) e,
    )

-- The outbox in the frame of a changed writer
pub prepared-attempts : (r : Round) (b : Bridge) → (prepared r b).attempts ≡ b.attempts
prepared-attempts r b = ap (λ (c : Bridge). c.attempts) (prepared-frame r b).1

pub prepared-pending :
    (r : Round) (b : Bridge)
    → (prepared r b).store.pending_terminal_deliveries ≡ b.store.pending_terminal_deliveries
prepared-pending r b =
    ap (λ (c : Bridge). c.store.pending_terminal_deliveries) (prepared-frame r b).1

pub prepared-IsOutbox : (r : Round) (b : Bridge) → IsOutbox b.store → IsOutbox (prepared r b).store
prepared-IsOutbox r b o =
    subst (λ (c : Bridge). IsOutbox c.store) (sym (prepared-frame r b).1)
      (record { unique = o.unique; own = o.own; ascending = o.ascending; counted = o.counted })

keep_everything : {A : Type 0} (xs : List A) → keep (λ x. true) xs ≡ xs
keep_everything [] = refl
keep_everything (x ∷ xs) = ap (◌∷◌ x) (keep_everything xs)

-- A well-formed outbox is listed as it stands.
pub list_all-staged :
    (s : Store)
    → IsOutbox s
    → list_pending_terminal_deliveries none s ≡ values s.pending_terminal_deliveries
list_all-staged s o =
    list_pending-staged none s o ∙ keep_everything (values s.pending_terminal_deliveries)

-- The flush after a pass changes neither the outbox nor what has been sent.
pub flush_changes-frame :
    (io : Io) (b : Bridge)
    → ((flush_changes io b).attempts ≡ b.attempts)
      × ((flush_changes io b).store.pending_terminal_deliveries
          ≡ b.store.pending_terminal_deliveries)
      × ((flush_changes io b).closed ≡ b.closed)
unfolding flush_changes flush schedule_terminal_delivery_retry
flush_changes-frame io b = elim (Outcome-cases (flush io b).1) [
  | inl e ↦ rw (e, flush_changes) (refl, refl, refl)
  | inr e ↦ rw (e, flush_changes) (ground arith)
]
