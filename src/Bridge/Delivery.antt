-- ===== src/Bridge/Delivery.antt =====
-- bridge/terminal_delivery.py: how the bridge sends what the store has staged. The sink and the file
-- system answer as their arguments say. Proofs are in the modules below.
pub mod Payload
pub mod Handling
pub mod Outbox
pub mod Order
pub mod Settled
pub mod Ready
pub mod Ending
pub mod Direct
pub mod Standalone
pub mod Written
pub mod Remembered
pub mod Once
mod Tests
use imcodex.Prelude.{
  ℕ, ◌+◌, String, Bool, true, false, Option, none, some, List, [], ◌∷◌, ◌++◌, ◌==◌, ◌&&◌, ◌||◌, not,
  string_eq, pair_eq, Eq, if◌then◌else◌, contains, keep, any, last_n, is_empty,
}
use imcodex.Dict
use imcodex.Models.{Pair, Fields, PendingTerminalDelivery}
use imcodex.Persistence
use imcodex.Persistence.{Io, Outcome, returned, raised}
use imcodex.Store.State.{Store}
use imcodex.Store.Deliveries.{
  list_pending_terminal_deliveries, complete_terminal_delivery, update_terminal_delivery_message,
  discard_terminal_watch, is_terminal_delivery_acknowledged, retry_terminal_delivery_persistence,
  retry_state_persistence,
}
use imcodex.Bridge.Delivery.Payload.{message_of, route_of}

-- _RECENT_TERMINAL_DELIVERY_LIMIT
abbrev pub recent_terminal_delivery_limit : ℕ
recent_terminal_delivery_limit = 512

-- What `send_message` does with a message: it returns or raises, and leaves the message as the
-- fields say.
pub data Send : Type 0 where
  sent failed : Fields → Send

-- The answer to each delivery in one pass, which offers no delivery twice.
abbrev pub Sink : Type 0
Sink = String → Fields → Send

-- A call of the sink, for the statements alone.
pub record Attempt : Type 0 where
  pub route : Pair
  pub delivery_id : String
  pub succeeded : Bool

-- The part of the bridge that deliveries use. `retry_running` says that the retry task is there and
-- not done.
pub record Bridge : Type 0 where
  pub store : Store
  pub recent_terminal_deliveries : List String
  pub recent_completed_turns : List Pair
  pub ack_persistence_pending : Bool
  pub closed : Bool
  pub retry_running : Bool
  pub attempts : List Attempt

-- A key of a dict that is popped and set again, and the loop that drops the oldest
unfoldable pub remember {ℓ} : {A : Type ℓ} → ⦃e : Eq A⦄ → A → List A → List A
remember x xs = last_n recent_terminal_delivery_limit (keep (λ y. not (y == x)) xs ++ x ∷ [])

unfoldable pub remember_terminal_delivery : String → Bridge → Bridge
unfolding remember
remember_terminal_delivery delivery b = record b {
  recent_terminal_deliveries = remember delivery b.recent_terminal_deliveries;
}

unfoldable pub remember_turn_completion : Pair → Bridge → Bridge
unfolding remember
remember_turn_completion turn b = record b {
  recent_completed_turns = remember turn b.recent_completed_turns;
}

unfoldable pub terminal_delivery_is_known : String → Bridge → Bool
terminal_delivery_is_known delivery b =
    contains b.recent_terminal_deliveries delivery
    || (is_terminal_delivery_acknowledged delivery b.store
        || any (λ (p : PendingTerminalDelivery). p.delivery_id == delivery)
            (list_pending_terminal_deliveries none b.store))

unfoldable pub turn_has_pending_terminal_delivery : Pair → Bridge → Bool
turn_has_pending_terminal_delivery (thread, turn) b =
    any (λ (p : PendingTerminalDelivery). p.turn_id == turn)
      (list_pending_terminal_deliveries (some thread) b.store)

unfoldable pub release_completed_turn_watch_if_settled : String → String → Bridge → Bridge
release_completed_turn_watch_if_settled thread turn b =
    if not (contains b.recent_completed_turns (thread, turn))
    then b
    else if any (λ (p : PendingTerminalDelivery). p.turn_id == turn)
        (list_pending_terminal_deliveries (some thread) b.store)
    then b
    else record b { store = discard_terminal_watch thread turn b.store }

-- `_schedule_terminal_delivery_retry`
unfoldable pub schedule_terminal_delivery_retry : Bridge → Bridge
schedule_terminal_delivery_retry b =
    if b.closed then b else if b.retry_running then b else record b { retry_running = true }

-- `_close_terminal_delivery`: the retry task is cancelled.
unfoldable pub close_terminal_delivery : Bridge → Bridge
close_terminal_delivery b = record b { closed = true; retry_running = false }

-- `await self.store.flush_pending_writes()`
unfoldable pub flush : Io → Bridge → Bridge × Outcome
flush io b =
    let (writer, outcome) = Persistence.flush_pending_writes io b.store.writer in
    (record b { store = record (b.store) { writer = writer } }, outcome)

-- The local variables of a pass beside the bridge
pub record Pass : Type 0 where
  pub bridge : Bridge
  pub blocked_routes : List Pair
  pub delivered_any : Bool
  pub state_changed : Bool

abbrev pub start : Bridge → Pass
start b = record { bridge = b; blocked_routes = []; delivered_any = false; state_changed = false }

-- A delivery without a message that could be sent
unfoldable pub discard_invalid : PendingTerminalDelivery → Pass → Pass
discard_invalid p pass = record pass {
  bridge =
      release_completed_turn_watch_if_settled p.thread_id p.turn_id (record (pass.bridge) {
        store = complete_terminal_delivery p.delivery_id pass.bridge.store;
      });
  state_changed = true;
}

abbrev pub note_attempt : Pair → String → Bool → Bridge → Bridge
note_attempt route delivery succeeded b = record b {
  attempts =
      b.attempts ++ (record { route = route; delivery_id = delivery; succeeded = succeeded }) ∷ [];
}

-- The branch for an exception of the sink
unfoldable pub after_failure : PendingTerminalDelivery → Pair → Fields → Pass → Pass
after_failure p route message pass = record pass {
  bridge = record (note_attempt route p.delivery_id false pass.bridge) {
    store = update_terminal_delivery_message p.delivery_id message pass.bridge.store;
  };
  blocked_routes = route ∷ pass.blocked_routes;
  state_changed = true;
}

-- A standalone message is stored again with its receipts.
abbrev pub store_receipts : String → String → Fields → Store → Store
store_receipts thread delivery message s =
    if is_empty thread then update_terminal_delivery_message delivery message s else s

unfoldable pub after_success : PendingTerminalDelivery → Pair → Fields → Pass → Pass
after_success p route message pass = record pass {
  bridge = release_completed_turn_watch_if_settled p.thread_id p.turn_id (
      remember_terminal_delivery p.delivery_id
        (record (note_attempt route p.delivery_id true pass.bridge) {
          store =
              complete_terminal_delivery p.delivery_id
                (store_receipts p.thread_id p.delivery_id message pass.bridge.store);
        }));
  delivered_any = true;
  state_changed = true;
}

unfoldable pub attempt_delivery : Sink → PendingTerminalDelivery → Fields → Pass → Pass
unfolding after_failure after_success
attempt_delivery sink p message pass =
    let route = route_of message in
    if contains pass.blocked_routes route then pass else elim (sink p.delivery_id message) [
      | sent final ↦ after_success p route final pass
      | failed final ↦ after_failure p route final pass
    ]

-- The body of the loop over the pending deliveries
unfoldable pub deliver_one : Sink → PendingTerminalDelivery → Pass → Pass
unfolding discard_invalid attempt_delivery
deliver_one sink p pass = elim (message_of p.message) [
  | none ↦ discard_invalid p pass
  | some message ↦ attempt_delivery sink p message pass
]

unfoldable pub deliver_each : Sink → List PendingTerminalDelivery → Pass → Pass
unfolding deliver_one
deliver_each sink [] pass = pass
deliver_each sink (p ∷ ps) pass = deliver_each sink ps (deliver_one sink p pass)

-- The flush at the end of a pass that has changed something
unfoldable pub flush_changes : Io → Bridge → Bridge
unfolding flush
flush_changes io b =
    let (flushed, outcome) = flush io b in
    elim outcome [
      | returned ↦ flushed
      | raised ↦
          schedule_terminal_delivery_retry (record flushed { ack_persistence_pending = true })
    ]

-- The answers during one round of the retry loop: of the file system to the flush before the pass, to
-- the flush after it and to that of the acknowledgements, and of the sink.
pub record Round : Type 0 where
  pub before : Io
  pub sink : Sink
  pub after : Io
  pub acknowledged : Io

unfoldable pub deliver_pending_terminal_once : Round → Bridge → Bool × Bridge
unfolding flush deliver_each flush_changes
deliver_pending_terminal_once r b =
    let (flushed, outcome) =
      flush r.before (record b { store = retry_terminal_delivery_persistence b.store }) in
    elim outcome [
      | raised ↦ (false, flushed)
      | returned ↦
          let pass =
            deliver_each r.sink (list_pending_terminal_deliveries none flushed.store)
              (start flushed) in
          (
            pass.delivered_any,
            if pass.state_changed then flush_changes r.after pass.bridge else pass.bridge,
          )
    ]

unfoldable pub retry_terminal_delivery_ack_persistence : Io → Bridge → Bool × Bridge
unfolding flush
retry_terminal_delivery_ack_persistence io b =
    let (flushed, outcome) = flush io (record b { store = retry_state_persistence b.store }) in
    if not b.ack_persistence_pending then (false, b) else elim outcome [
      | raised ↦ (false, flushed)
      | returned ↦ (true, record flushed { ack_persistence_pending = false })
    ]

abbrev pub nothing_pending : List PendingTerminalDelivery → Bool
nothing_pending [] = true
nothing_pending (_ ∷ _) = false

-- What ends the retry loop
unfoldable pub is_settled : Bridge → Bool
is_settled b =
    b.closed
    || (nothing_pending (list_pending_terminal_deliveries none b.store)
        && not b.ack_persistence_pending)

unfoldable pub retry_round : Round → Bridge → Bridge
unfolding deliver_pending_terminal_once retry_terminal_delivery_ack_persistence
retry_round r b =
    (retry_terminal_delivery_ack_persistence r.acknowledged (deliver_pending_terminal_once r b).1).1

-- `_retry_pending_terminal_deliveries` for the rounds that take place: whether the task has ended
unfoldable pub retry_pending_terminal_deliveries : List Round → Bridge → Bool × Bridge
unfolding retry_round is_settled
retry_pending_terminal_deliveries [] b =
    if is_settled b then (true, record b { retry_running = false }) else (false, b)
retry_pending_terminal_deliveries (r ∷ rs) b =
    let later = retry_pending_terminal_deliveries rs (retry_round r b) in
    if is_settled b then (true, record b { retry_running = false }) else later
