-- ===== src/Bridge/Delivery/Ending.antt =====
-- The end of the retry task: once the channels accept and the file system writes, one round is enough.
use imcodex.Prelude.{String, ◌≡◌, Bool, true, false, List, [], string_eq, pair_eq, map}
use imcodex.Dict
use imcodex.Dict.{Dict}
use imcodex.Models.{Fields, PendingTerminalDelivery}
use imcodex.Persistence.{written}
use imcodex.Store.State.{Store}
use imcodex.Bridge.Delivery.{Send, sent, failed as send_failed, Bridge, Pass, Round}
use imcodex.Bridge.Delivery.Handling.{Handling}

abbrev pub is_sent : Send → Bool
is_sent (sent _) = true
is_sent (send_failed _) = false

-- In the round the sink accepts everything, and the flushes that a state of the round depends on
-- are written.
pub record IsWorking (r : Round) : Type 0 where
  pub before : r.before ≡ written
  pub acknowledged : r.acknowledged ≡ written
  pub sends : (delivery : String) (message : Fields) → is_sent (r.sink delivery message) ≡ true

abbrev ids : List PendingTerminalDelivery → List String
ids ps = map (λ p. p.delivery_id) ps

-- No route is blocked, and the deliveries dealt with have left the outbox.
Cleared : Dict String PendingTerminalDelivery → Pass → Type 0
Cleared d pass = (pass.bridge.store.pending_terminal_deliveries ≡ d) × (pass.blocked_routes ≡ [])

abbrev OwnId : String × PendingTerminalDelivery → Type 0
OwnId e = e.0 ≡ e.1.delivery_id
