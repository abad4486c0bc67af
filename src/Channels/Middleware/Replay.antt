-- ===== src/Channels/Middleware/Replay.antt =====
-- A message that comes again is not handled again: its answer is sent again.
use imcodex.Prelude.{
  ℕ, String, ◌≡◌, refl, Bool, true, false, some, List, arith, string_eq, pair_eq, is_empty, All,
}
use imcodex.Dict
use imcodex.Dict.{Dict}
use imcodex.Models.{Fields}
use imcodex.Persistence.{Outcome}
use imcodex.Store.State.{Store}
use imcodex.Store.Inbound.{
  Inbound, record_inbound_message_processed, should_drop_duplicate_inbound_message,
  ensure_inbound_message_durable,
}
use imcodex.Bridge.Delivery.Payload.{construct}
use imcodex.Channels.Middleware.{
  Arrival, Answers, payload_of, prepared_for, answer, handle_checked, handle_serialized,
}

-- The messages are what `asdict` gives, so that they are read back as they are.
abbrev pub AreMessages : List Fields → Type 0
AreMessages messages = All (λ m. construct m ≡ some m) messages

-- What a message is answered with is in the record afterwards, whether it could be delivered or not.
module _ (utf8 : String → List ℕ) (digest : List ℕ → String) (a : Arrival) (s : Store)
    (first : Answers) (there : is_empty a.inbound.message_id ≡ false) where
  abbrev pub checked : Store
  checked = (should_drop_duplicate_inbound_message a.inbound first.now s).1

  messages : List Fields
  messages = (prepared_for utf8 digest first a checked).0

  ready : Store
  ready = (prepared_for utf8 digest first a checked).1

  recorded : Store
  recorded = record_inbound_message_processed a.inbound (some (payload_of messages)) first.now ready

  pub handle-new :
      (should_drop_duplicate_inbound_message a.inbound first.now s).0 ≡ false
      → handle_serialized utf8 digest first a s ≡ answer utf8 digest first a checked
  unfolding handle_serialized handle_checked
  handle-new new = fresh (should_drop_duplicate_inbound_message a.inbound first.now s) new
    where
      fresh :
          (r : Bool × Store)
          → r.0 ≡ false
          → handle_checked utf8 digest first a r ≡ answer utf8 digest first a r.1
      fresh (true, t) e = absurd (ground (arith, e))
      fresh (false, t) e = refl

-- A duplicate that is durable is replayed.
module _ (utf8 : String → List ℕ) (digest : List ℕ → String) (a : Arrival) (t : Store)
    (again : Answers) (there : is_empty a.inbound.message_id ≡ false) where
  ensured : Store × Outcome
  ensured = ensure_inbound_message_durable a.inbound again.commit t
