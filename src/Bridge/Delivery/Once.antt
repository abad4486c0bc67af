-- ===== src/Bridge/Delivery/Once.antt =====
-- A delivered message is acknowledged, so that further submissions send nothing.
use imcodex.Prelude.{
  String, ◌≡◌, refl, ap, ◌∙◌, subst, Bool, List, [], ◌∷◌, true, false, Option, none, some, arith,
  ◌==◌, string_eq, ◌&&◌, not, is_empty, Bool-cases, Option-cases, inl, inr,
}
use imcodex.Dict
use imcodex.Dict.Laws.{get-put_self}
use imcodex.Models.{Fields, str, PendingTerminalDelivery}
use imcodex.Persistence.{Io}
use imcodex.Store.State.{Store, save}
use imcodex.Text.{strip}
use imcodex.Store.Deliveries.{
  stage_new, stage_terminal_delivery, is_terminal_delivery_acknowledged, complete_terminal_delivery,
  update_terminal_delivery_message, find_delivery_id_with_prefix,
}
use imcodex.Store.Deliveries.Outbox.{stage-absent, stage-there, stage-empty}
use imcodex.Store.Deliveries.Acknowledgements.{complete-acknowledged}
use imcodex.Bridge.Delivery.{
  Send, sent, failed, Bridge, flush, store_receipts, schedule_terminal_delivery_retry,
}
use imcodex.Bridge.Delivery.Payload.{construct}
use imcodex.Bridge.Delivery.Handling.{Outcome-cases}
use imcodex.Bridge.Delivery.Direct.{
  Call, Begun, over, sends, Delivered, set_metadata, delivery_id_in, not_durable, begin_staged,
  begin_delivery, is_terminal_route_head, finish_delivery, flush_terminal_delivery_ack,
  deliver_terminal_message,
}
use imcodex.Bridge.Delivery.Standalone.{
  deliver_outbound_message, internal_delivery_id, standalone_delivery_prefix, conflicts,
}

-- The delivery is staged and not yet acknowledged.
IsOpen : String → Store → Type 0
IsOpen delivery s =
    ((p : PendingTerminalDelivery) × (Dict.get s.pending_terminal_deliveries delivery ≡ some p))
    × (is_terminal_delivery_acknowledged delivery s ≡ false)

-- A result that says "delivered" is acknowledged.
abbrev Settled : String → Bridge × Option Delivered → Type 0
Settled delivery (b, none) = Unit
Settled delivery (b, some d) =
    d.delivered ≡ true → is_terminal_delivery_acknowledged delivery b.store ≡ true

abbrev Opened : String → Bridge × Begun → Type 0
Opened delivery (b, over result) = Settled delivery (b, result)
Opened delivery (b, sends m) = IsOpen delivery b.store

module _ (delivery : String) (s : Store) where
  update-IsOpen :
      (message : Fields)
      → IsOpen delivery s
      → IsOpen delivery (update_terminal_delivery_message delivery message s)
  unfolding IsOpen update_terminal_delivery_message save is_terminal_delivery_acknowledged
  update-IsOpen message ((p, there), fresh) =
      rw (there, update_terminal_delivery_message)
        ((_, get-put_self s.pending_terminal_deliveries delivery _), fresh)

  receipts-IsOpen :
      (thread : String) (message : Fields)
      → IsOpen delivery s
      → IsOpen delivery (store_receipts thread delivery message s)
  receipts-IsOpen thread message o = elim (Bool-cases (is_empty thread)) [
    | inl e ↦ rw e (update-IsOpen message o)
    | inr e ↦ rw e o
  ]

  complete-acks :
      IsOpen delivery s
      → is_terminal_delivery_acknowledged delivery (complete_terminal_delivery delivery s) ≡ true
  unfolding IsOpen
  complete-acks ((p, there), fresh) = complete-acknowledged delivery s p there fresh

-- A flush keeps the acknowledgements.
ack-keeps :
    (io : Io) (delivery : String) (b : Bridge)
    → is_terminal_delivery_acknowledged delivery b.store ≡ true
    → is_terminal_delivery_acknowledged delivery (flush_terminal_delivery_ack io b).store ≡ true
unfolding flush_terminal_delivery_ack flush is_terminal_delivery_acknowledged
    schedule_terminal_delivery_retry
ack-keeps io delivery b h = elim (Outcome-cases (flush io b).1) [
  | inl e ↦ rw (e, flush_terminal_delivery_ack) h
  | inr e ↦ rw (e, flush_terminal_delivery_ack) (ground (arith, h))
]

module _ (call : Call) (delivery thread : String) (message : Fields) (b : Bridge) where
  finish-Settled :
      IsOpen delivery b.store → Settled delivery (finish_delivery call delivery thread message b)
  unfolding finish_delivery
  finish-Settled o = finished (call.sink delivery message) refl
    where
      finished :
          (answer : Send)
          → call.sink delivery message ≡ answer
          → Settled delivery (finish_delivery call delivery thread message b)
      finished (failed m) e = rw (e, finish_delivery) (λ h. absurd (ground (arith, h)))
      finished (sent m) e =
          rw (e, finish_delivery)
            (λ h.
              ack-keeps call.second delivery _
                (complete-acks delivery _ (receipts-IsOpen delivery b.store thread m o)))

  begin_staged-Opened :
      IsOpen delivery b.store → Opened delivery (begin_staged call delivery message b)
  unfolding begin_staged not_durable flush IsOpen is_terminal_delivery_acknowledged
  begin_staged-Opened o = elim (Outcome-cases (flush call.first b).1) [
    | inr e ↦ rw (e, begin_staged) (λ h. absurd (ground (arith, h)))
    | inl e ↦
        elim (Bool-cases (is_terminal_route_head delivery message (flush call.first b).0.store)) [
          | inl h ↦ rw (e, h, begin_staged) o
          | inr h ↦ rw (e, h, begin_staged) (λ d. absurd (ground (arith, d)))
        ]
  ]

-- The second half of `_deliver_terminal_message`
abbrev continued : Call → String → String → Bridge × Begun → Bridge × Option Delivered
continued call delivery thread (b, over result) = (b, result)
continued call delivery thread (b, sends ready) = finish_delivery call delivery thread ready b

module _ (call : Call) (delivery thread turn : String) (b : Bridge)
    (fresh : is_terminal_delivery_acknowledged delivery b.store ≡ false) where
  StageOpen : Option (PendingTerminalDelivery × Store) → Type 0
  StageOpen none = Unit
  StageOpen (some (p, s)) = IsOpen delivery s

  stage-Open :
      (ready : Fields)
      → StageOpen (stage_terminal_delivery delivery thread turn ready call.now b.store)
  unfolding StageOpen IsOpen stage_new is_terminal_delivery_acknowledged save
  stage-Open ready = elim (Bool-cases (is_empty delivery)) [
    | inl e ↦ rw (stage-empty delivery thread turn ready call.now b.store e) tt
    | inr e ↦ elim (Option-cases (Dict.get b.store.pending_terminal_deliveries delivery)) [
      | inl absent ↦
          rw (stage-absent delivery thread turn ready call.now b.store e absent)
            ((_, get-put_self b.store.pending_terminal_deliveries delivery _), fresh)
      | inr (p, there) ↦
          rw (stage-there delivery thread turn ready call.now b.store p e there) ((p, there), fresh)
    ]
  ]

  begin-Opened :
      (message : Fields) → Opened delivery (begin_delivery call delivery thread turn message b)
  unfolding begin_delivery StageOpen
  begin-Opened message = elim (Bool-cases mismatch) [
    | inl bad ↦ rw (bad, begin_delivery) tt
    | inr good ↦ elim (Option-cases (call.prepare named)) [
      | inl h ↦ rw (good, h, begin_delivery) tt
      | inr (ready, h) ↦
          elim (Option-cases
            (stage_terminal_delivery delivery thread turn ready call.now b.store)) [
              | inl e ↦ rw (good, h, e, begin_delivery) tt
              | inr ((p, s), e) ↦ elim (Option-cases (construct p.message)) [
                | inl c ↦ rw (good, h, e, c, begin_delivery) tt
                | inr (kept, c) ↦
                    rw (good, h, e, c, begin_delivery)
                      (begin_staged-Opened call delivery thread kept (record b { store = s })
                        (subst StageOpen e (stage-Open ready)))
              ]
            ]
    ]
  ]
    where
      named : Fields
      named = set_metadata "delivery_id" (str delivery) message

      mismatch : Bool
      mismatch = not (is_empty (delivery_id_in message)) && not (delivery_id_in message == delivery)

  deliver-Settled :
      (message : Fields)
      → Settled delivery (deliver_terminal_message call delivery thread turn message b)
  unfolding deliver_terminal_message
  deliver-Settled message =
      continued-Settled (begin_delivery call delivery thread turn message b) (begin-Opened message)
    where
      continued-Settled :
          (begun : Bridge × Begun)
          → Opened delivery begun
          → Settled delivery (continued call delivery thread begun)
      continued-Settled (c, over result) o = o
      continued-Settled (c, sends ready) o = finish-Settled call delivery thread ready c o

abbrev internal_of : (String → String) → (Fields → String) → Fields → String
internal_of digest dumps message =
    internal_delivery_id digest dumps (strip (delivery_id_in message)) message

module _ (digest : String → String) (dumps : Fields → String) (message : Fields) where
  -- The message is submitted again and again, with any answers, and nothing happens in between.
  unfoldable pub resubmit : List Call → Bridge → Bridge
  resubmit [] b = b
  resubmit (call ∷ calls) b =
      resubmit calls (deliver_outbound_message digest dumps call message b).0

  -- An acknowledged delivery leaves the bridge as it is, and sends nothing.
  acknowledged-same :
      (call : Call) (b : Bridge)
      → is_terminal_delivery_acknowledged (internal_of digest dumps message) b.store ≡ true
      → (deliver_outbound_message digest dumps call message b).0 ≡ b
  unfolding deliver_outbound_message
  acknowledged-same call b h = rw (h, deliver_outbound_message) (ground arith)

  resubmit-same :
      (calls : List Call) (b : Bridge)
      → is_terminal_delivery_acknowledged (internal_of digest dumps message) b.store ≡ true
      → resubmit calls b ≡ b
  unfolding resubmit
  resubmit-same [] b h = refl
  resubmit-same (call ∷ calls) b h =
      ap (resubmit calls) (acknowledged-same call b h) ∙ resubmit-same calls b h

module _ (digest : String → String) (dumps : Fields → String) (call : Call) (message : Fields) where
  outbound-Settled :
      (b : Bridge)
      → Settled
          (internal_of digest dumps message)
          (deliver_outbound_message digest dumps call message b)
  unfolding deliver_outbound_message
  outbound-Settled b = elim (Bool-cases (is_empty delivery)) [
    | inl e ↦ rw (e, deliver_outbound_message) tt
    | inr e ↦
        elim (Bool-cases (
          conflicts
            (find_delivery_id_with_prefix (standalone_delivery_prefix digest dumps delivery)
              b.store)
            (internal_of digest dumps message))) [
              | inl c ↦ rw (e, c, deliver_outbound_message) tt
              | inr c ↦
                  elim (Bool-cases (
                    is_terminal_delivery_acknowledged (internal_of digest dumps message) b.store)) [
                      | inl a ↦ rw (e, c, a, deliver_outbound_message) (λ _. a)
                      | inr a ↦
                          rw (e, c, a, deliver_outbound_message)
                            (deliver-Settled call (internal_of digest dumps message) "" "" b a _)
                    ]
            ]
  ]
    where
      delivery : String
      delivery = strip (delivery_id_in message)

  -- A standalone message that has been delivered can be submitted again any number of times, whatever
  -- the hash and the other answers: as long as nothing else changes the bridge in between, these
  -- submissions change nothing, the record of what was sent included.
  pub outbound-once :
      (calls : List Call) (b after : Bridge) (result : Delivered)
      → deliver_outbound_message digest dumps call message b ≡ (after, some result)
      → result.delivered ≡ true
      → resubmit digest dumps message calls after ≡ after
  outbound-once calls b after result e d =
      resubmit-same digest dumps message calls after
        (subst (Settled (internal_of digest dumps message)) e (outbound-Settled b) d)
