-- ===== src/Bridge/Delivery/Written.antt =====
-- A message is on disk before the channel sees it, and the channel sees the oldest of a route first.
use imcodex.Prelude.{
  String, ◌≡◌, refl, sym, ap, ◌∙◌, subst, Bool, true, false, Option, none, some, List, [], ◌∷◌,
  arith, ◌==◌, string_eq, ◌&&◌, not, is_empty, Bool-cases, Option-cases, inl, inr, find, All,
  if◌then◌else◌, ◌++◌,
}
use imcodex.Dict
use imcodex.Dict.{Dict, values}
use imcodex.Models.{Fields, str, PendingTerminalDelivery}
use imcodex.Persistence
use imcodex.Persistence.{Io, written, failed, Writer, Outcome, returned, raised}
use imcodex.Persistence.Flush.{IsWriter, flush-written, flush-failed}
use imcodex.Store.State.{save, snapshot}
use imcodex.Store.Deliveries.{stage_new}
use imcodex.Store.Deliveries.Outbox.{IsOutbox, stage-absent, stage-empty}
use imcodex.Store.Deliveries.Listing.{stage_new-IsOutbox}
use imcodex.Dict.Laws.{get-put_self, has-true, has-false}
use imcodex.Dict.Trim.{put_absent}
use imcodex.Bridge.Delivery.{Bridge, flush}
use imcodex.Bridge.Delivery.Payload.{construct}
use imcodex.Bridge.Delivery.Handling.{Outcome-cases, list_all-staged}
use imcodex.Bridge.Delivery.Ready.{IsReady}
use imcodex.Bridge.Delivery.Direct.{
  Call, Begun, over, sends, set_metadata, delivery_id_in, begin_staged, begin_delivery,
  is_terminal_route_head, on_same_route,
}

-- The file holds the state, and the delivery is part of it.
abbrev pub IsOnDisk : String → Bridge → Type 0
IsOnDisk delivery b =
    (b.store.writer.file ≡ some (snapshot b.store))
    × (Dict.has b.store.pending_terminal_deliveries delivery ≡ true)

-- The only message of the route that is pending is the one that is sent.
abbrev pub IsAlone : String → Fields → Bridge → Type 0
IsAlone delivery message b =
    All (λ (p : PendingTerminalDelivery). on_same_route message p ≡ true → p.delivery_id ≡ delivery)
      (values b.store.pending_terminal_deliveries)

abbrev head_test : String → Option PendingTerminalDelivery → Bool
head_test delivery none = true
head_test delivery (some p) = p.delivery_id == delivery

abbrev OwnId : String × PendingTerminalDelivery → Type 0
OwnId e = e.0 ≡ e.1.delivery_id

head_alone :
    (f : PendingTerminalDelivery → Bool) (delivery : String) (new : PendingTerminalDelivery)
    (d : Dict String PendingTerminalDelivery)
    → new.delivery_id ≡ delivery
    → All OwnId d
    → Dict.has d delivery ≡ false
    → head_test delivery (find f (values (d ++ (delivery, new) ∷ []))) ≡ true
    → All
        (λ (p : PendingTerminalDelivery). f p ≡ true → p.delivery_id ≡ delivery)
        (values (d ++ (delivery, new) ∷ []))
unfolding Dict.has
head_alone f delivery new [] e own h first = ((λ _. e), tt)
head_alone f delivery new ((j, q) ∷ d) e own h first = elim (Bool-cases (f q)) [
  | inl y ↦
      let here : (q.delivery_id == delivery) ≡ true = subst Passes y first in
      absurd (ground (arith, subst (λ (k : String). (k == delivery) ≡ true) (sym own.0) here, h))
  | inr n ↦ (
    (λ y. absurd (ground (arith, y, n))),
    head_alone f delivery new d e own.1 (ground arith) (subst Passes n first),
  )
]
  where
    Passes : Bool → Type 0
    Passes c =
        head_test delivery (if c then some q else find f (values (d ++ (delivery, new) ∷ [])))
        ≡ true

-- What must hold when the sink is asked next
Sending : String → Bridge × Begun → Type 0
Sending delivery (b, over _) = Unit
Sending delivery (b, sends m) = IsOnDisk delivery b × IsAlone delivery m b

flush-file :
    {P : Type 0} (io : Io) (x : P) (w : Writer P)
    → IsWriter w
    → (Persistence.flush_pending_writes io (Persistence.save x w)).1 ≡ returned
    → (Persistence.flush_pending_writes io (Persistence.save x w)).0.file ≡ some x
flush-file written x w i h = (flush-written x w i).1
flush-file failed x w i h = absurd (ground (arith, h, flush-failed x w i))

module _ (call : Call) (delivery thread turn : String) (ready : Fields) (b : Bridge)
    (i : IsReady b.store) (o : IsOutbox b.store)
    (absent : Dict.get b.store.pending_terminal_deliveries delivery ≡ none) where
  staged : Bridge
  staged = record b { store = (stage_new delivery thread turn ready call.now b.store).1 }

  flushed-OnDisk :
      (flush call.first staged).1 ≡ returned → IsOnDisk delivery (flush call.first staged).0
  unfolding staged stage_new flush save snapshot
  flushed-OnDisk h = (
    flush-file call.first _ b.store.writer i h,
    has-true _ delivery _ (get-put_self b.store.pending_terminal_deliveries delivery _),
  )

  flushed-IsOutbox : IsOutbox (flush call.first staged).0.store
  unfolding staged flush
  flushed-IsOutbox =
      let p = stage_new-IsOutbox delivery thread turn ready call.now b.store absent o in
      record { unique = p.unique; own = p.own; ascending = p.ascending; counted = p.counted }

  new : PendingTerminalDelivery
  new = (stage_new delivery thread turn ready call.now b.store).0

  no_key : Dict.has b.store.pending_terminal_deliveries delivery ≡ false
  no_key = has-false b.store.pending_terminal_deliveries delivery absent

  flushed-pending :
      (flush call.first staged).0.store.pending_terminal_deliveries
      ≡ b.store.pending_terminal_deliveries ++ (delivery, new) ∷ []
  unfolding staged new flush stage_new save
  flushed-pending = put_absent b.store.pending_terminal_deliveries delivery _ no_key

  new-own : new.delivery_id ≡ delivery
  unfolding new stage_new
  new-own = refl

  alone :
      (message : Fields)
      → is_terminal_route_head delivery message (flush call.first staged).0.store ≡ true
      → IsAlone delivery message (flush call.first staged).0
  unfolding is_terminal_route_head
  alone message h = rw flushed-pending (
      head_alone (on_same_route message) delivery new b.store.pending_terminal_deliveries new-own
        o.own no_key
        (subst
          (λ (ps : List PendingTerminalDelivery).
            head_test delivery (find (on_same_route message) ps) ≡ true)
          (list_all-staged (flush call.first staged).0.store flushed-IsOutbox
            ∙ ap (λ (d : Dict String PendingTerminalDelivery). values d) flushed-pending)
          h))

  begin_staged-Sending :
      (message : Fields) → Sending delivery (begin_staged call delivery message staged)
  unfolding begin_staged Sending
  begin_staged-Sending message = elim (Outcome-cases (flush call.first staged).1) [
    | inr e ↦ rw (e, begin_staged) tt
    | inl e ↦
        elim (Bool-cases
          (is_terminal_route_head delivery message (flush call.first staged).0.store)) [
            | inl h ↦ rw (e, h, begin_staged) (flushed-OnDisk e, alone message h)
            | inr h ↦ rw (e, h, begin_staged) tt
          ]
  ]

module _ (call : Call) (delivery thread turn : String) (message : Fields) (b : Bridge) where
  begin-Sending :
      IsReady b.store
      → IsOutbox b.store
      → Dict.get b.store.pending_terminal_deliveries delivery ≡ none
      → Sending delivery (begin_delivery call delivery thread turn message b)
  unfolding begin_delivery Sending staged
  begin-Sending i o absent = elim (Bool-cases mismatch) [
    | inl bad ↦ rw (bad, begin_delivery) tt
    | inr good ↦ elim (Option-cases (call.prepare named)) [
      | inl h ↦ rw (good, h, begin_delivery) tt
      | inr (ready, h) ↦ elim (Bool-cases (is_empty delivery)) [
        | inl e ↦
            rw (good, h, stage-empty delivery thread turn ready call.now b.store e, begin_delivery)
              tt
        | inr e ↦
            elim (Option-cases
              (construct (stage_new delivery thread turn ready call.now b.store).0.message)) [
                | inl c ↦
                    rw
                      (
                        good,
                        h,
                        stage-absent delivery thread turn ready call.now b.store e absent,
                        c,
                        begin_delivery,
                      )
                      tt
                | inr (kept, c) ↦
                    rw
                      (
                        good,
                        h,
                        stage-absent delivery thread turn ready call.now b.store e absent,
                        c,
                        begin_delivery,
                      )
                      (begin_staged-Sending call delivery thread turn ready b i o absent kept)
              ]
      ]
    ]
  ]
    where
      named : Fields
      named = set_metadata "delivery_id" (str delivery) message

      mismatch : Bool
      mismatch = not (is_empty (delivery_id_in message)) && not (delivery_id_in message == delivery)

-- Before a new message is given to the sink it is in the file with the whole state, and no other
-- message of its route is pending.
pub begin-durable :
    (call : Call) (delivery thread turn : String) (message ready : Fields) (b begun : Bridge)
    → IsReady b.store
    → IsOutbox b.store
    → Dict.get b.store.pending_terminal_deliveries delivery ≡ none
    → begin_delivery call delivery thread turn message b ≡ (begun, sends ready)
    → IsOnDisk delivery begun × IsAlone delivery ready begun
unfolding Sending
begin-durable call delivery thread turn message ready b begun i o absent e =
    subst (Sending delivery) e (begin-Sending call delivery thread turn message b i o absent)
