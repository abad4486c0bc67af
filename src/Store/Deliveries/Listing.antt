-- ===== src/Store/Deliveries/Listing.antt =====
-- The invariant of the outbox under its operations, and the order of its listing.
use imcodex.Prelude.{
  ℕ, ◌+◌, ◌≤◌, ◌<◌, String, ◌≡◌, refl, Bool, Option, none, List, [], ◌∷◌, arith, string_eq, keep,
  All-weaken, sorted, insert_sorted, Option-cases, inl, inr,
}
use imcodex.Dict
use imcodex.Dict.{Dict, values}
use imcodex.Dict.Laws.{All-put, All-pop, All-get}
use imcodex.Dict.Unique.{put-IsUnique, pop-IsUnique}
use imcodex.Models.{Fields, PendingTerminalDelivery}
use imcodex.Store.State.{Store, save}
use imcodex.Store.Deliveries.{
  stage_new, delivery_le, matches_thread, list_pending_terminal_deliveries,
  update_terminal_delivery_message, complete_terminal_delivery,
  prune_standalone_delivery_acknowledgements,
}
use imcodex.Store.Deliveries.Outbox.{
  Ascending, IsOutbox, put-Ascending, replace-Ascending, pop-Ascending,
}

abbrev OwnId : String × PendingTerminalDelivery → Type 0
OwnId e = e.0 ≡ e.1.delivery_id

abbrev Below : ℕ → String × PendingTerminalDelivery → Type 0
Below n e = e.1.sequence ≤ n

pub stage_new-IsOutbox :
    (delivery thread turn : String) (message : Fields) (now : ℕ) (s : Store)
    → Dict.get s.pending_terminal_deliveries delivery ≡ none
    → IsOutbox s
    → IsOutbox (stage_new delivery thread turn message now s).1
unfolding stage_new save
stage_new-IsOutbox delivery thread turn message now s absent o = record {
  unique = put-IsUnique s.pending_terminal_deliveries delivery new o.unique;
  own = All-put OwnId s.pending_terminal_deliveries delivery new refl o.own;
  ascending =
      put-Ascending s.pending_terminal_deliveries delivery new 0 absent (omega arith)
        (All-weaken (Below n) (λ e. e.1.sequence < n + 1) (λ e h. omega arith)
          s.pending_terminal_deliveries o.counted)
        o.ascending;
  counted = All-put (Below (n + 1)) s.pending_terminal_deliveries delivery new (omega arith) (
      All-weaken (Below n) (Below (n + 1)) (λ e h. omega arith) s.pending_terminal_deliveries
        o.counted);
}
  where
    n : ℕ
    n = s.next_terminal_delivery_sequence

    new : PendingTerminalDelivery
    new = (stage_new delivery thread turn message now s).0

pub update-IsOutbox :
    (delivery : String) (message : Fields) (s : Store)
    → IsOutbox s
    → IsOutbox (update_terminal_delivery_message delivery message s)
unfolding update_terminal_delivery_message save
update-IsOutbox delivery message s o =
    elim (Option-cases (Dict.get s.pending_terminal_deliveries delivery)) [
      | inl absent ↦ rw (absent, update_terminal_delivery_message) o
      | inr (old, there) ↦
          rw (there, update_terminal_delivery_message)
            (let d = s.pending_terminal_deliveries in
              let new = record old { message = message } in
              record {
                unique = put-IsUnique d delivery new o.unique;
                own = All-put OwnId d delivery new (All-get OwnId d delivery old o.own there) o.own;
                ascending = replace-Ascending d delivery new old 0 there refl o.ascending;
                counted =
                    All-put (Below s.next_terminal_delivery_sequence) d delivery new
                      (All-get (Below s.next_terminal_delivery_sequence) d delivery old o.counted
                        there)
                      o.counted;
              })
    ]

pub complete-IsOutbox :
    (delivery : String) (s : Store) → IsOutbox s → IsOutbox (complete_terminal_delivery delivery s)
unfolding complete_terminal_delivery save prune_standalone_delivery_acknowledgements
complete-IsOutbox delivery s o =
    elim (Option-cases (Dict.get s.pending_terminal_deliveries delivery)) [
      | inl absent ↦ rw (absent, complete_terminal_delivery) o
      | inr (old, there) ↦
          rw (there, complete_terminal_delivery)
            (let d = s.pending_terminal_deliveries in
              record {
                unique = pop-IsUnique d delivery o.unique;
                own = All-pop OwnId d delivery o.own;
                ascending = pop-Ascending d delivery 0 o.ascending;
                counted = All-pop (Below s.next_terminal_delivery_sequence) d delivery o.counted;
              })
    ]

-- The values after a filter, in rising order, are what a sort leaves as it is.
abbrev Rising : ℕ → List PendingTerminalDelivery → Type 0
Rising lo [] = Unit
Rising lo (p ∷ ps) = (lo < p.sequence) × Rising p.sequence ps

Rising-weaken :
    (ps : List PendingTerminalDelivery) (lo hi : ℕ) → lo ≤ hi → Rising hi ps → Rising lo ps
Rising-weaken [] lo hi l r = tt
Rising-weaken (p ∷ ps) lo hi l r = (omega (arith, r.0), r.1)

keep-Rising :
    (f : PendingTerminalDelivery → Bool) (d : Dict String PendingTerminalDelivery) (lo : ℕ)
    → Ascending lo d
    → Rising lo (keep f (values d))
keep-Rising f [] lo a = tt
keep-Rising f ((k, p) ∷ d) lo a = ground (
  arith,
  a.0,
  keep-Rising f d p.sequence a.1,
  Rising-weaken (keep f (values d)) lo p.sequence (omega (arith, a.0)),
)

sorted-Rising :
    (ps : List PendingTerminalDelivery) (lo : ℕ) → Rising lo ps → sorted delivery_le ps ≡ ps
unfolding sorted insert_sorted
sorted-Rising [] lo r = refl
sorted-Rising (p ∷ []) lo r = refl
sorted-Rising (p ∷ q ∷ ps) lo r = rw (sorted-Rising (q ∷ ps) p.sequence r.1) (ground (arith, r.1.0))

-- Pending messages are listed in the order in which they were staged.
pub list_pending-staged :
    (thread : Option String) (s : Store)
    → IsOutbox s
    → list_pending_terminal_deliveries thread s
      ≡ keep
          (λ (p : PendingTerminalDelivery). matches_thread thread p.thread_id)
          (values s.pending_terminal_deliveries)
unfolding list_pending_terminal_deliveries
list_pending-staged thread s o = sorted-Rising _ 0 (
    keep-Rising (λ (p : PendingTerminalDelivery). matches_thread thread p.thread_id)
      s.pending_terminal_deliveries 0 o.ascending)
