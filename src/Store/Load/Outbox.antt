-- ===== src/Store/Load/Outbox.antt =====
-- What a restart keeps of the outbox: every staged message, in its order and under its number.

use imcodex.Prelude.{
  ℕ, ◌+◌, ◌≤◌, ◌<◌, ◌≡◌, refl, ap, ◌∙◌, subst, String, false, ◌&&◌, ◌||◌, not, some, List, [], ◌∷◌,
  ◌++◌, arith, max, All, Bool-cases, inl, inr, is_empty, nat_eq, string_eq, pair_eq, eq_iff, ◌==◌,
  append_assoc, append-nil,
}
use imcodex.Text.{strip}
use imcodex.Dict
use imcodex.Dict.{Dict, values}
use imcodex.Dict.Unique.{IsUnique}
use imcodex.Dict.Trim.{put_absent}
use imcodex.Models.{
  Pair, Fields, ConversationBinding, TerminalDeliveryWatch, PendingTerminalDelivery,
}
use imcodex.Store.State.{Store, Snapshot, Acknowledgement, snapshot}
use imcodex.Store.Deliveries.{prune_standalone_delivery_acknowledgements}
use imcodex.Store.Deliveries.Outbox.{Ascending, IsOutbox}
use imcodex.Store.Load.{
  half_empty, load, load_bindings, load_routes, load_watches, delivery_id_of, load_entry,
  load_pending, load_acknowledged, assemble, note_outcome,
}

-- A message that `_load` accepts: it has an id, and both of a thread and a turn or none of them.
abbrev pub IsWhole : String × PendingTerminalDelivery → Type 0
IsWhole e = (is_empty e.1.delivery_id ≡ false) × (half_empty e.1.thread_id e.1.turn_id ≡ false)

abbrev Fresh : Dict String PendingTerminalDelivery → String × PendingTerminalDelivery → Type 0
Fresh d e = Dict.has d e.0 ≡ false

abbrev OwnId : String × PendingTerminalDelivery → Type 0
OwnId e = e.0 ≡ e.1.delivery_id

-- The highest number after the entries.
abbrev pub highest_of : ℕ → Dict String PendingTerminalDelivery → ℕ
highest_of n [] = n
highest_of n ((_, p) ∷ d) = highest_of (max n p.sequence) d

module _ (digest : Fields → String) where
  load_entry-whole :
      (legacy : ℕ) (p : PendingTerminalDelivery)
      → is_empty p.delivery_id ≡ false
      → 0 < p.sequence
      → load_entry digest legacy p ≡ p
  unfolding load_entry delivery_id_of
  load_entry-whole legacy p e l = let n : nat_eq p.sequence 0 ≡ false = ground arith in rw (e, n)

  has-snoc :
      (d : Dict String PendingTerminalDelivery) (k : String) (p : PendingTerminalDelivery)
      (j : String)
      → Dict.has d j ≡ false
      → (k == j) ≡ false
      → Dict.has (d ++ (k, p) ∷ []) j ≡ false
  unfolding Dict.has
  has-snoc [] k p j h n = ground arith
  has-snoc ((i, q) ∷ d) k p j h n = ground (arith, has-snoc d k p j)

  Fresh-snoc :
      (d rest : Dict String PendingTerminalDelivery) (k : String) (p : PendingTerminalDelivery)
      → All (Fresh d) rest
      → Dict.has rest k ≡ false
      → All (Fresh (d ++ (k, p) ∷ [])) rest
  unfolding Dict.has
  Fresh-snoc d [] k p a h = tt
  Fresh-snoc d ((j, q) ∷ rest) k p a h =
      let n : (j == k) ≡ false = ground arith in
      (
        has-snoc d k p j a.0 (ground (arith, eq_iff j k, eq_iff k j)),
        Fresh-snoc d rest k p a.1 (ground arith),
      )

  load_pending-cons :
      (legacy highest : ℕ) (d : Dict String PendingTerminalDelivery) (p : PendingTerminalDelivery)
      (ps : List PendingTerminalDelivery)
      → half_empty p.thread_id p.turn_id ≡ false
      → load_entry digest legacy p ≡ p
      → load_pending digest legacy d highest (p ∷ ps)
        ≡ load_pending digest (legacy + 1) (Dict.put d p.delivery_id p) (max highest p.sequence) ps
  unfolding load_pending
  load_pending-cons legacy highest d p ps w e = rw w (
      ap
        (λ (q : PendingTerminalDelivery).
          load_pending digest (legacy + 1) (Dict.put d q.delivery_id q) (max highest q.sequence) ps)
        e)

  -- The saved entries are read back in their order, after those that are there.
  load_pending-append :
      (rest d : Dict String PendingTerminalDelivery) (legacy highest lo : ℕ)
      → All (Fresh d) rest
      → IsUnique rest
      → All OwnId rest
      → Ascending lo rest
      → All IsWhole rest
      → load_pending digest legacy d highest (values rest)
        ≡ some (d ++ rest, highest_of highest rest)
  unfolding load_pending
  load_pending-append [] d legacy highest lo f u o a w = rw (append-nil d)
  load_pending-append ((k, p) ∷ rest) d legacy highest lo f u o a w =
      load_pending-cons legacy highest d p (values rest) w.0.1
        (load_entry-whole legacy p w.0.0 (omega (arith, a.0)))
      ∙ ap
          (λ (e : Dict String PendingTerminalDelivery).
            load_pending digest (legacy + 1) e (max highest p.sequence) (values rest))
          placed
      ∙ load_pending-append rest (d ++ (k, p) ∷ []) (legacy + 1) (max highest p.sequence) p.sequence
          (Fresh-snoc d rest k p f.1 u.0) u.1 o.1 a.1 w.1
      ∙ ap
          (λ (e : Dict String PendingTerminalDelivery).
            some (e, highest_of (max highest p.sequence) rest))
          (append_assoc d ((k, p) ∷ []) rest)
    where
      placed : Dict.put d p.delivery_id p ≡ d ++ (k, p) ∷ []
      placed = subst (λ (x : String). Dict.put d x p ≡ d ++ (k, p) ∷ []) o.0 (put_absent d k p f.0)

-- Every number is at most the highest one.
highest_of-le : (n : ℕ) (d : Dict String PendingTerminalDelivery) → n ≤ highest_of n d
highest_of-le n [] = omega arith
highest_of-le n ((k, p) ∷ d) = omega (arith, highest_of-le (max n p.sequence) d)

highest_of-All :
    (n : ℕ) (d : Dict String PendingTerminalDelivery)
    → All (λ (e : String × PendingTerminalDelivery). e.1.sequence ≤ highest_of n d) d
highest_of-All n [] = tt
highest_of-All n ((k, p) ∷ d) =
    (omega (arith, highest_of-le (max n p.sequence) d), highest_of-All (max n p.sequence) d)

-- What `_load` checks of the values in a snapshot.
pub record IsReadable (x : Snapshot) : Type 0 where
  pub routes :
      All
        (λ (e : String × Pair).
          (is_empty (strip e.0) || (is_empty (strip e.1.0) || is_empty (strip e.1.1))) ≡ false)
        x.thread_recipient_routes
  pub watches :
      All
        (λ (w : TerminalDeliveryWatch). (is_empty w.thread_id || is_empty w.turn_id) ≡ false)
        x.terminal_delivery_watches
  pub pending :
      All
        (λ (p : PendingTerminalDelivery).
          (is_empty p.delivery_id ≡ false) × (half_empty p.thread_id p.turn_id ≡ false))
        x.pending_terminal_deliveries
  pub acknowledged :
      All
        (λ (a : Acknowledgement).
          (is_empty a.delivery_id || half_empty a.thread_id a.turn_id) ≡ false)
        x.acknowledged_terminal_deliveries

load_routes-some :
    (rs : List (String × Pair)) (d : Dict String Pair)
    → All
        (λ (e : String × Pair).
          (is_empty (strip e.0) || (is_empty (strip e.1.0) || is_empty (strip e.1.1))) ≡ false)
        rs
    → (r : Dict String Pair) × (load_routes d rs ≡ some r)
unfolding load_routes
load_routes-some [] d a = (d, refl)
load_routes-some ((t, (c, v)) ∷ rs) d a =
    let (r, e) = load_routes-some rs (Dict.put d (strip t) (strip c, strip v)) a.1 in (r, rw a.0 e)

load_watches-some :
    (ws : List TerminalDeliveryWatch) (d : Dict Pair TerminalDeliveryWatch)
    → All (λ (w : TerminalDeliveryWatch). (is_empty w.thread_id || is_empty w.turn_id) ≡ false) ws
    → (r : Dict Pair TerminalDeliveryWatch) × (load_watches d ws ≡ some r)
unfolding load_watches
load_watches-some [] d a = (d, refl)
load_watches-some (w ∷ ws) d a =
    let (r, e) = load_watches-some ws (Dict.put d (w.thread_id, w.turn_id) w) a.1 in (r, rw a.0 e)

IsWhole-values :
    (d : Dict String PendingTerminalDelivery)
    → All
        (λ (p : PendingTerminalDelivery).
          (is_empty p.delivery_id ≡ false) × (half_empty p.thread_id p.turn_id ≡ false))
        (values d)
    → All IsWhole d
IsWhole-values [] a = tt
IsWhole-values ((k, p) ∷ d) a = (a.0, IsWhole-values d a.1)

Fresh-nil : (d : Dict String PendingTerminalDelivery) → All (Fresh []) d
unfolding Dict.has
Fresh-nil [] = tt
Fresh-nil (e ∷ d) = (refl, Fresh-nil d)

load_acknowledged-some :
    (watches : Dict Pair TerminalDeliveryWatch) (as_saved : List Acknowledgement)
    (loaded : Dict String Pair × Dict String Fields)
    → All
        (λ (a : Acknowledgement).
          (is_empty a.delivery_id || half_empty a.thread_id a.turn_id) ≡ false)
        as_saved
    → (r : Dict String Pair × Dict String Fields) × (load_acknowledged watches loaded as_saved
        ≡ some r)
unfolding load_acknowledged
load_acknowledged-some watches [] loaded h = (loaded, refl)
load_acknowledged-some watches (a ∷ more) (d, outcomes) h =
    elim (Bool-cases
      (not (is_empty a.thread_id) && not (Dict.has watches (a.thread_id, a.turn_id)))) [
        | inl skip ↦
            let (r, e) = load_acknowledged-some watches more (d, outcomes) h.1 in
            (r, rw (h.0, skip) e)
        | inr keeps ↦
            let (r, e) =
              load_acknowledged-some watches more
                (Dict.put d a.delivery_id (a.thread_id, a.turn_id), note_outcome a outcomes) h.1 in
            (r, rw (h.0, keeps) e)
      ]

-- A store assembled from parts that were read has the outbox that was read.
assemble-outbox :
    (s : Store) (bindings : Dict Pair ConversationBinding) (routes : Dict String Pair)
    (watches : Dict Pair TerminalDeliveryWatch) (pending : Dict String PendingTerminalDelivery)
    (highest : ℕ) (acks : List Acknowledgement) (r : Dict String Pair × Dict String Fields)
    → load_acknowledged watches ([], []) acks ≡ some r
    → (s' : Store) × (assemble s bindings
          (some routes)
          (some watches)
          (some (pending, highest))
          acks
        ≡ some s')
      × (s'.pending_terminal_deliveries ≡ pending)
      × (s'.next_terminal_delivery_sequence ≡ highest)
unfolding assemble prune_standalone_delivery_acknowledgements
assemble-outbox s bindings routes watches pending highest acks r e =
    rw (e, assemble) (_, refl, refl, refl)

-- A restart from a saved state that can be read succeeds and keeps the outbox: every staged message,
-- in its order and under its number, and numbers that are given later are still above all of them.
pub load-snapshot :
    (digest : Fields → String) (s fresh : Store)
    → IsOutbox s
    → IsReadable (snapshot s)
    → (s' : Store) × (load digest (snapshot s) fresh ≡ some s')
      × (s'.pending_terminal_deliveries ≡ s.pending_terminal_deliveries)
      × IsOutbox s'
unfolding load snapshot
load-snapshot digest s fresh o i =
    let (routes, er) = load_routes-some (snapshot s).thread_recipient_routes [] i.routes in
    let (watches, ew) = load_watches-some (snapshot s).terminal_delivery_watches [] i.watches in
    let (acks, ea) =
      load_acknowledged-some watches (snapshot s).acknowledged_terminal_deliveries ([], [])
        i.acknowledged in
    let d = s.pending_terminal_deliveries in
    let (s', es, ep, en) =
      assemble-outbox fresh (load_bindings [] (snapshot s).bindings) routes watches d
        (highest_of 0 d) (snapshot s).acknowledged_terminal_deliveries acks ea in
    let ed =
      load_pending-append digest d [] 1 0 0 (Fresh-nil d) o.unique o.own o.ascending
        (IsWhole-values d i.pending) in
    (
      s',
      rw (er, ew, ed) es,
      ep,
      record {
        unique = rw ep o.unique;
        own = rw ep o.own;
        ascending = rw ep o.ascending;
        counted = rw (ep, en) (highest_of-All 0 d);
      },
    )
