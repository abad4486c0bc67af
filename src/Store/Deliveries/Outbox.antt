-- ===== src/Store/Deliveries/Outbox.antt =====
-- The outbox: a staged message owns its key until it is acknowledged, and the pending messages are
-- listed in the order in which they were staged.
use imcodex.Prelude.{
  ℕ, ◌≤◌, ◌<◌, String, ◌≡◌, sym, ◌∙◌, subst, true, false, Option, none, some, [], ◌∷◌, arith,
  string_eq, is_empty, All, Option-cases, Bool-cases, inl, inr, of_some,
}
use imcodex.Dict
use imcodex.Dict.{Dict, values}
use imcodex.Dict.Laws.{get-put_self}
use imcodex.Dict.Unique.{IsUnique}
use imcodex.Models.{Fields, PendingTerminalDelivery}
use imcodex.Store.State.{Store, save}
use imcodex.Store.Deliveries.{stage_new, stage_terminal_delivery}

module _ (delivery thread turn : String) (message : Fields) (now : ℕ) (s : Store) where
  pub stage-absent :
      is_empty delivery ≡ false
      → Dict.get s.pending_terminal_deliveries delivery ≡ none
      → stage_terminal_delivery delivery thread turn message now s
        ≡ some (stage_new delivery thread turn message now s)
  unfolding stage_terminal_delivery
  stage-absent e h = rw (e, h, stage_terminal_delivery)

  pub stage-there :
      (p : PendingTerminalDelivery)
      → is_empty delivery ≡ false
      → Dict.get s.pending_terminal_deliveries delivery ≡ some p
      → stage_terminal_delivery delivery thread turn message now s ≡ some (p, s)
  unfolding stage_terminal_delivery
  stage-there p e h = rw (e, h, stage_terminal_delivery)

  pub stage-empty :
      is_empty delivery ≡ true → stage_terminal_delivery delivery thread turn message now s ≡ none
  unfolding stage_terminal_delivery
  stage-empty e = rw e

  get-stage_new :
      Dict.get (stage_new delivery thread turn message now s).1.pending_terminal_deliveries delivery
      ≡ some (stage_new delivery thread turn message now s).0
  unfolding stage_new save
  get-stage_new = get-put_self s.pending_terminal_deliveries delivery _

-- What is returned is what is staged.
stage-pending :
    (delivery thread turn : String) (message : Fields) (now : ℕ) (s : Store)
    (p : PendingTerminalDelivery) (s' : Store)
    → is_empty delivery ≡ false
    → stage_terminal_delivery delivery thread turn message now s ≡ some (p, s')
    → Dict.get s'.pending_terminal_deliveries delivery ≡ some p
stage-pending delivery thread turn message now s p s' e h =
    elim (Option-cases (Dict.get s.pending_terminal_deliveries delivery)) [
      | inl absent ↦
          staged (sym (stage-absent delivery thread turn message now s e absent) ∙ h)
            (get-stage_new delivery thread turn message now s)
      | inr (old, there) ↦
          staged (sym (stage-there delivery thread turn message now s old e there) ∙ h) there
    ]
  where
    Staged : PendingTerminalDelivery × Store → Type 0
    Staged r = Dict.get r.1.pending_terminal_deliveries delivery ≡ some r.0

    staged :
        {r : PendingTerminalDelivery × Store}
        → ◌≡◌ {A = Option (PendingTerminalDelivery × Store)} (some r) (some (p, s'))
        → Staged r
        → Staged (p, s')
    staged q x = subst Staged (of_some q) x

-- Staging the key again, with whatever message, returns what is staged and changes nothing.
pub stage-stage :
    (delivery thread turn thread' turn' : String) (message message' : Fields) (now now' : ℕ)
    (s : Store) (p : PendingTerminalDelivery) (s' : Store)
    → stage_terminal_delivery delivery thread turn message now s ≡ some (p, s')
    → stage_terminal_delivery delivery thread' turn' message' now' s' ≡ some (p, s')
stage-stage delivery thread turn thread' turn' message message' now now' s p s' h =
    elim (Bool-cases (is_empty delivery)) [
      | inl e ↦ cc (h, stage-empty delivery thread turn message now s e)
      | inr e ↦
          stage-there delivery thread' turn' message' now' s' p e
            (stage-pending delivery thread turn message now s p s' e h)
    ]

-- Sequence numbers rise along the outbox, from above `lo`.
abbrev pub Ascending : ℕ → Dict String PendingTerminalDelivery → Type 0
Ascending lo [] = Unit
Ascending lo ((_, p) ∷ d) = (lo < p.sequence) × Ascending p.sequence d

-- Every staged message stands under its own id, once, in the order of the sequence numbers.
pub record IsOutbox (s : Store) : Type 0 where
  pub unique : IsUnique s.pending_terminal_deliveries
  pub own : All (λ e. e.0 ≡ e.1.delivery_id) s.pending_terminal_deliveries
  pub ascending : Ascending 0 s.pending_terminal_deliveries
  pub counted :
      All (λ e. e.1.sequence ≤ s.next_terminal_delivery_sequence) s.pending_terminal_deliveries

pub put-Ascending :
    (d : Dict String PendingTerminalDelivery) (k : String) (p : PendingTerminalDelivery) (lo : ℕ)
    → Dict.get d k ≡ none
    → lo < p.sequence
    → All (λ e. e.1.sequence < p.sequence) d
    → Ascending lo d
    → Ascending lo (Dict.put d k p)
unfolding Dict.put Dict.get
put-Ascending [] k p lo h l a b = (l, tt)
put-Ascending ((j, q) ∷ d) k p lo h l a b = ground (arith, put-Ascending d k p q.sequence)

-- A change of a staged message that leaves its number.
pub replace-Ascending :
    (d : Dict String PendingTerminalDelivery) (k : String) (p old : PendingTerminalDelivery)
    (lo : ℕ)
    → Dict.get d k ≡ some old
    → p.sequence ≡ old.sequence
    → Ascending lo d
    → Ascending lo (Dict.put d k p)
unfolding Dict.put Dict.get
replace-Ascending [] k p old lo h e b = absurd (ground arith)
replace-Ascending ((j, q) ∷ d) k p old lo h e b =
    ground (arith, replace-Ascending d k p old q.sequence)

pub Ascending-weaken :
    (d : Dict String PendingTerminalDelivery) (lo hi : ℕ)
    → lo ≤ hi
    → Ascending hi d
    → Ascending lo d
Ascending-weaken [] lo hi l b = tt
Ascending-weaken ((j, q) ∷ d) lo hi l b = (omega (arith, b.0), b.1)

pub pop-Ascending :
    (d : Dict String PendingTerminalDelivery) (k : String) (lo : ℕ)
    → Ascending lo d
    → Ascending lo (Dict.pop d k)
unfolding Dict.pop
pop-Ascending [] k lo b = tt
pop-Ascending ((j, q) ∷ d) k lo b = ground (
  arith,
  b.0,
  pop-Ascending d k q.sequence b.1,
  Ascending-weaken (Dict.pop d k) lo q.sequence (omega (arith, b.0)),
)
