-- ===== src/Store/Calls/Reachable.antt =====
-- What holds of every store that the methods can produce from a new one.
use imcodex.Prelude.{ℕ, Bool, List, [], ◌∷◌, arith}
use imcodex.Dict
use imcodex.Store.State.{Store, new_store}
use imcodex.Store.Bindings.Exclusive.{IsExclusive}
use imcodex.Store.Deliveries.Outbox.{IsOutbox}
use imcodex.Store.Requests.Removal.{IsKeyed}
use imcodex.Store.Journal.Order.{IsJournal}
use imcodex.Store.Calls.{Call, step, run}
use imcodex.Store.Calls.Exclusive.{step-IsExclusive}
use imcodex.Store.Calls.Journalled.{step-IsJournal}
use imcodex.Store.Calls.Staged.{step-IsOutbox}
use imcodex.Store.Calls.Keyed.{step-IsKeyed}

-- Each thread is bound once at most, the journal is bounded and numbered without a gap, the outbox
-- is in the order of its numbers, and each request stands under its own id.
pub record IsWellFormed (s : Store) : Type 0 where
  pub exclusive : IsExclusive s
  pub journal : IsJournal s
  pub outbox : IsOutbox s
  pub requests : IsKeyed s

new_store-IsWellFormed : (path loop : Bool) (asked : ℕ) → IsWellFormed (new_store path loop asked)
unfolding Dict.get
new_store-IsWellFormed path loop asked = record {
  exclusive = record { at = λ j k b c t h. absurd (ground arith) };
  journal = record {
    positive = omega arith;
    bounded = omega arith;
    counted = omega arith;
    ends = tt;
  };
  outbox = record { unique = tt; own = tt; ascending = tt; counted = tt };
  requests = record { unique = tt; own = tt };
}

step-IsWellFormed : (call : Call) (s : Store) → IsWellFormed s → IsWellFormed (step call s)
step-IsWellFormed call s w = record {
  exclusive = step-IsExclusive call s w.exclusive;
  journal = step-IsJournal call s w.journal;
  outbox = step-IsOutbox call s w.outbox;
  requests = step-IsKeyed call s w.requests;
}

run_from : (calls : List Call) (s : Store) → IsWellFormed s → IsWellFormed (run calls s)
unfolding run
run_from [] s w = w
run_from (call ∷ calls) s w = run_from calls (step call s) (step-IsWellFormed call s w)

-- Whatever methods are called on a new store in whatever order, with whatever arguments: no two
-- conversations are bound to one native thread; the journal stays within its limit and its numbers
-- are consecutive; the staged messages stand under their own keys in the order of their numbers; and
-- every pending request stands under its own id.
pub run-IsWellFormed :
    (calls : List Call) (path loop : Bool) (asked : ℕ)
    → IsWellFormed (run calls (new_store path loop asked))
run-IsWellFormed calls path loop asked =
    run_from calls (new_store path loop asked) (new_store-IsWellFormed path loop asked)
