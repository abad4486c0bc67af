-- ===== src/Store/Load/Tests.antt =====
-- A restart with two staged messages.
use imcodex.Prelude.{sorted, ◌≡◌, refl, true, some, [], ◌∷◌, string_eq}
use imcodex.Text.{strip, lstrip, rstrip}
use imcodex.Dict
use imcodex.Models.{end}
use imcodex.Store.State.{Store, new_store, save, snapshot}
use imcodex.Store.Deliveries.{stage_new}
use imcodex.Store.Deliveries.Outbox.{IsOutbox}
use imcodex.Store.Deliveries.Listing.{stage_new-IsOutbox}
use imcodex.Store.Load.{load}
use imcodex.Store.Load.Outbox.{IsReadable, load-snapshot}

program : Unit {0}
unfolding sorted stage_new save snapshot Dict.get Dict.put strip lstrip rstrip
program = tt

abbrev empty : Store
empty = record (new_store true true 50) { thread_recipient_routes = ("t1", ("qq", "alice")) ∷ [] }

abbrev one : Store
one = (stage_new "d1" "t1" "u1" end 10 empty).1

abbrev two : Store
two = (stage_new "d2" "" "" end 20 one).1

two-IsOutbox : IsOutbox two
unfolding program
two-IsOutbox = stage_new-IsOutbox "d2" "" "" end 20 one refl (
    stage_new-IsOutbox "d1" "t1" "u1" end 10 empty refl
      (record { unique = tt; own = tt; ascending = tt; counted = tt }))

snapshot-IsReadable : IsReadable (snapshot two)
unfolding program
snapshot-IsReadable = record {
  routes = (refl, tt);
  watches = tt;
  pending = ((refl, refl), ((refl, refl), tt));
  acknowledged = tt;
}

load-snapshot_example :
    (s : Store) × (load (λ _. "digest") (snapshot two) (new_store true true 50) ≡ some s)
    × (s.pending_terminal_deliveries ≡ two.pending_terminal_deliveries)
    × IsOutbox s
load-snapshot_example =
    load-snapshot (λ _. "digest") two (new_store true true 50) two-IsOutbox snapshot-IsReadable
