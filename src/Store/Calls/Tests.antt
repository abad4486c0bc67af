-- ===== src/Store/Calls/Tests.antt =====
-- A sequence of calls from a new store.
use imcodex.Prelude.{true, List, [], ◌∷◌, arith}
use imcodex.Dict
use imcodex.Models.{end}
use imcodex.Store.State.{new_store}
use imcodex.Store.Bindings.Exclusive.{IsExclusive}
use imcodex.Store.Calls.{
  Call, run, get_binding, bind_thread, clear_thread_binding, stage_terminal_delivery,
  complete_terminal_delivery, note_active_turn,
}
use imcodex.Store.Calls.Exclusive.{run-IsExclusive}
use imcodex.Store.Calls.Reachable.{IsWellFormed, run-IsWellFormed}

-- Two conversations compete for a thread, and a turn of it is delivered.
abbrev takeover : List Call
takeover =
    get_binding ("qq", "alice")
    ∷ bind_thread ("qq", "alice") "t1"
    ∷ note_active_turn "t1" "u1" "inProgress" 10
    ∷ bind_thread ("telegram", "bob") "t1"
    ∷ stage_terminal_delivery "d1" "t1" "u1" end 20
    ∷ complete_terminal_delivery "d1"
    ∷ clear_thread_binding ("qq", "alice")
    ∷ []

new_store-IsExclusive : IsExclusive (new_store true true 50)
unfolding Dict.get
new_store-IsExclusive = record { at = λ j k b c t h. absurd (ground arith) }

run-IsExclusive_example : IsExclusive (run takeover (new_store true true 50))
run-IsExclusive_example = run-IsExclusive takeover (new_store true true 50) new_store-IsExclusive

run-IsWellFormed_example : IsWellFormed (run takeover (new_store true true 50))
run-IsWellFormed_example = run-IsWellFormed takeover true true 50
