-- ===== src/Bridge/Pump/Calls/Tests.antt =====
-- Turns of a native thread, from their first delta to their end.
use imcodex.Prelude.{
  ◌≡◌, refl, true, false, string_eq, pair_eq, none, some, List, [], ◌∷◌, All, is_empty,
}
use imcodex.Text.{strip, lstrip, rstrip, join, split_on}
use imcodex.Text.Paths.{name, stem}
use imcodex.Dict
use imcodex.Models.{Pair, OutboundArtifact}
use imcodex.Bridge.Pump.{
  Pump, buffer_of, claim_completed_item, record_delta, record_command, record_file_change,
  record_agent_message, final_message, native_item_metadata, with_artifact_errors,
}
use imcodex.Bridge.Pump.Endings.{
  finalize, finalize_turn, final_text_of, status_text, completed_message, status_metadata,
}
use imcodex.Bridge.Pump.Calls.{Call, run, delta, claim, command, artifacts}
use imcodex.Bridge.Pump.Calls.Once.{answered, claim-once, final-once, finalize-says}
use imcodex.Bridge.Pump.Calls.Bounded.{IsSmall, run-IsSmall}

stems :
    (stem "/tmp/out/plot.tar.gz" ≡ "plot.tar") × (stem "a/.bashrc" ≡ ".bashrc") × (stem "x." ≡ "x.")
unfolding stem name split_on join
stems = (refl, refl, refl)

abbrev turn : Pair
turn = ("t1", "u1")

-- What goes on in the turn and in another one.
abbrev going_on : List Call
going_on =
    delta turn "Hel" true
    ∷ claim ("t1", "u2") "i1"
    ∷ command turn "ls" true "i2"
    ∷ delta turn "lo" false
    ∷ []

claim-once_example :
    (claim_completed_item turn "i1" (run going_on (claim_completed_item turn "i1" []).1)).0 ≡ false
claim-once_example = claim-once turn "i1" going_on [] refl refl

hello_said : is_empty (strip "Hello") ≡ false
unfolding strip lstrip rstrip
hello_said = refl

final-once_example :
    ((answered turn "Hello" true "i3" []).0
      ≡ some (
          final_message "Hello"
            (native_item_metadata "i3" (some "final_answer"))
            (buffer_of turn [])))
    × ((record_delta turn "more" true (run going_on (answered turn "Hello" true "i3" []).1)).0
        ≡ none)
    × ((record_command turn "more" true "i4"
          (run going_on (answered turn "Hello" true "i3" []).1)).0
        ≡ none)
    × ((record_file_change turn
          ("a.py" ∷ [])
          true
          "i4"
          (run going_on (answered turn "Hello" true "i3" []).1)).0
        ≡ none)
    × ((record_agent_message turn none "more" true "i4"
          (run going_on (answered turn "Hello" true "i3" []).1)).0
        ≡ none)
    × ((finalize_turn turn "completed" (run going_on (answered turn "Hello" true "i3" []).1)).0
        ≡ none)
final-once_example =
    final-once turn "Hello" "i3" true going_on [] "more" "i4" ("a.py" ∷ []) true hello_said refl

abbrev heard : Pump
heard = (record_delta turn "Hello" true []).1

finalize-says_example : is_empty (strip "Hello") ≡ false
unfolding record_delta finalize_turn finalize final_text_of status_text Dict.get Dict.put strip
    lstrip rstrip join with_artifact_errors
finalize-says_example =
    finalize-says turn heard (completed_message "Hello" (status_metadata "completed") []) refl

abbrev plot : OutboundArtifact
plot = record {
  kind = "image";
  local_path = "/tmp/plot.png";
  content_type = "image/png";
  filename = "plot.png";
  size_bytes = 10;
  sha256 = "";
}

run-IsSmall_example : All IsSmall (run (artifacts turn (plot ∷ plot ∷ []) none ∷ going_on) [])
run-IsSmall_example = run-IsSmall (artifacts turn (plot ∷ plot ∷ []) none ∷ going_on) [] tt
