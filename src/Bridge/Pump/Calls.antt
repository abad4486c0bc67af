-- ===== src/Bridge/Pump/Calls.antt =====
-- The methods of `MessagePump` that change its state, as one type of calls, and the buffers after a
-- sequence of calls.
pub mod Kept
pub mod Once
pub mod Bounded
mod Tests
use imcodex.Prelude.{
  String, Bool, true, false, Option, List, [], ◌∷◌, ◌==◌, string_eq, pair_eq, ◌||◌,
}
use imcodex.Models.{Pair, Fields, OutboundArtifact}
use imcodex.Bridge.Pump
use imcodex.Bridge.Pump.{Pump}
use imcodex.Bridge.Pump.Artifacts
use imcodex.Bridge.Pump.Endings

pub data Call : Type 0 where
  resume : Pair → Call
  delta : Pair → String → Bool → Call
  claim : Pair → String → Call
  agent : Pair → Option String → String → Bool → String → Call
  command : Pair → String → Bool → String → Call
  file_change : Pair → List String → Bool → String → Call
  artifacts : Pair → List OutboundArtifact → Option String → Call
  finalize : Pair → String → Call
  discard : Pair → Call
  recover : Pair → String → List Fields → List OutboundArtifact → List String → Call

unfoldable pub step : Call → Pump → Pump
step (resume k) p = (Pump.resume_turn_output k p).1
step (delta k d e) p = (Pump.record_delta k d e p).1
step (claim k i) p = (Pump.claim_completed_item k i p).1
step (agent k ph t e i) p = (Pump.record_agent_message k ph t e i p).1
step (command k c e i) p = (Pump.record_command k c e i p).1
step (file_change k fs e i) p = (Pump.record_file_change k fs e i p).1
step (artifacts k as_given e) p = Artifacts.record_artifacts k as_given e p
step (finalize k s) p = (Endings.finalize_turn k s p).1
step (discard k) p = (Artifacts.discard_turn k p).1
step (recover k s is_given as_given es) p = (Endings.recover_turn k s is_given as_given es p).1

unfoldable pub run : List Call → Pump → Pump
run [] p = p
run (call ∷ calls) p = run calls (step call p)

-- The call ends the turn: its buffer is dropped.
abbrev pub ends : Pair → Call → Bool
ends key (finalize k _) = k == key
ends key (discard k) = k == key
ends key (recover k _ _ _ _) = k == key
ends key _ = false

-- The call opens the turn's progress again after a final answer.
abbrev pub reopens : Pair → Call → Bool
reopens key (resume k) = k == key
reopens key call = ends key call
