-- ===== src/Bridge/Pump/Calls/Bounded.antt =====
-- How many artifacts the buffers hold at most.
use imcodex.Prelude.{
  String, ◌≡◌, ◌≤◌, refl, Bool, Option, none, some, List, [], ◌∷◌, arith, string_eq, pair_eq,
  is_empty, contains, Bool-cases, Option-cases, inl, inr, All, length, length-take,
}
use imcodex.Dict
use imcodex.Dict.{values}
use imcodex.Dict.Laws.{All-put, All-pop, All-get}
use imcodex.Models.{Pair, Fields, OutboundArtifact}
use imcodex.Bridge.Pump
use imcodex.Bridge.Pump.{
  Pump, TurnBuffer, or_new, buffer_of, agent_message, native_item_metadata, max_outbound_artifacts,
}
use imcodex.Bridge.Pump.Artifacts
use imcodex.Bridge.Pump.Endings
use imcodex.Bridge.Pump.Calls.{Call, step, run}

-- The buffer of a turn holds the artifacts that one message may carry.
abbrev pub IsSmall : Pair × TurnBuffer → Type 0
IsSmall e = length e.1.artifacts ≤ max_outbound_artifacts

buffer_of-IsSmall :
    (k : Pair) (p : Pump)
    → All IsSmall p
    → length (buffer_of k p).artifacts ≤ max_outbound_artifacts
buffer_of-IsSmall k p a = elim (Option-cases (Dict.get p k)) [
  | inl absent ↦ rw absent (omega arith)
  | inr (b, there) ↦ rw there (All-get IsSmall p k b a there)
]

-- A changed buffer with the artifacts of the old one.
put-IsSmall :
    (k : Pair) (b : TurnBuffer) (p : Pump)
    → b.artifacts ≡ (buffer_of k p).artifacts
    → All IsSmall p
    → All IsSmall (Dict.put p k b)
put-IsSmall k b p e a = All-put IsSmall p k b (rw e (buffer_of-IsSmall k p a)) a

artifacts-agent_message :
    (phase : Option String) (text : String) (emit : Bool) (metadata : Fields) (b : TurnBuffer)
    → (agent_message phase text emit metadata b).1.artifacts ≡ b.artifacts
unfolding agent_message
artifacts-agent_message none text emit metadata b = ground arith
artifacts-agent_message (some phase) text emit metadata b = ground arith

resume-IsSmall : (k : Pair) (p : Pump) → All IsSmall p → All IsSmall (Pump.resume_turn_output k p).1
unfolding Pump.resume_turn_output
resume-IsSmall k p a = elim (Option-cases (Dict.get p k)) [
  | inl absent ↦ rw (absent, Pump.resume_turn_output) a
  | inr (b, there) ↦ elim (Bool-cases b.final_visible) [
    | inl v ↦
        rw (there, Pump.resume_turn_output, v)
          (All-put IsSmall p k (Pump.reopened b) (omega arith) a)
    | inr v ↦ rw (there, Pump.resume_turn_output, v) a
  ]
]

claim-IsSmall :
    (k : Pair) (i : String) (p : Pump)
    → All IsSmall p
    → All IsSmall (Pump.claim_completed_item k i p).1
unfolding Pump.claim_completed_item
claim-IsSmall k i p a = elim (Bool-cases (is_empty i)) [
  | inl e ↦ rw e a
  | inr e ↦ elim (Bool-cases (contains (buffer_of k p).completed_item_ids i)) [
    | inl old ↦ rw (e, old) (put-IsSmall k (buffer_of k p) p refl a)
    | inr new ↦ rw (e, new) (put-IsSmall k _ p refl a)
  ]
]

length-with_artifacts :
    (all : List OutboundArtifact) (error : Option String) (b : TurnBuffer)
    → length (Artifacts.with_artifacts all error b).artifacts ≤ max_outbound_artifacts
unfolding Artifacts.with_artifacts
length-with_artifacts all error b = omega (arith, length-take max_outbound_artifacts all)

step-IsSmall : (call : Call) (p : Pump) → All IsSmall p → All IsSmall (step call p)
unfolding step Pump.record_delta Pump.record_agent_message Pump.record_command
    Pump.record_file_change Artifacts.record_artifacts Artifacts.with_artifacts
    Endings.finalize_turn Artifacts.discard_turn Endings.recover_turn
step-IsSmall (Call.resume k) p a = resume-IsSmall k p a
step-IsSmall (Call.delta k d e) p a = put-IsSmall k _ p (ground arith) a
step-IsSmall (Call.claim k i) p a = claim-IsSmall k i p a
step-IsSmall (Call.agent k phase text e i) p a =
    put-IsSmall k _ p
      (artifacts-agent_message phase text e (native_item_metadata i phase) (buffer_of k p)) a
step-IsSmall (Call.command k c e i) p a = put-IsSmall k _ p refl a
step-IsSmall (Call.file_change k fs e i) p a = put-IsSmall k _ p refl a
step-IsSmall (Call.artifacts k given e) p a =
    let b = buffer_of k p in
    let merged = values (Artifacts.merge (Artifacts.merge [] b.artifacts) given) in
    All-put IsSmall p k (Artifacts.with_artifacts merged e b) (length-with_artifacts merged e b) a
step-IsSmall (Call.finalize k s) p a = All-pop IsSmall p k a
step-IsSmall (Call.discard k) p a = All-pop IsSmall p k a
step-IsSmall (Call.recover k s is given es) p a = All-pop IsSmall p k a

-- Whatever is recorded in whatever order, no turn holds more than four artifacts.
pub run-IsSmall : (calls : List Call) (p : Pump) → All IsSmall p → All IsSmall (run calls p)
unfolding run
run-IsSmall [] p a = a
run-IsSmall (call ∷ calls) p a = run-IsSmall calls (step call p) (step-IsSmall call p a)
