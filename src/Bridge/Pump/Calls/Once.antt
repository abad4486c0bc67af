-- ===== src/Bridge/Pump/Calls/Once.antt =====
-- What a turn says once: an item that is claimed, a final answer, and its end.
use imcodex.Prelude.{
  String, ◌≡◌, refl, ap, subst, Bool, true, false, not, Option, none, some, List, [], ◌∷◌, arith,
  string_eq, pair_eq, is_empty, contains, contains-snoc, if◌then◌else◌, Bool-cases, inl, inr, all,
  of_some,
}
use imcodex.Text.{strip, lstrip, rstrip, join}
use imcodex.Text.Said.{join_parts-says}
use imcodex.Dict
use imcodex.Dict.Laws.{get-put_self}
use imcodex.Models.{Pair, OutboundMessage}
use imcodex.Bridge.Pump.{
  Pump, TurnBuffer, or_new, buffer_of, final_message, agent_message, native_item_metadata,
  claim_completed_item, record_agent_message, record_delta, record_command, record_file_change,
  with_artifact_errors, empty_completed_turn_text,
}
use imcodex.Bridge.Pump.Endings.{
  finalize, finalize_turn, final_text_of, completed_message, status_metadata, or_commands, or_text,
  status_text, changed_files_text,
}
use imcodex.Bridge.Pump.Calls.{Call, run, ends, reopens}
use imcodex.Bridge.Pump.Calls.Kept.{run-claimed, run-visible}

claim-contains :
    (key : Pair) (item : String) (p : Pump)
    → is_empty item ≡ false
    → contains (buffer_of key (claim_completed_item key item p).1).completed_item_ids item ≡ true
unfolding claim_completed_item
claim-contains key item p e =
    elim (Bool-cases (contains (buffer_of key p).completed_item_ids item)) [
      | inl old ↦ rw (e, old, get-put_self p key (buffer_of key p)) old
      | inr new ↦
          rw (e, new, get-put_self p key _)
            (contains-snoc (buffer_of key p).completed_item_ids item)
    ]

claim-known :
    (key : Pair) (item : String) (p : Pump)
    → is_empty item ≡ false
    → contains (buffer_of key p).completed_item_ids item ≡ true
    → (claim_completed_item key item p).0 ≡ false
unfolding claim_completed_item
claim-known key item p e h = rw (e, h)

-- A completed item with an id that has been claimed is never claimed again, whatever is recorded or
-- resumed in between, until its turn ends.
pub claim-once :
    (key : Pair) (item : String) (calls : List Call) (p : Pump)
    → is_empty item ≡ false
    → all (λ c. not (ends key c)) calls ≡ true
    → (claim_completed_item key item (run calls (claim_completed_item key item p).1)).0 ≡ false
claim-once key item calls p e a =
    claim-known key item (run calls (claim_completed_item key item p).1) e (
      run-claimed key item calls (claim_completed_item key item p).1 a
        (claim-contains key item p e))

module _ (key : Pair) (text : String) (emit : Bool) (item : String) (p : Pump) where
  abbrev pub answered : Option OutboundMessage × Pump
  answered = record_agent_message key (some "final_answer") text emit item p

  answered-message :
      is_empty (strip text) ≡ false
      → answered.0
        ≡ some
            (final_message text (native_item_metadata item (some "final_answer")) (buffer_of key p))
  unfolding record_agent_message agent_message
  answered-message n = rw n

  answered-visible : is_empty (strip text) ≡ false → (buffer_of key answered.1).final_visible ≡ true
  unfolding record_agent_message agent_message
  answered-visible n = rw (n, get-put_self p key _)

module _ (key : Pair) (q : Pump) (v : (buffer_of key q).final_visible ≡ true) where
  delta-silent : (delta : String) (emit : Bool) → (record_delta key delta emit q).0 ≡ none
  unfolding record_delta
  delta-silent delta emit = rw v (ground arith)

  command-silent :
      (command : String) (emit : Bool) (item : String)
      → (record_command key command emit item q).0 ≡ none
  unfolding record_command
  command-silent command emit item = rw v (ground arith)

  file_change-silent :
      (paths : List String) (emit : Bool) (item : String)
      → (record_file_change key paths emit item q).0 ≡ none
  unfolding record_file_change
  file_change-silent paths emit item = rw v (ground arith)

  agent-silent :
      (text : String) (emit : Bool) (item : String)
      → (record_agent_message key none text emit item q).0 ≡ none
  unfolding record_agent_message agent_message
  agent-silent text emit item = rw v (ground arith)

  completed-silent : (finalize_turn key "completed" q).0 ≡ none
  unfolding finalize_turn finalize
  completed-silent = go (Dict.get q key) v
    where
      go : (o : Option TurnBuffer) → (or_new o).final_visible ≡ true → finalize "completed" o ≡ none
      go none h = absurd (ground arith)
      go (some b) h = rw h

-- After a final answer that is not blank, which is sent at once, no delta, command, file change or
-- message without a phase is sent for the turn any more, and nothing is when the turn completes:
-- whatever is recorded in between, unless the turn is ended or resumed.
pub final-once :
    (key : Pair) (text item : String) (emit : Bool) (calls : List Call) (p : Pump)
    (said other : String) (paths : List String) (e : Bool)
    → is_empty (strip text) ≡ false
    → all (λ c. not (reopens key c)) calls ≡ true
    → ((answered key text emit item p).0
        ≡ some (
            final_message text (native_item_metadata item (some "final_answer")) (buffer_of key p)))
      × ((record_delta key said e (run calls (answered key text emit item p).1)).0 ≡ none)
      × ((record_command key said e other (run calls (answered key text emit item p).1)).0 ≡ none)
      × ((record_file_change key paths e other (run calls (answered key text emit item p).1)).0
          ≡ none)
      × ((record_agent_message key none said e other
            (run calls (answered key text emit item p).1)).0
          ≡ none)
      × ((finalize_turn key "completed" (run calls (answered key text emit item p).1)).0 ≡ none)
final-once key text item emit calls p said other paths e n a = (
  answered-message key text emit item p n,
  delta-silent key q v said e,
  command-silent key q v said e other,
  file_change-silent key q v paths e other,
  agent-silent key q v said e other,
  completed-silent key q v,
)
  where
    q : Pump
    q = run calls (answered key text emit item p).1

    v : (buffer_of key q).final_visible ≡ true
    v =
        run-visible key calls (answered key text emit item p).1 a
          (answered-visible key text emit item p n)

-- A text, or a text that says something in its place.
or_said :
    (text other : String)
    → is_empty (strip other) ≡ false
    → is_empty (strip (if is_empty (strip text) then other else text)) ≡ false
or_said text other h = elim (Bool-cases (is_empty (strip text))) [
  | inl blank ↦ rw blank h
  | inr said ↦ rw said said
]

final_text-says : (b : TurnBuffer) → is_empty (strip (final_text_of "completed" b)) ≡ false
unfolding final_text_of strip lstrip rstrip
final_text-says b =
    or_said
      (or_commands
        (status_text "completed" (or_text b.final_text (join "" b.deltas))
          (changed_files_text b.changed_files))
        b.command_summaries)
      empty_completed_turn_text refl

with_errors-says :
    (text : String) (b : TurnBuffer)
    → is_empty (strip text) ≡ false
    → is_empty (strip (with_artifact_errors text b)) ≡ false
unfolding with_artifact_errors
with_errors-says text b h = noticed b.artifact_errors refl
  where
    noticed :
        (errors : List String)
        → b.artifact_errors ≡ errors
        → is_empty (strip (with_artifact_errors text b)) ≡ false
    noticed [] e = rw (e, with_artifact_errors) h
    noticed (error ∷ errors) e = rw (e, with_artifact_errors) (join_parts-says "\n\n" text _ h)

constant_says : is_empty (strip empty_completed_turn_text) ≡ false
unfolding strip lstrip rstrip
constant_says = refl

finalize-says_some :
    (o : Option TurnBuffer) (m : OutboundMessage)
    → finalize "completed" o ≡ some m
    → is_empty (strip m.text) ≡ false
unfolding finalize with_artifact_errors
finalize-says_some none m h =
    subst (λ (x : String). is_empty (strip x) ≡ false)
      (ap (λ (x : OutboundMessage). x.text) (of_some h)) constant_says
finalize-says_some (some b) m h = elim (Bool-cases b.final_visible) [
  | inl v ↦ absurd (ground arith)
  | inr v ↦
      let text = final_text_of "completed" b in
      let sent : some (
            completed_message (with_artifact_errors text b) (status_metadata "completed")
              b.artifacts)
          ≡ some m =
        rw v at h in
      subst (λ (x : String). is_empty (strip x) ≡ false)
        (ap (λ (x : OutboundMessage). x.text) (of_some sent))
        (with_errors-says text b (final_text-says b))
]

-- A turn that completes with a message says something: the text is not blank, whatever was recorded.
pub finalize-says :
    (key : Pair) (p : Pump) (m : OutboundMessage)
    → (finalize_turn key "completed" p).0 ≡ some m
    → is_empty (strip m.text) ≡ false
unfolding finalize_turn
finalize-says key p m h = finalize-says_some (Dict.get p key) m h
