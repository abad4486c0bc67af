-- ===== src/Bridge/Pump.antt =====
-- bridge/message_pump.py: `MessagePump`, which turns what happens in a native turn into messages.
-- Each method takes the buffers of all turns and returns them with its result. The proofs are in
-- the modules below.
pub mod Artifacts
pub mod Endings
pub mod Calls
use Prim.Native.String.{◌++◌ as text_append}
use imcodex.Prelude.{
  ℕ, String, Bool, true, false, Option, none, some, List, [], ◌∷◌, ◌++◌, ◌==◌, ◌&&◌, ◌||◌, not, map,
  string_eq, pair_eq, if◌then◌else◌, is_empty, truthy, contains, length, take, ltb, keep,
}
use imcodex.Text.{strip, join, join_parts, lowers_to}
use imcodex.Text.Paths.{stem}
use imcodex.Dict
use imcodex.Dict.{Dict, keys, values}
use imcodex.Models.{
  Pair, Fields, end, field, get_field, str, bool, obj, arr, Items, nil, cons, OutboundArtifact,
  OutboundMessage,
}

-- EMPTY_COMPLETED_TURN_TEXT
abbrev pub empty_completed_turn_text : String
empty_completed_turn_text = "Codex completed the turn without returning a final message."

-- _MAX_OUTBOUND_ARTIFACTS
abbrev pub max_outbound_artifacts : ℕ
max_outbound_artifacts = 4

pub record TurnBuffer : Type 0 where
  pub deltas : List String
  pub command_summaries : List String
  pub changed_files : List String
  pub completed_item_ids : List String
  pub final_text : String
  pub final_visible : Bool
  pub artifacts : List OutboundArtifact
  pub artifact_errors : List String

abbrev pub new_buffer : TurnBuffer
new_buffer = record {
  deltas = [];
  command_summaries = [];
  changed_files = [];
  completed_item_ids = [];
  final_text = "";
  final_visible = false;
  artifacts = [];
  artifact_errors = [];
}

-- `_turns`, under the thread and the turn
abbrev pub Pump : Type 0
Pump = Dict Pair TurnBuffer

abbrev pub or_new : Option TurnBuffer → TurnBuffer
or_new none = new_buffer
or_new (some buffer) = buffer

-- `_buffer`; the changes of a buffer in place are a `Dict.put` under its key afterwards.
abbrev pub buffer_of : Pair → Pump → TurnBuffer
buffer_of key pump = or_new (Dict.get pump key)

-- `buffer.deltas.clear()` and the lines after it
abbrev pub reopened : TurnBuffer → TurnBuffer
reopened buffer = record buffer {
  deltas = [];
  command_summaries = [];
  changed_files = [];
  final_text = "";
  final_visible = false;
  artifacts = [];
  artifact_errors = [];
}

unfoldable pub resume_turn_output : Pair → Pump → Bool × Pump
resume_turn_output key pump = elim (Dict.get pump key) [
  | none ↦ (false, pump)
  | some buffer ↦
      if not buffer.final_visible
      then (false, pump)
      else (true, Dict.put pump key (reopened buffer))
]

-- `_emit_progress`
abbrev pub emit_progress : String → String → Fields → OutboundMessage
emit_progress text message_type metadata = record {
  channel_id = "";
  conversation_id = "";
  message_type = message_type;
  text = text;
  request_id = none;
  metadata = metadata;
  artifacts = [];
}

-- `_native_item_metadata`
abbrev phase_metadata : Option String → Fields
phase_metadata none = end
phase_metadata (some phase) = field "phase" (str phase) end

abbrev pub native_item_metadata : String → Option String → Fields
native_item_metadata item_id phase =
    if is_empty item_id
    then phase_metadata phase
    else field "native_item_id" (str item_id) (phase_metadata phase)

-- `_with_artifact_errors`
unfoldable pub with_artifact_errors : String → TurnBuffer → String
with_artifact_errors text buffer = elim buffer.artifact_errors [
  | [] ↦ text
  | e ∷ es ↦
      let notice = join "\n" (map (λ error. text_append "- " error) (e ∷ es)) in
      join_parts "\n\n" (text ∷ text_append "Attachment delivery unavailable:\n" notice ∷ [])
]

unfoldable pub record_delta : Pair → String → Bool → Pump → Option OutboundMessage × Pump
record_delta key delta emit pump =
    let buffer = buffer_of key pump in
    let recorded =
      if is_empty delta then buffer else record buffer { deltas = buffer.deltas ++ delta ∷ [] } in
    (
      (if not emit || (buffer.final_visible || is_empty delta)
          then none
          else some (emit_progress delta "item/agentMessage/delta" end)),
      Dict.put pump key recorded,
    )

unfoldable pub claim_completed_item : Pair → String → Pump → Bool × Pump
claim_completed_item key item pump =
    let buffer = buffer_of key pump in
    if is_empty item
    then (true, pump)
    else if contains buffer.completed_item_ids item
    then (false, Dict.put pump key buffer)
    else (
      true,
      Dict.put pump key
          (record buffer { completed_item_ids = buffer.completed_item_ids ++ item ∷ [] }),
    )

-- The message of a final answer.
abbrev pub final_message : String → Fields → TurnBuffer → OutboundMessage
final_message text metadata buffer = record (emit_progress text "agentMessage" metadata) {
  text = with_artifact_errors text buffer;
  artifacts = buffer.artifacts;
}

abbrev pub progress_unless : Bool → String → String → Fields → Option OutboundMessage
progress_unless silent text message_type metadata =
    if silent then none else some (emit_progress text message_type metadata)

-- `record_agent_message` on the buffer, for each phase
unfoldable pub agent_message :
    Option String → String → Bool → Fields → TurnBuffer → Option OutboundMessage × TurnBuffer
agent_message none text emit metadata buffer =
    let noted = if is_empty text then buffer else record buffer { final_text = text } in
    (
      progress_unless (is_empty text || (not emit || buffer.final_visible)) text "agentMessage"
          metadata,
      noted,
    )
agent_message (some phase) text emit metadata buffer =
    if phase == "final_answer"
    then if is_empty (strip text) then (none, buffer) else (
      some (final_message text metadata buffer),
      record buffer { final_text = text; final_visible = true },
    )
    else (
      progress_unless (is_empty text || (not emit || buffer.final_visible)) text "agentMessage"
          metadata,
      buffer,
    )

unfoldable pub record_agent_message :
    Pair → Option String → String → Bool → String → Pump → Option OutboundMessage × Pump
unfolding agent_message
record_agent_message key phase text emit item pump =
    let (message, buffer) =
      agent_message phase text emit (native_item_metadata item phase) (buffer_of key pump) in
    (message, Dict.put pump key buffer)

-- f"Executed `{command}`"
abbrev executed : String → String
executed command = text_append "Executed `" (text_append command "`")

unfoldable pub record_command : Pair → String → Bool → String → Pump → Option OutboundMessage × Pump
record_command key command emit item pump =
    let buffer = buffer_of key pump in
    (
      progress_unless (not emit || buffer.final_visible) (executed command) "commandExecution"
          (native_item_metadata item none),
      Dict.put pump key
          (record buffer { command_summaries = buffer.command_summaries ++ executed command ∷ [] }),
    )

-- The lines for changed files.
abbrev pub changed_files_lines : List String → String
changed_files_lines paths = join "\n" ("Changed files:" ∷ map (λ path. text_append "- " path) paths)

abbrev no_paths : List String → Bool
no_paths [] = true
no_paths (_ ∷ _) = false

unfoldable pub record_file_change :
    Pair → List String → Bool → String → Pump → Option OutboundMessage × Pump
record_file_change key paths emit item pump =
    let buffer = buffer_of key pump in
    (
      progress_unless (no_paths paths || (not emit || buffer.final_visible))
          (changed_files_lines paths) "fileChange" (native_item_metadata item none),
      Dict.put pump key (record buffer { changed_files = buffer.changed_files ++ paths }),
    )
