-- ===== src/Bridge/Pump/Endings.antt =====
-- bridge/message_pump.py: the end of a turn, as it is reported or as it is recovered.
use Prim.Native.String.{◌++◌ as text_append}
use imcodex.Prelude.{
  String, Bool, true, false, Option, none, some, List, [], ◌∷◌, ◌++◌, ◌==◌, ◌&&◌, string_eq,
  pair_eq, if◌then◌else◌, is_empty, map, contains,
}
use imcodex.Text.{strip, join, join_parts, lowers_to}
use imcodex.Dict
use imcodex.Models.Json
use imcodex.Models.{
  Pair, Fields, end, field, get_field, str, bool, obj, arr, Items, nil, cons, OutboundArtifact,
  OutboundMessage,
}
use imcodex.Bridge.Pump.{
  Pump, TurnBuffer, emit_progress, with_artifact_errors, changed_files_lines,
  empty_completed_turn_text,
}

-- `list(dict.fromkeys(paths))`: each path where it first stands
abbrev add_key : String → List String → List String
add_key path seen = if contains seen path then seen else seen ++ path ∷ []

abbrev pub from_keys : List String → List String → List String
from_keys seen [] = seen
from_keys seen (path ∷ paths) = from_keys (add_key path seen) paths

-- The text for changed files, or none.
abbrev pub changed_files_text : List String → String
changed_files_text [] = ""
changed_files_text (path ∷ paths) = changed_files_lines (from_keys [] (path ∷ paths))

-- `x or y` for texts
abbrev pub or_text : String → String → String
or_text text other = if is_empty text then other else text

-- The text for the status of a finished turn.
unfoldable pub status_text : String → String → String → String
status_text status final changes =
    if status == "completed"
    then final
    else if status == "interrupted"
    then join_parts "\n" ("Turn interrupted." ∷ final ∷ changes ∷ [])
    else join_parts "\n" ("Turn failed." ∷ final ∷ changes ∷ [])

-- `if not text and buffer.command_summaries`
abbrev pub or_commands : String → List String → String
or_commands text [] = text
or_commands text (c ∷ cs) = or_text text (join "\n" (c ∷ cs))

-- The text of `finalize_turn` on a buffer, up to the artifact errors
unfoldable pub final_text_of : String → TurnBuffer → String
unfolding status_text
final_text_of status buffer =
    let final = or_text buffer.final_text (join "" buffer.deltas) in
    let text =
      or_commands (status_text status final (changed_files_text buffer.changed_files))
        buffer.command_summaries in
    if (status == "completed") && is_empty (strip text) then empty_completed_turn_text else text

abbrev pub completed_message : String → Fields → List OutboundArtifact → OutboundMessage
completed_message text metadata artifacts = record (emit_progress text "turn/completed" metadata) {
  artifacts = artifacts;
}

abbrev pub status_metadata : String → Fields
status_metadata status = field "status" (str status) end

-- `finalize_turn` for the buffer, if there is one
unfoldable pub finalize : String → Option TurnBuffer → Option OutboundMessage
unfolding final_text_of
finalize status none =
    let text =
      if status == "completed"
      then empty_completed_turn_text
      else if status == "interrupted"
      then "Turn interrupted."
      else "Turn failed." in
    some (completed_message text (status_metadata status) [])
finalize status (some buffer) =
    if (status == "completed") && buffer.final_visible
    then none
    else some (
        completed_message (with_artifact_errors (final_text_of status buffer) buffer)
          (status_metadata status) buffer.artifacts)

unfoldable pub finalize_turn : Pair → String → Pump → Option OutboundMessage × Pump
unfolding finalize
finalize_turn key status pump = (finalize status (Dict.get pump key), Dict.pop pump key)

-- `str(change.get("path"))` of a change that has a path. The native side sends texts.
abbrev path_of : Option Json.Json → List String
path_of (some (str path)) = if is_empty path then [] else path ∷ []
path_of _ = []

abbrev change_path : Json.Json → List String
change_path (obj change) = path_of (get_field change "path")
change_path _ = []

change_paths : Items → List String
change_paths nil = []
change_paths (cons change changes) = change_path change ++ change_paths changes

-- `item.get("changes", [])`, which is a list where it is there
abbrev changes_of : Option Json.Json → List String
changes_of (some (arr changes)) = change_paths changes
changes_of _ = []

abbrev is_file_change : Option Json.Json → Bool
is_file_change (some (str kind)) = kind == "fileChange"
is_file_change _ = false

-- The paths of the items that are file changes.
unfoldable pub item_paths : List Fields → List String
unfolding change_paths
item_paths [] = []
item_paths (item ∷ items) =
    let rest = item_paths items in
    if is_file_change (get_field item "type")
    then changes_of (get_field item "changes") ++ rest
    else rest

-- What is recovered from a buffer: the final text, and the changed files.
abbrev pub recovered_text : Option TurnBuffer → String
recovered_text none = ""
recovered_text (some buffer) =
    or_commands (or_text buffer.final_text (join "" buffer.deltas)) buffer.command_summaries

abbrev pub recovered_files : Option TurnBuffer → List String
recovered_files none = []
recovered_files (some buffer) = buffer.changed_files

unfoldable pub recovered_status_text : String → String → String
recovered_status_text status final =
    if lowers_to (strip status) "completed"
    then or_text final empty_completed_turn_text
    else if lowers_to (strip status) "interrupted"
    then join_parts "\n" ("Turn interrupted." ∷ final ∷ [])
    else join_parts "\n" ("Turn failed." ∷ final ∷ [])

abbrev pub with_changes : String → String → String
with_changes text changes = if is_empty changes then text else join_parts "\n" (text ∷ changes ∷ [])

abbrev pub with_errors : String → List String → String
with_errors text [] = text
with_errors text (e ∷ es) = join_parts "\n\n" (
    text
    ∷ text_append "Attachment delivery unavailable:\n"
        (join "\n" (map (λ error. text_append "- " error) (e ∷ es)))
    ∷ [])

unfoldable pub recover_turn :
    Pair
    → String
    → List Fields
    → List OutboundArtifact
    → List String
    → Pump
    → OutboundMessage × Pump
unfolding recovered_status_text item_paths
recover_turn key status items artifacts errors pump =
    let buffer = Dict.get pump key in
    let changes = changed_files_text (item_paths items ++ recovered_files buffer) in
    let text = with_changes (recovered_status_text status (recovered_text buffer)) changes in
    (
      completed_message (with_errors text errors)
          (field "status" (str status) (field "recovered" (bool true) end)) artifacts,
      Dict.pop pump key,
    )
