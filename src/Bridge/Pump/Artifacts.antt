-- ===== src/Bridge/Pump/Artifacts.antt =====
-- bridge/message_pump.py: `record_artifacts`, and the reads of the artifacts.
use imcodex.Prelude.{
  ℕ, String, Option, none, some, List, [], ◌∷◌, ◌++◌, string_eq, pair_eq, if◌then◌else◌, is_empty,
  contains, length, take, ltb, map,
}
use imcodex.Text.Paths.{stem}
use imcodex.Dict
use imcodex.Dict.{Dict, values}
use imcodex.Models.{Pair, OutboundArtifact}
use imcodex.Bridge.Pump.{Pump, TurnBuffer, buffer_of, max_outbound_artifacts}

-- `merged.update({Path(artifact.local_path).stem: artifact for artifact in artifacts})`
unfoldable pub merge :
    Dict String OutboundArtifact → List OutboundArtifact → Dict String OutboundArtifact
merge merged [] = merged
merge merged (a ∷ more) = merge (Dict.put merged (stem a.local_path) a) more

-- The error that is noted: too many artifacts come before what the caller says.
abbrev pub error_of : ℕ → Option String → Option String
error_of count error =
    if ltb max_outbound_artifacts count
    then some "only 4 outbound artifacts can be delivered per turn"
    else error

-- `if error and error not in buffer.artifact_errors`
abbrev pub note_error : Option String → List String → List String
note_error none errors = errors
note_error (some error) errors =
    if is_empty error
    then errors
    else if contains errors error
    then errors
    else errors ++ error ∷ []

-- The buffer after `record_artifacts`, where `all` are the merged artifacts.
unfoldable pub with_artifacts : List OutboundArtifact → Option String → TurnBuffer → TurnBuffer
with_artifacts all error buffer = record buffer {
  artifacts = take max_outbound_artifacts all;
  artifact_errors = note_error (error_of (length all) error) buffer.artifact_errors;
}

unfoldable pub record_artifacts : Pair → List OutboundArtifact → Option String → Pump → Pump
unfolding merge with_artifacts
record_artifacts key artifacts error pump =
    let buffer = buffer_of key pump in
    let merged = merge (merge [] buffer.artifacts) artifacts in
    Dict.put pump key (with_artifacts (values merged) error buffer)

abbrev artifacts_of : Option TurnBuffer → List OutboundArtifact
artifacts_of none = []
artifacts_of (some buffer) = buffer.artifacts

unfoldable pub buffered_artifacts : Pair → Pump → List OutboundArtifact
buffered_artifacts key pump = artifacts_of (Dict.get pump key)

unfoldable pub discard_turn : Pair → Pump → List OutboundArtifact × Pump
discard_turn key pump = (artifacts_of (Dict.get pump key), Dict.pop pump key)

abbrev paths : List OutboundArtifact → List String
paths artifacts = map (λ a. a.local_path) artifacts

-- `active_artifact_paths`, as a list
unfoldable pub active_artifact_paths : Pump → List String
active_artifact_paths [] = []
active_artifact_paths ((_, buffer) ∷ pump) = paths buffer.artifacts ++ active_artifact_paths pump
