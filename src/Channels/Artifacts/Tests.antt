-- ===== src/Channels/Artifacts/Tests.antt =====
-- Three artifacts: one is accepted, one refused for good, and one meets a connection that is lost.
use imcodex.Prelude.{ℕ, zero, suc, String, ◌≡◌, refl, none, [], ◌∷◌, ◌++◌, length, drop, string_eq}
use imcodex.Models.{end, get_field}
use imcodex.Models.Messages.{OutboundArtifact, OutboundMessage}
use imcodex.Persistence.{raised}
use imcodex.Text.{join, join_parts}
use imcodex.Channels.Artifacts.{Sent, accepted, permanent, transient, deliver_artifact_batch}
use imcodex.Channels.Artifacts.Receipts.{receipts}
use imcodex.Channels.Artifacts.Checkpoint.{settled, outcome_with, batch-checkpoint}

abbrev file : String → OutboundArtifact
file name = record {
  kind = "file";
  local_path = name;
  content_type = "text/plain";
  filename = name;
  size_bytes = 1;
  sha256 = "";
}

abbrev message : OutboundMessage
message = record {
  channel_id = "qq";
  conversation_id = "alice";
  message_type = "turn_result";
  text = "done";
  request_id = none;
  metadata = end;
  artifacts = file "a" ∷ file "b" ∷ file "c" ∷ [];
}

abbrev send : ℕ → OutboundArtifact → Sent
send zero artifact = accepted none
send (suc zero) artifact = permanent "too large"
send (suc (suc n)) artifact = transient

stopped : (deliver_artifact_batch send message).1 ≡ raised
unfolding deliver_artifact_batch
stopped = refl

kept : (deliver_artifact_batch send message).0.artifacts ≡ file "c" ∷ []
unfolding deliver_artifact_batch
kept = refl

told :
    (deliver_artifact_batch send message).0.text
    ≡ "done\n\nAttachment delivery unavailable:\n- b: too large"
unfolding deliver_artifact_batch join join_parts
told = refl

batch-checkpoint_example :
    ((deliver_artifact_batch send message).0.artifacts
      ≡ drop (length (settled send 0 message.artifacts)) message.artifacts)
    × (receipts (deliver_artifact_batch send message).0
        ≡ receipts message ++ settled send 0 message.artifacts)
    × ((deliver_artifact_batch send message).1
        ≡ outcome_with (drop (length (settled send 0 message.artifacts)) message.artifacts))
unfolding get_field
batch-checkpoint_example = batch-checkpoint send message refl
