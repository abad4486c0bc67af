-- ===== src/Models/Messages.antt =====
-- src/imcodex/models.py: the messages that the bridge sends to a channel.
use imcodex.Prelude.{ℕ, String, Option, List}
use imcodex.Models.Json.{Fields}

pub record OutboundArtifact : Type 0 where
  pub kind : String
  pub local_path : String
  pub content_type : String
  pub filename : String
  pub size_bytes : ℕ
  pub sha256 : String

pub record OutboundMessage : Type 0 where
  pub channel_id : String
  pub conversation_id : String
  pub message_type : String
  pub text : String
  pub request_id : Option String
  pub metadata : Fields
  pub artifacts : List OutboundArtifact
