-- ===== src/Channels/Outbound.antt =====
-- channels/outbound.py: `MultiplexOutboundSink`, the choice of the sink for a channel. The sinks are
-- arguments.
pub mod Routing
mod Tests
use Prim.Native.String.{◌++◌ as text_append}
use imcodex.Prelude.{
  ℕ, suc, String, Bool, true, false, Option, none, some, List, [], ◌∷◌, ◌&&◌, not, string_eq,
  nat_eq, if◌then◌else◌, is_some, length, contains,
}
use imcodex.Dict
use imcodex.Dict.{Dict}
use imcodex.Models.Messages.{OutboundArtifact, OutboundMessage}
use imcodex.Persistence.{Outcome, returned, raised}
use imcodex.Text.{join_parts}
use imcodex.Channels.Artifacts.{record_artifact_failure}
use imcodex.Channels.Middleware.Metadata.{decimal}

-- BUILTIN_CHANNEL_IDS of registry.py
abbrev pub builtin_channel_ids : List String
builtin_channel_ids = "qq" ∷ "telegram" ∷ "feishu" ∷ "weixin" ∷ []

-- What a sink may have; a method that it lacks does nothing.
pub record Sink : Type 0 where
  pub supports_outbound_artifacts : Bool
  pub ensure_outbound_allowed : OutboundMessage → Outcome
  pub validate_outbound_message : OutboundMessage → Outcome
  pub prepare_outbound : OutboundMessage → OutboundMessage
  pub send_outbound : OutboundMessage → Outcome

pub record MultiplexOutboundSink : Type 0 where
  pub channel_sinks : Dict String Sink
  pub default_sink : Option Sink

unfoldable pub can_deliver : MultiplexOutboundSink → String → Bool
can_deliver m channel =
    if Dict.has m.channel_sinks channel
    then true
    else if contains builtin_channel_ids channel
    then false
    else is_some m.default_sink

-- `_sink_for`; nothing is a RuntimeError
abbrev pub sink_or : Option Sink → Bool → Option Sink → Option Sink
sink_or (some sink) builtin default = some sink
sink_or none builtin default = if builtin then none else default

unfoldable pub sink_for : MultiplexOutboundSink → String → Option Sink
sink_for m channel =
    sink_or (Dict.get m.channel_sinks channel) (contains builtin_channel_ids channel) m.default_sink

unfoldable pub validate_message : MultiplexOutboundSink → OutboundMessage → Outcome
unfolding sink_for
validate_message m message = elim (sink_for m message.channel_id) [
  | none ↦ raised
  | some sink ↦ elim (sink.ensure_outbound_allowed message) [
    | raised ↦ raised
    | returned ↦ sink.validate_outbound_message message
  ]
]

unfoldable pub send_message : MultiplexOutboundSink → OutboundMessage → Outcome
unfolding sink_for
send_message m message = elim (sink_for m message.channel_id) [
  | none ↦ raised
  | some sink ↦ sink.send_outbound message
]

unfoldable pub record_failures : List OutboundArtifact → String → OutboundMessage → OutboundMessage
unfolding record_artifact_failure
record_failures [] error message = message
record_failures (artifact ∷ artifacts) error message =
    record_failures artifacts error (record_artifact_failure artifact error message)

abbrev pub unsupported_notice : ℕ → String
unfolding decimal
unsupported_notice count =
    text_append "Attachment delivery unavailable: this channel does not support " (
      text_append (decimal (suc count) count)
        (text_append " staged artifact" (if nat_eq count 1 then "." else "s.")))

-- The branch of `prepare_durable_message` for a sink without artifacts
unfoldable pub without_artifacts : OutboundMessage → OutboundMessage
unfolding record_failures join_parts
without_artifacts message =
    let told =
      record_failures message.artifacts "this channel does not support outbound artifacts"
        message in
    record told {
      text = join_parts "\n\n" (message.text ∷ unsupported_notice (length message.artifacts) ∷ []);
      artifacts = [];
    }

abbrev pub has_artifacts : OutboundMessage → Bool
has_artifacts message = not (nat_eq (length message.artifacts) 0)

-- The message as the sink is given it
unfoldable pub told_to : Sink → OutboundMessage → OutboundMessage
unfolding without_artifacts
told_to sink message =
    if has_artifacts message && not sink.supports_outbound_artifacts
    then without_artifacts message
    else message

unfoldable pub prepared_by : Option Sink → OutboundMessage → OutboundMessage
unfolding told_to
prepared_by none message = message
prepared_by (some sink) message = sink.prepare_outbound (told_to sink message)

unfoldable pub prepare_durable_message : MultiplexOutboundSink → OutboundMessage → OutboundMessage
unfolding sink_for prepared_by
prepare_durable_message m message = prepared_by (sink_for m message.channel_id) message
