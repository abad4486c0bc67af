-- ===== src/Channels/Outbound/Tests.antt =====
-- A channel that takes no artifacts, and a built-in channel that is not enabled.
use imcodex.Prelude.{◌≡◌, refl, false, none, some, [], ◌∷◌, ◌++◌, map, string_eq}
use imcodex.Dict
use imcodex.Models.{end, get_field}
use imcodex.Models.Messages.{OutboundArtifact, OutboundMessage}
use imcodex.Persistence.{returned}
use imcodex.Channels.Artifacts.Receipts.{receipts}
use imcodex.Channels.Outbound.{
  Sink, MultiplexOutboundSink, sink_for, can_deliver, prepare_durable_message,
}
use imcodex.Channels.Outbound.Routing.{prepare-tells}

abbrev plain : Sink
plain = record {
  supports_outbound_artifacts = false;
  ensure_outbound_allowed = λ message. returned;
  validate_outbound_message = λ message. returned;
  prepare_outbound = λ message. message;
  send_outbound = λ message. returned;
}

abbrev sinks : MultiplexOutboundSink
sinks = record { channel_sinks = ("qq", plain) ∷ []; default_sink = some plain }

-- A built-in channel that is not enabled has no sink, whatever the default.
refused : can_deliver sinks "telegram" ≡ false
unfolding can_deliver Dict.has
refused = refl

abbrev message : OutboundMessage
message = record {
  channel_id = "qq";
  conversation_id = "alice";
  message_type = "turn_result";
  text = "done";
  request_id = none;
  metadata = end;
  artifacts =
      record {
        kind = "file";
        local_path = "/spool/a";
        content_type = "text/plain";
        filename = "a";
        size_bytes = 1;
        sha256 = "";
      }
      ∷ [];
}

prepare-tells_example :
    (told : OutboundMessage) × (prepare_durable_message sinks message ≡ told)
    × (told.artifacts ≡ [])
    × (receipts told
        ≡ receipts message
          ++ map (λ (a : OutboundArtifact). (a.local_path, "failed")) message.artifacts)
unfolding sink_for Dict.get get_field
prepare-tells_example = prepare-tells sinks plain message refl refl refl
