-- ===== src/Channels/Outbound/Routing.antt =====
-- Which channels have a sink, and what happens to artifacts that a sink does not take.
use imcodex.Prelude.{
  String, ◌≡◌, refl, sym, ap, ◌∙◌, Bool, true, false, Option, none, some, List, [], ◌∷◌, ◌++◌,
  arith, if◌then◌else◌, is_some, map, contains, Option-cases, Bool-cases, nat_eq, length, inl, inr,
  string_eq, append-nil, append_assoc,
}
use imcodex.Dict
use imcodex.Dict.Laws.{has-true, has-false}
use imcodex.Models.Messages.{OutboundArtifact, OutboundMessage}
use imcodex.Channels.Artifacts.{record_artifact_failure}
use imcodex.Channels.Artifacts.Receipts.{is_listed, receipts, failure-Gains}
use imcodex.Channels.Outbound.{
  Sink, MultiplexOutboundSink, builtin_channel_ids, can_deliver, sink_or, sink_for, told_to,
  prepared_by, record_failures, without_artifacts, prepare_durable_message,
}

either_sink :
    (own default : Option Sink) (builtin : Bool)
    → (if is_some own then true else if builtin then false else is_some default)
      ≡ is_some (sink_or own builtin default)
either_sink none default builtin = ground arith
either_sink (some sink) default builtin = refl

-- A channel is said to be deliverable exactly if its messages find a sink.
can_deliver-sink_for :
    (m : MultiplexOutboundSink) (channel : String)
    → can_deliver m channel ≡ is_some (sink_for m channel)
unfolding can_deliver sink_for
can_deliver-sink_for m channel =
    let default = m.default_sink in
    let builtin = contains builtin_channel_ids channel in
    elim (Option-cases (Dict.get m.channel_sinks channel)) [
      | inl h ↦ rw (h, has-false m.channel_sinks channel h) (either_sink none default builtin)
      | inr (sink, h) ↦ rw (h, has-true m.channel_sinks channel sink h) refl
    ]

-- Each artifact has its receipt.
failures-receipts :
    (artifacts : List OutboundArtifact) (error : String) (message : OutboundMessage)
    → is_listed message ≡ true
    → receipts (record_failures artifacts error message)
      ≡ receipts message ++ map (λ (a : OutboundArtifact). (a.local_path, "failed")) artifacts
unfolding record_failures
failures-receipts [] error message l = sym (append-nil (receipts message))
failures-receipts (artifact ∷ artifacts) error message l =
    let (listed, gained) = failure-Gains artifact error message l in
    failures-receipts artifacts error (record_artifact_failure artifact error message) listed
    ∙ ap
        (λ (xs : List (String × String)).
          xs ++ map (λ (a : OutboundArtifact). (a.local_path, "failed")) artifacts)
        gained
    ∙ append_assoc (receipts message) ((artifact.local_path, "failed") ∷ [])
        (map (λ (a : OutboundArtifact). (a.local_path, "failed")) artifacts)

failures-artifacts :
    (artifacts : List OutboundArtifact) (error : String) (message : OutboundMessage)
    → (record_failures artifacts error message).text ≡ message.text
unfolding record_failures record_artifact_failure
failures-artifacts [] error message = refl
failures-artifacts (artifact ∷ artifacts) error message =
    failures-artifacts artifacts error (record_artifact_failure artifact error message)

-- What is given to the sink in place of the message
abbrev IsTold : OutboundMessage → OutboundMessage → Type 0
IsTold message told =
    (told.artifacts ≡ [])
    × (receipts told
        ≡ receipts message
          ++ map (λ (a : OutboundArtifact). (a.local_path, "failed")) message.artifacts)

without-IsTold :
    (message : OutboundMessage)
    → is_listed message ≡ true
    → IsTold message (without_artifacts message)
unfolding without_artifacts
without-IsTold message l = (
  refl,
  failures-receipts message.artifacts "this channel does not support outbound artifacts" message l,
)

no_artifacts :
    (artifacts : List OutboundArtifact) → nat_eq (length artifacts) 0 ≡ true → artifacts ≡ []
no_artifacts [] h = refl
no_artifacts (artifact ∷ artifacts) h = absurd (ground (arith, h))

kept-IsTold : (message : OutboundMessage) → message.artifacts ≡ [] → IsTold message message
kept-IsTold message e = (
  e,
  sym (
      ap
        (λ (left : List OutboundArtifact).
          receipts message ++ map (λ (a : OutboundArtifact). (a.local_path, "failed")) left)
        e
      ∙ append-nil (receipts message)),
)

told_to-IsTold :
    (sink : Sink) (message : OutboundMessage)
    → sink.supports_outbound_artifacts ≡ false
    → is_listed message ≡ true
    → IsTold message (told_to sink message)
unfolding told_to
told_to-IsTold sink message lacks l = elim (Bool-cases (nat_eq (length message.artifacts) 0)) [
  | inl h ↦ rw (h, told_to) (kept-IsTold message (no_artifacts message.artifacts h))
  | inr h ↦ rw (h, lacks, told_to) (without-IsTold message l)
]

-- A sink without artifacts is given the message without them, with a receipt of the failure of each
-- behind the receipts that were there, if these were a list or missing.
pub prepare-tells :
    (m : MultiplexOutboundSink) (sink : Sink) (message : OutboundMessage)
    → sink_for m message.channel_id ≡ some sink
    → sink.supports_outbound_artifacts ≡ false
    → is_listed message ≡ true
    → (told : OutboundMessage) × (prepare_durable_message m message ≡ sink.prepare_outbound told)
      × (told.artifacts ≡ [])
      × (receipts told
          ≡ receipts message
            ++ map (λ (a : OutboundArtifact). (a.local_path, "failed")) message.artifacts)
unfolding prepare_durable_message prepared_by
prepare-tells m sink message found lacks l =
    let (none_left, told) = told_to-IsTold sink message lacks l in
    (told_to sink message, ap (λ (o : Option Sink). prepared_by o message) found, none_left, told)
