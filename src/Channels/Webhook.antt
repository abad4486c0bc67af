-- ===== src/Channels/Webhook.antt =====
-- channels/outbound.py: `WebhookOutboundSink`, the posts of one message with their retries and the
-- fallback without files. The answers of the webhook are an argument.
pub mod Retries
mod Tests
use Prim.Native.String.{◌++◌ as text_append}
use imcodex.Prelude.{
  ℕ, zero, suc, ◌+◌, ◌-◌, ◌*◌, String, Bool, Option, none, some, List, [], ◌∷◌, ◌&&◌, ◌||◌, not,
  string_eq, nat_eq, ltb, leb, min, max, ◌++◌, if◌then◌else◌, is_empty, map,
}
use imcodex.Models.{Fields}
use imcodex.Models.Messages.{OutboundArtifact, OutboundMessage}
use imcodex.Text.{strip}
use imcodex.Channels.Outbound.{record_failures}
use imcodex.Channels.Artifacts.{append_artifact_failures, failure_of}
use imcodex.Channels.Middleware.Metadata.{decimal}
use imcodex.Bridge.Delivery.Payload.{text_field}

-- An answer to one post: a `TransportError`, or a status with its Retry-After in milliseconds, if that is
-- a finite number (below zero it is zero)
pub data Answer : Type 0 where
  unreachable : Answer
  status : ℕ → Option ℕ → Answer

-- How a call ends: it returns, or raises a `TransportError` or an `HTTPStatusError`.
pub data PostResult : Type 0 where
  posted : PostResult
  transport_error : PostResult
  status_error : ℕ → PostResult

-- `min(2 ** (attempt - 1), 4)` seconds
abbrev pub power_of_two : ℕ → ℕ
power_of_two zero = 1
power_of_two (suc n) = 2 * power_of_two n

unfoldable pub backoff : ℕ → ℕ
backoff attempt = 1000 * min (power_of_two (attempt - 1)) 4

-- `_retry_after`
unfoldable pub retry_after : Option ℕ → ℕ → ℕ
unfolding backoff
retry_after none attempt = backoff attempt
retry_after (some delay) attempt = min 5000 delay

-- `response.is_success`
abbrev pub is_success : ℕ → Bool
is_success code = leb 200 code && ltb code 300

abbrev pub is_busy : ℕ → Bool
is_busy code = nat_eq code 429 || leb 500 code

-- The body of the loop for one answer, with what the later attempts come to: the sleeps, and how the
-- call ends. `raise_for_status` raises unless the status is a success.
unfoldable pub post_step : ℕ → ℕ → Answer → List ℕ × PostResult → List ℕ × PostResult
unfolding retry_after
post_step attempts attempt unreachable (sleeps, result) =
    if leb attempts attempt then ([], transport_error) else (backoff attempt ∷ sleeps, result)
post_step attempts attempt (status code after) (sleeps, result) =
    if is_success code
    then ([], posted)
    else if is_busy code && ltb attempt attempts
    then (retry_after after attempt ∷ sleeps, result)
    else ([], status_error code)

-- The loop from an attempt on, with the attempts left
unfoldable pub post_from : (ℕ → Answer) → ℕ → ℕ → ℕ → List ℕ × PostResult
unfolding post_step
post_from answers attempts attempt zero = ([], posted)
post_from answers attempts attempt (suc left) =
    let later = post_from answers attempts (suc attempt) left in
    post_step attempts attempt (answers attempt) later

-- Without a delivery id there is one attempt.
abbrev pub attempts_for : ℕ → Fields → ℕ
attempts_for max_attempts metadata =
    if is_empty (text_field "delivery_id" metadata) then 1 else max 1 max_attempts

-- `_post_with_retries`
unfoldable pub post_with_retries : ℕ → (ℕ → Answer) → Fields → List ℕ × PostResult
unfolding post_from
post_with_retries max_attempts answers metadata =
    let attempts = attempts_for max_attempts metadata in post_from answers attempts 1 attempts

abbrev pub rejects_files : ℕ → Bool
rejects_files code = nat_eq code 400 || nat_eq code 413 || nat_eq code 415 || nat_eq code 422

abbrev pub batch_error : ℕ → String
unfolding decimal
batch_error code =
    text_append "webhook rejected the attachment batch (HTTP "
      (text_append (decimal (suc code) code) ")")

-- The message after the webhook has rejected its files
unfoldable pub without_files : ℕ → OutboundMessage → OutboundMessage
unfolding record_failures append_artifact_failures
without_files code message =
    append_artifact_failures
      (map (λ (artifact : OutboundArtifact). failure_of artifact (batch_error code))
        message.artifacts)
      (record_failures message.artifacts (batch_error code) (record message { artifacts = [] }))

-- `_post_with_artifact_fallback`: the message afterwards, the sleeps and how it ends, for the answers to
-- the posts with the files and without them
unfoldable pub post_with_artifact_fallback :
    ℕ → (ℕ → Answer) → (ℕ → Answer) → Bool → OutboundMessage → OutboundMessage × List ℕ × PostResult
unfolding post_with_retries without_files
post_with_artifact_fallback max_attempts with_files answers has_files message =
    let (sleeps, result) = post_with_retries max_attempts with_files message.metadata in
    elim result [
      | posted ↦ (message, sleeps, posted)
      | transport_error ↦ (message, sleeps, transport_error)
      | status_error code ↦
          if not has_files || not (rejects_files code)
          then (message, sleeps, status_error code)
          else if is_empty (strip (without_files code message).text)
          then (without_files code message, sleeps, posted)
          else (
            without_files code message,
            sleeps
                ++ (post_with_retries max_attempts answers (without_files code message).metadata).0,
            (post_with_retries max_attempts answers (without_files code message).metadata).1,
          )
    ]
