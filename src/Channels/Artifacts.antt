-- ===== src/Channels/Artifacts.antt =====
-- channels/artifacts.py: the delivery of the artifacts of one message, with the checkpoint that a retry
-- starts from. What the channel does with each artifact is an argument.
pub mod Receipts
pub mod Checkpoint
mod Tests
use Prim.Native.String.{◌++◌ as text_append}
use imcodex.Prelude.{
  ℕ, suc, String, Bool, false, Option, none, some, List, [], ◌∷◌, ◌++◌, ◌==◌, ◌||◌, string_eq,
  nat_eq, not, ◌&&◌, if◌then◌else◌, is_empty, starts_with, map, length,
}
use imcodex.Models.Json.{Json}
use imcodex.Models.{Fields, Items, end, field, nil, cons, str, arr, obj, get_field}
use imcodex.Models.Messages.{OutboundArtifact, OutboundMessage}
use imcodex.Persistence.{Outcome, returned, raised}
use imcodex.Text.{strip, join, join_parts}
use imcodex.Bridge.Delivery.Payload.{text_field}
use imcodex.Channels.Middleware.Metadata.{decimal}
use imcodex.Bridge.Delivery.Direct.{put_field}

pub record ArtifactDeliveryReceipt : Type 0 where
  pub platform_message_id : String
  pub delivery_identity : String

-- What `send_one` does: it returns, raises a `PermanentArtifactDeliveryError` with a text, or raises
-- anything else, a cancellation included.
pub data Sent : Type 0 where
  accepted : Option ArtifactDeliveryReceipt → Sent
  permanent : String → Sent
  transient : Sent

-- `receipt or ArtifactDeliveryReceipt()`
abbrev pub receipt_or_empty : Option ArtifactDeliveryReceipt → ArtifactDeliveryReceipt
receipt_or_empty none = record { platform_message_id = ""; delivery_identity = "" }
receipt_or_empty (some receipt) = receipt

-- `items.append(value)`
abbrev pub append_item : Items → Json → Items
append_item nil value = cons value nil
append_item (cons v items) value = cons v (append_item items value)

abbrev pub append_found : String → Json → Fields → Option Json → Fields
append_found name value d none = put_field name (arr (cons value nil)) d
append_found name value d (some (arr items)) = put_field name (arr (append_item items value)) d
append_found name value d (some _) = d

-- `xs = d.setdefault(name, [])`, and `xs.append(value)` if it is a list
unfoldable pub append_to : String → Json → Fields → Fields
unfolding put_field
append_to name value d = append_found name value d (get_field d name)

abbrev pub delivered_receipt : OutboundArtifact → ArtifactDeliveryReceipt → Fields
delivered_receipt artifact receipt = field "filename" (str artifact.filename) (
    field "sha256" (str artifact.sha256) (
      field "local_path" (str artifact.local_path) (
        field "status" (str "delivered") (
          field "platform_message_id" (str receipt.platform_message_id)
            (field "delivery_identity" (str receipt.delivery_identity) end)))))

abbrev pub failed_receipt : OutboundArtifact → String → Fields
failed_receipt artifact error = field "filename" (str artifact.filename) (
    field "sha256" (str artifact.sha256) (
      field "local_path" (str artifact.local_path) (
        field "status" (str "failed") (
          field "error" (str error)
            (field "platform_message_id" (str "") (field "delivery_identity" (str "") end))))))

unfoldable pub record_artifact_delivery :
    OutboundArtifact → ArtifactDeliveryReceipt → OutboundMessage → OutboundMessage
unfolding append_to
record_artifact_delivery artifact receipt message = record message {
  metadata =
      append_to "artifact_receipts" (obj (delivered_receipt artifact receipt)) message.metadata;
}

unfoldable pub record_artifact_failure :
    OutboundArtifact → String → OutboundMessage → OutboundMessage
unfolding append_to
record_artifact_failure artifact error message = record message {
  metadata = append_to "artifact_receipts" (obj (failed_receipt artifact error)) message.metadata;
}

-- `part in text`
abbrev pub has_part : String → String → Bool
has_part String.[] part = is_empty part
has_part (String.◌∷◌ c text) part = starts_with (String.◌∷◌ c text) part || has_part text part

-- `value in items`, for a text
abbrev pub has_item : Items → String → Bool
has_item nil value = false
has_item (cons (str other) items) value = (other == value) || has_item items value
has_item (cons _ items) value = has_item items value

-- The loop over the failures
abbrev pub add_missing : Items → List String → Items
add_missing items [] = items
add_missing items (failure ∷ failures) =
    add_missing (if has_item items failure then items else append_item items (str failure)) failures

abbrev pub note_found : List String → Fields → Option Json → Fields
note_found failures d none = put_field "artifact_failures" (arr (add_missing nil failures)) d
note_found failures d (some (arr items)) =
    put_field "artifact_failures" (arr (add_missing items failures)) d
note_found failures d (some _) = d

-- The failures in the metadata
unfoldable pub note_failures : List String → Fields → Fields
unfolding put_field
note_failures failures d = note_found failures d (get_field d "artifact_failures")

abbrev pub failure_notice : List String → String
unfolding join
failure_notice failures =
    text_append "Attachment delivery unavailable:\n"
      (join "\n" (map (λ (failure : String). text_append "- " failure) failures))

unfoldable pub append_artifact_failures : List String → OutboundMessage → OutboundMessage
unfolding note_failures join_parts
append_artifact_failures [] message = message
append_artifact_failures (failure ∷ failures) message =
    let notice = failure_notice (failure ∷ failures) in
    record message {
      text =
          if has_part message.text notice
          then message.text
          else join_parts "\n\n" (message.text ∷ notice ∷ []);
      metadata = note_failures (failure ∷ failures) message.metadata;
    }

-- f"{artifact.filename}: {error}"
abbrev pub failure_of : OutboundArtifact → String → String
failure_of artifact error = text_append artifact.filename (text_append ": " error)

-- The loop from an index on, with the artifacts from there and the failures so far, and what follows it
unfoldable pub deliver_from :
    (ℕ → OutboundArtifact → Sent)
    → ℕ
    → List OutboundArtifact
    → List String
    → OutboundMessage
    → OutboundMessage × Outcome
unfolding append_artifact_failures record_artifact_failure record_artifact_delivery
deliver_from send index [] failures message =
    (append_artifact_failures failures (record message { artifacts = [] }), returned)
deliver_from send index (artifact ∷ rest) failures message = elim (send index artifact) [
  | accepted receipt ↦
      deliver_from send (suc index) rest failures
        (record (record_artifact_delivery artifact (receipt_or_empty receipt) message) {
          artifacts = rest;
        })
  | permanent error ↦
      deliver_from send (suc index) rest (failures ++ failure_of artifact error ∷ [])
        (record (record_artifact_failure artifact error message) { artifacts = rest })
  | transient ↦
      (record (append_artifact_failures failures message) { artifacts = artifact ∷ rest }, raised)
]

unfoldable pub deliver_artifact_batch :
    (ℕ → OutboundArtifact → Sent) → OutboundMessage → OutboundMessage × Outcome
unfolding deliver_from
deliver_artifact_batch send message = deliver_from send 0 message.artifacts [] message

-- What is found under the local path of an artifact, resolved
pub data Source : Type 0 where
  outside : Source
  not_a_file : Source
  unreadable : Source
  content : List ℕ → Source

-- The content, or the text of a `PermanentArtifactDeliveryError`
pub data ReadResult : Type 0 where
  read : List ℕ → ReadResult
  refused : String → ReadResult

unfoldable pub read_managed_artifact : (List ℕ → String) → OutboundArtifact → Source → ReadResult
read_managed_artifact digest artifact outside =
    refused "artifact is outside the managed spool or no longer exists"
read_managed_artifact digest artifact not_a_file = refused "artifact is no longer a regular file"
read_managed_artifact digest artifact unreadable = refused "artifact can no longer be read"
read_managed_artifact digest artifact (content bytes) =
    if not (nat_eq (length bytes) artifact.size_bytes)
    then refused "artifact changed after it was staged"
    else if not (is_empty artifact.sha256) && not (digest bytes == artifact.sha256)
    then refused "artifact changed after it was staged"
    else read bytes

-- `stable_artifact_identity`, for utf-8 and the hash
unfoldable pub stable_artifact_identity :
    (String → List ℕ) → (List ℕ → String) → OutboundMessage → OutboundArtifact → Option String
unfolding join strip decimal
stable_artifact_identity utf8 digest message artifact =
    let delivery = strip (text_field "delivery_id" message.metadata) in
    let content = if is_empty artifact.sha256 then artifact.local_path else artifact.sha256 in
    let parts =
      delivery
      ∷ content
      ∷ decimal (suc artifact.size_bytes) artifact.size_bytes
      ∷ artifact.filename
      ∷ [] in
    if is_empty delivery then none else some (digest (utf8 (join "\0" parts)))
