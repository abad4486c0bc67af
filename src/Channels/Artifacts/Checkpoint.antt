-- ===== src/Channels/Artifacts/Checkpoint.antt =====
-- Where a batch of artifacts stops, and what the message says of it then.
use imcodex.Prelude.{
  ℕ, suc, String, ◌≡◌, refl, sym, ap, ◌∙◌, true, List, [], ◌∷◌, ◌++◌, length, drop, append_assoc,
  append-nil,
}
use imcodex.Models.Messages.{OutboundArtifact, OutboundMessage}
use imcodex.Persistence.{Outcome, returned, raised}
use imcodex.Channels.Artifacts.{
  Sent, accepted, permanent, transient, receipt_or_empty, failure_of, append_artifact_failures,
  record_artifact_delivery, record_artifact_failure, deliver_from, deliver_artifact_batch,
}
use imcodex.Channels.Artifacts.Receipts.{
  is_listed, receipts, delivery-Gains, failure-Gains, append_failures-receipts,
}

-- What the channel answers from an index on, up to the first failure that is not permanent: the path
-- of each artifact and its status
unfoldable pub settled :
    (ℕ → OutboundArtifact → Sent) → ℕ → List OutboundArtifact → List (String × String)
settled send index [] = []
settled send index (artifact ∷ rest) = elim (send index artifact) [
  | accepted receipt ↦ (artifact.local_path, "delivered") ∷ settled send (suc index) rest
  | permanent error ↦ (artifact.local_path, "failed") ∷ settled send (suc index) rest
  | transient ↦ []
]

-- A batch raises exactly if artifacts are left.
abbrev pub outcome_with : List OutboundArtifact → Outcome
outcome_with [] = returned
outcome_with (_ ∷ _) = raised

-- What is left of the artifacts after those that are settled, with the receipts of these
abbrev IsCheckpoint :
    List OutboundArtifact
    → List (String × String)
    → OutboundMessage
    → OutboundMessage × Outcome
    → Type 0
IsCheckpoint artifacts done before (after, outcome) =
    (after.artifacts ≡ drop (length done) artifacts)
    × (receipts after ≡ receipts before ++ done)
    × (outcome ≡ outcome_with (drop (length done) artifacts))

-- One settled artifact, and the rest of the batch
settle-IsCheckpoint :
    (artifact : OutboundArtifact) (status : String) (rest : List OutboundArtifact)
    (done : List (String × String)) (before middle : OutboundMessage)
    (r : OutboundMessage × Outcome)
    → receipts middle ≡ receipts before ++ (artifact.local_path, status) ∷ []
    → IsCheckpoint rest done middle r
    → IsCheckpoint (artifact ∷ rest) ((artifact.local_path, status) ∷ done) before r
settle-IsCheckpoint artifact status rest done before middle r gained (left, told, ends) = (
  left,
  told
      ∙ ap (λ (xs : List (String × String)). xs ++ done) gained
      ∙ append_assoc (receipts before) ((artifact.local_path, status) ∷ []) done,
  ends,
)

-- The failures are appended last, and leave the receipts and the artifacts alone.
append_failures-artifacts :
    (failures : List String) (message : OutboundMessage)
    → (append_artifact_failures failures message).artifacts ≡ message.artifacts
unfolding append_artifact_failures
append_failures-artifacts [] message = refl
append_failures-artifacts (failure ∷ failures) message = refl

module _ (send : ℕ → OutboundArtifact → Sent) where
  -- The rest of the batch stops at its checkpoint, whatever is noted before.
  abbrev AreCheckpoints : ℕ → List OutboundArtifact → Type 0
  AreCheckpoints index artifacts =
      (failures : List String) (message : OutboundMessage)
      → is_listed message ≡ true
      → IsCheckpoint artifacts (settled send index artifacts) message
          (deliver_from send index artifacts failures message)

  deliver-last : (index : ℕ) → AreCheckpoints index []
  unfolding deliver_from settled
  deliver-last index failures message l = (
    append_failures-artifacts failures (record message { artifacts = [] }),
    append_failures-receipts failures (record message { artifacts = [] })
        ∙ sym (append-nil (receipts message)),
    refl,
  )

  deliver-next :
      (index : ℕ) (artifact : OutboundArtifact) (rest : List OutboundArtifact) (answer : Sent)
      → send index artifact ≡ answer
      → AreCheckpoints (suc index) rest
      → AreCheckpoints index (artifact ∷ rest)
  unfolding deliver_from settled
  deliver-next index artifact rest (accepted receipt) e more failures message l =
      let next = record_artifact_delivery artifact (receipt_or_empty receipt) message in
      let (listed, gained) = delivery-Gains artifact (receipt_or_empty receipt) message l in
      rw (e, settled, deliver_from)
        (settle-IsCheckpoint artifact "delivered" rest (settled send (suc index) rest) message
          (record next { artifacts = rest })
          (deliver_from send (suc index) rest failures (record next { artifacts = rest })) gained
          (more failures (record next { artifacts = rest }) listed))
  deliver-next index artifact rest (permanent error) e more failures message l =
      let next = record_artifact_failure artifact error message in
      let (listed, gained) = failure-Gains artifact error message l in
      rw (e, settled, deliver_from)
        (settle-IsCheckpoint artifact "failed" rest (settled send (suc index) rest) message
          (record next { artifacts = rest })
          (deliver_from send (suc index) rest (failures ++ failure_of artifact error ∷ [])
            (record next { artifacts = rest }))
          gained
          (more (failures ++ failure_of artifact error ∷ []) (record next { artifacts = rest })
            listed))
  deliver-next index artifact rest transient e more failures message l =
      rw (e, settled, deliver_from)
        (
          refl,
          append_failures-receipts failures message ∙ sym (append-nil (receipts message)),
          refl,
        )

  deliver_from-IsCheckpoint :
      (index : ℕ) (artifacts : List OutboundArtifact) → AreCheckpoints index artifacts
  deliver_from-IsCheckpoint index [] = deliver-last index
  deliver_from-IsCheckpoint index (artifact ∷ rest) =
      deliver-next index artifact rest (send index artifact) refl
        (deliver_from-IsCheckpoint (suc index) rest)

-- A batch settles the artifacts in order up to the first failure that is not permanent. Each of these
-- has a receipt with its status behind the receipts that were there, the others are left on the message
-- in their order, and the batch raises exactly if some are left. This holds if the receipts were a
-- list or missing.
pub batch-checkpoint :
    (send : ℕ → OutboundArtifact → Sent) (message : OutboundMessage)
    → is_listed message ≡ true
    → let done = settled send 0 message.artifacts in
      let left = drop (length done) message.artifacts in
      ((deliver_artifact_batch send message).0.artifacts ≡ left)
      × (receipts (deliver_artifact_batch send message).0 ≡ receipts message ++ done)
      × ((deliver_artifact_batch send message).1 ≡ outcome_with left)
unfolding deliver_artifact_batch
batch-checkpoint send message l = deliver_from-IsCheckpoint send 0 message.artifacts [] message l
