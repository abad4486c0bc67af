-- ===== src/Persistence.antt =====
-- store.py: how a snapshot of the state reaches the file. `P` is the serialized state. The proofs
-- are in the modules below.
pub mod System
pub mod Flush
use imcodex.Prelude.{
  ℕ, zero, suc, ◌+◌, Bool, true, false, Option, none, some, List, [], ◌∷◌, ◌++◌, leb, ltb,
  if◌then◌else◌, Eq, String, keep, ◌==◌, contains, string_eq, not,
}
use imcodex.Dict
use imcodex.Dict.{Dict}

-- The part of `ConversationStore` that numbers, queues and writes snapshots. `failures` holds the
-- revisions of `_background_write_failures`.
pub record Writer (P : Type 0) : Type 0 where
  pub state_path : Bool
  pub loop_running : Bool
  pub next_state_revision : ℕ
  pub persisted_state_revision : ℕ
  pub file : Option P
  pub queued_state_write : Option (ℕ × P)
  pub background_writer : Bool
  pub failures : List ℕ

-- How the file system answers one write: all calls succeed, or one raises.
pub data Io : Type 0 where
  written failed : Io

-- What `_write_serialized_state` does with its exception.
pub data Outcome : Type 0 where
  returned raised : Outcome

-- `flush_pending_writes` raises if a failure is outstanding.
abbrev pub raised_if_any : List ℕ → Outcome
raised_if_any [] = returned
raised_if_any (_ ∷ _) = raised

module _ {P : Type 0} where
  -- `_snapshot_state`: the number of the new revision
  unfoldable pub next_revision : Writer P → Writer P × ℕ
  next_revision w =
      (record w { next_state_revision = w.next_state_revision + 1 }, w.next_state_revision + 1)

  -- `_write_serialized_state`: the slow I/O ends in `io`, then the revisions are compared
  unfoldable pub write_serialized_state : P → ℕ → Io → Writer P → Writer P × Outcome
  write_serialized_state serialized revision io w =
      if not w.state_path then (w, returned) else elim io [
        | written ↦ if leb revision w.persisted_state_revision then (w, returned) else (
          record w { file = some serialized; persisted_state_revision = revision },
          returned,
        )
        | failed ↦ if leb revision w.persisted_state_revision then (w, returned) else (w, raised)
      ]

  -- `_save` under a running event loop: the newest snapshot replaces a queued one
  unfoldable pub enqueue : P → ℕ → Writer P → Writer P
  enqueue serialized revision w = record w {
    queued_state_write = some (revision, serialized);
    background_writer = true;
  }

  -- `_save`. Without a running loop the write is made at once, here by a file system that works.
  unfoldable pub save : P → Writer P → Writer P
  unfolding next_revision enqueue write_serialized_state
  save serialized w =
      if not w.state_path
      then w
      else let (numbered, revision) = next_revision w in
        if w.loop_running
        then enqueue serialized revision numbered
        else (write_serialized_state serialized revision written numbered).0

  -- `_discard_superseded_write_failures`
  unfoldable pub discard_superseded_write_failures : Writer P → Writer P
  discard_superseded_write_failures w = record w {
    failures = keep (λ r. ltb w.persisted_state_revision r) w.failures;
  }

  -- `_background_write_failures[revision] = exc`
  unfoldable pub note_failure : ℕ → Writer P → Writer P
  note_failure revision w = record w { failures = w.failures ++ revision ∷ [] }

  -- `_run_background_writer`, the start of one round: the queued write, unless it is superseded
  unfoldable pub take_queued : Writer P → Option (ℕ × P) × Writer P
  take_queued w = elim w.queued_state_write [
    | none ↦ (none, w)
    | some (revision, serialized) ↦ (
      (if leb revision w.persisted_state_revision then none else some (revision, serialized)),
      record w { queued_state_write = none },
    )
  ]

  -- The end of that round, after the write
  unfoldable pub finish_round : Outcome → ℕ → Writer P → Writer P
  unfolding note_failure discard_superseded_write_failures
  finish_round returned revision w = discard_superseded_write_failures w
  finish_round raised revision w = discard_superseded_write_failures (note_failure revision w)

  -- The revisions for which `flush_pending_writes` raises, once the background writer has ended
  unfoldable pub outstanding : Writer P → List ℕ
  outstanding w = keep (λ r. ltb w.persisted_state_revision r) w.failures

  -- `_run_background_writer` from its start to its end while nothing else is saved: one write, if one
  -- is queued, which ends in `io`
  unfoldable pub run_background_writer : Io → Writer P → Writer P
  unfolding take_queued write_serialized_state finish_round
  run_background_writer io w =
      let (write, taken) = take_queued w in
      elim write [
        | none ↦ record taken { background_writer = false }
        | some (revision, serialized) ↦
            let (ended, outcome) = write_serialized_state serialized revision io taken in
            record (finish_round outcome revision ended) { background_writer = false }
      ]

  unfoldable pub flush_pending_writes : Io → Writer P → Writer P × Outcome
  unfolding run_background_writer discard_superseded_write_failures outstanding
  flush_pending_writes io w =
      let ended = if w.background_writer then run_background_writer io w else w in
      let kept = discard_superseded_write_failures ended in (kept, raised_if_any (outstanding kept))
