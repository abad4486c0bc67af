-- ===== src/Persistence/System.antt =====
-- store.py: the writer of snapshots beside the writes that are in progress, as a step relation.
-- A write runs in a thread while the event loop goes on, so that saves and commits fall between
-- its start and its end in any order.
pub mod Invariant
pub mod Rounds
pub mod Durable
mod Tests
use imcodex.Prelude.{ℕ, ◌+◌, ◌≡◌, Bool, true, false, Option, none, some, List, [], ◌∷◌, is_some}
use imcodex.Dict
use imcodex.Dict.{Dict}
use imcodex.Prelude.{number_eq}
use imcodex.Persistence.{
  Writer, Io, Outcome, next_revision, save, write_serialized_state, take_queued, finish_round,
}

-- `active` is the write of the background writer, `direct` that of a commit, which holds the
-- persistence lock. `issued` and `saved` are there for the statements alone: every snapshot under
-- its revision, and the revision of the last `_save`.
pub record System (P : Type 0) : Type 0 where
  pub writer : Writer P
  pub active : Option (ℕ × P)
  pub direct : Option (ℕ × P)
  pub issued : Dict ℕ P
  pub saved : ℕ

module _ {P : Type 0} where
  unfoldable pub issue : P → System P → System P
  issue x s = record s { issued = Dict.put s.issued (s.writer.next_state_revision + 1) x }

  unfoldable pub do_save : P → System P → System P
  unfolding issue
  do_save x s = record (issue x s) {
    writer = save x s.writer;
    saved = s.writer.next_state_revision + 1;
  }

  unfoldable pub do_take : System P → System P
  do_take s = let (write, w) = take_queued s.writer in record s { writer = w; active = write }

  unfoldable pub do_finish : ℕ → P → Io → System P → System P
  do_finish revision x io s =
      let (w, outcome) = write_serialized_state x revision io s.writer in
      record s { writer = finish_round outcome revision w; active = none }

  unfoldable pub do_exit : System P → System P
  do_exit s = record s { writer = record (s.writer) { background_writer = false } }

  unfoldable pub do_begin : P → System P → System P
  unfolding issue
  do_begin x s =
      let (w, revision) = next_revision s.writer in
      record (issue x s) { writer = w; direct = some (revision, x) }

  unfoldable pub do_end : ℕ → P → Io → System P → System P
  do_end revision x io s = record s {
    writer = (write_serialized_state x revision io s.writer).0;
    direct = none;
  }

  -- What may happen next. The background writer takes a write only while it has none.
  pub data Step (s : System P) : System P → Type 0 where
    saves : (x : P) → Step s (do_save x s)
    takes :
        s.writer.background_writer ≡ true
        → s.active ≡ none
        → is_some s.writer.queued_state_write ≡ true
        → Step s (do_take s)
    finishes :
        (revision : ℕ) (x : P) (io : Io)
        → s.active ≡ some (revision, x)
        → Step s (do_finish revision x io s)
    exits :
        s.writer.background_writer ≡ true
        → s.active ≡ none
        → s.writer.queued_state_write ≡ none
        → Step s (do_exit s)
    begins : (x : P) → s.direct ≡ none → Step s (do_begin x s)
    ends :
        (revision : ℕ) (x : P) (io : Io)
        → s.direct ≡ some (revision, x)
        → Step s (do_end revision x io s)

  pub data Steps (s : System P) : System P → Type 0 where
    here : Steps s s
    next : {t u : System P} → Steps s t → Step t u → Steps s u
