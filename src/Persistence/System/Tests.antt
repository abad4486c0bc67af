-- ===== src/Persistence/System/Tests.antt =====
-- A writer of snapshots on concrete sequences of steps.
use imcodex.Prelude.{ℕ, ◌≤◌, ◌≡◌, refl, true, false, none, some, [], arith, inl}
use imcodex.Dict
use imcodex.Persistence.{
  written, failed, next_revision, enqueue, save, write_serialized_state, take_queued,
  discard_superseded_write_failures, note_failure, finish_round, outstanding,
}
use imcodex.Persistence.System.{
  System, do_save, do_take, do_finish, do_exit, do_begin, do_end, saves, takes, finishes, exits,
  begins, ends, Steps, here, next,
}
use imcodex.Persistence.System.Invariant.{IsSystem, IsStored}
use imcodex.Persistence.System.Durable.{file-forward, flush-durable}

program : Unit {0}
unfolding next_revision enqueue save write_serialized_state take_queued
    discard_superseded_write_failures note_failure finish_round outstanding do_save do_take
    do_finish do_exit do_begin do_end Dict.get
program = tt

abbrev start : System ℕ
start = record {
  writer = record {
    state_path = true;
    loop_running = true;
    next_state_revision = 0;
    persisted_state_revision = 0;
    file = none;
    queued_state_write = none;
    background_writer = false;
    failures = [];
  };
  active = none;
  direct = none;
  issued = [];
  saved = 0;
}

start-IsSystem : IsSystem start
unfolding program
start-IsSystem = record {
  path = refl;
  loop = refl;
  fresh = record { at = λ r x h. absurd (ground arith) };
  queued = tt;
  active = tt;
  direct = tt;
  stored = inl refl;
  idle = λ i. (refl, refl);
  owed = inl (omega arith);
}

-- The first write fails while a second snapshot is queued, whose write then succeeds.
abbrev retried : System ℕ
retried =
    do_exit (
      do_finish 2 8 written
        (do_take (do_finish 1 7 failed (do_save 8 (do_take (do_save 7 start))))))

retried-Steps : Steps start retried
unfolding program
retried-Steps =
    next
      (next
        (next
          (next (next (next (next here (saves 7)) (takes refl refl refl)) (saves 8))
            (finishes 1 7 failed refl))
          (takes refl refl refl))
        (finishes 2 8 written refl))
      (exits refl refl refl)

-- A commit begins before a save, whose write lands first: the older write is dropped.
abbrev overtaken : System ℕ
overtaken = do_end 1 5 written (do_finish 2 6 written (do_take (do_save 6 (do_begin 5 start))))

overtaken-Steps : Steps start overtaken
unfolding program
overtaken-Steps =
    next
      (next (next (next (next here (begins 5 refl)) (saves 6)) (takes refl refl refl))
        (finishes 2 6 written refl))
      (ends 1 5 written refl)

files : (retried.writer.file ≡ some 8) × (overtaken.writer.file ≡ some 6)
unfolding program
files = (refl, refl)

flush-durable_example :
    (retried.saved ≤ retried.writer.persisted_state_revision)
    × IsStored retried.issued retried.writer
unfolding program
flush-durable_example = flush-durable retried-Steps start-IsSystem refl refl

file-forward_example :
    (start.writer.persisted_state_revision ≤ overtaken.writer.persisted_state_revision)
    × IsStored overtaken.issued overtaken.writer
file-forward_example = file-forward overtaken-Steps start-IsSystem
