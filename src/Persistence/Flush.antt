-- ===== src/Persistence/Flush.antt =====
-- What a flush that is not disturbed by other saves brings into the file.
use imcodex.Prelude.{
  ℕ, ◌+◌, ◌≤◌, ◌≡◌, refl, sym, Bool, true, false, Option, none, some, List, [], ◌∷◌, ◌++◌, arith,
  keep, All, All-append, All-keep, All-weaken, subst, if◌then◌else◌, leb, ltb, Bool-cases, inl, inr,
  ◌⊎◌,
}
use imcodex.Persistence.{
  Writer, Io, written, failed, Outcome, returned, raised, next_revision, enqueue, save,
  write_serialized_state, discard_superseded_write_failures, note_failure, take_queued,
  finish_round, outstanding, run_background_writer, raised_if_any, flush_pending_writes,
}
use imcodex.Persistence.System.Invariant.{Ending, superseded, lands, raises, write-Ending}

abbrev NotAbove : {P : Type 0} → ℕ → Option (ℕ × P) → Type 0
NotAbove n none = Unit
NotAbove n (some (r, _)) = r ≤ n

-- A writer with a file, under a running loop, whose revisions are all numbered.
pub record IsWriter {P : Type 0} (w : Writer P) : Type 0 where
  pub path : w.state_path ≡ true
  pub loop : w.loop_running ≡ true
  pub persisted : w.persisted_state_revision ≤ w.next_state_revision
  pub numbered : All (λ r. r ≤ w.next_state_revision) w.failures
  pub queued : NotAbove w.next_state_revision w.queued_state_write

none_above : (n : ℕ) (xs : List ℕ) → All (λ r. r ≤ n) xs → keep (λ r. ltb n r) xs ≡ []
none_above n [] h = refl
none_above n (x ∷ xs) h = ground (arith, h.0, none_above n xs h.1)

-- What the background writer does with a queued write that is newer than the file.
module _ {P : Type 0} (r : ℕ) (x : P) (w : Writer P) where
  abbrev with_queue : Writer P
  with_queue = record w { queued_state_write = some (r, x); background_writer = true }

  abbrev emptied : Writer P
  emptied = record w { queued_state_write = none; background_writer = true }

  abbrev landed : Writer P
  landed = record w {
    queued_state_write = none;
    background_writer = false;
    persisted_state_revision = r;
    file = some x;
    failures = keep (λ q. ltb r q) w.failures;
  }

  abbrev lost : Writer P
  lost = record w {
    queued_state_write = none;
    background_writer = false;
    failures = keep (λ q. ltb w.persisted_state_revision q) (w.failures ++ r ∷ []);
  }

  module _ (path : w.state_path ≡ true) (newer : leb r w.persisted_state_revision ≡ false) where
    pub run-written : run_background_writer written with_queue ≡ landed
    unfolding run_background_writer finish_round discard_superseded_write_failures
    run-written = rw (newer, path, newer, run_background_writer, write_serialized_state) refl

    pub run-failed : run_background_writer failed with_queue ≡ lost
    unfolding run_background_writer finish_round discard_superseded_write_failures note_failure
    run-failed = rw (newer, path, newer, run_background_writer, write_serialized_state) refl

kept_last :
    (f : ℕ → Bool) (xs : List ℕ) (n : ℕ) → f n ≡ true → keep f (xs ++ n ∷ []) ≡ keep f xs ++ n ∷ []
kept_last f [] n h = rw h refl
kept_last f (x ∷ xs) n h = ground (arith, kept_last f xs n h)

some_raised : (xs : List ℕ) (n : ℕ) → raised_if_any (xs ++ n ∷ []) ≡ raised
some_raised [] n = refl
some_raised (x ∷ xs) n = refl

module _ {P : Type 0} (x : P) (w : Writer P) (i : IsWriter w) where
  pub save-enqueues :
      save x w
      ≡ enqueue x
          (w.next_state_revision + 1)
          (record w { next_state_revision = w.next_state_revision + 1 })
  unfolding save next_revision
  save-enqueues = rw (i.path, i.loop, save) refl

  pub save-IsWriter : IsWriter (save x w)
  unfolding enqueue
  save-IsWriter = rw save-enqueues (record {
    path = i.path;
    loop = i.loop;
    persisted = omega (arith, i.persisted);
    numbered =
        All-weaken (λ r. r ≤ w.next_state_revision) (λ r. r ≤ w.next_state_revision + 1)
          (λ r h. omega arith) w.failures i.numbered;
    queued = omega arith;
  })

  -- A write that the file system makes brings the state that was saved last into the file.
  pub flush-written :
      ((flush_pending_writes written (save x w)).1 ≡ returned)
      × ((flush_pending_writes written (save x w)).0.file ≡ some x)
  unfolding enqueue flush_pending_writes discard_superseded_write_failures outstanding
  flush-written =
      let n = w.next_state_revision + 1 in
      let kept = none_above n w.failures (
        All-weaken (λ r. r ≤ w.next_state_revision) (λ r. r ≤ n) (λ r h. omega arith) w.failures
          i.numbered) in
      rw
        (
          save-enqueues,
          run-written n x (record w { next_state_revision = n }) i.path
              (ground (arith, i.persisted)),
          kept,
        )
        (refl, refl)

  -- If it cannot make it, the flush raises.
  pub flush-failed : (flush_pending_writes failed (save x w)).1 ≡ raised
  unfolding enqueue flush_pending_writes discard_superseded_write_failures outstanding
  flush-failed =
      let n = w.next_state_revision + 1 in
      rw
        (
          save-enqueues,
          run-failed n x (record w { next_state_revision = n }) i.path
              (ground (arith, i.persisted)),
        )
        (let newer : ℕ → Bool = λ r. ltb w.persisted_state_revision r in
          let passes : newer n ≡ true = ground (arith, i.persisted) in
          rw
            (
              kept_last newer w.failures n passes,
              kept_last newer (keep newer w.failures) n passes,
              kept_last newer (keep newer (keep newer w.failures)) n passes,
            )
            (some_raised (keep newer (keep newer (keep newer w.failures))) n))

module _ {P : Type 0} where
  discard-IsWriter : (w : Writer P) → IsWriter w → IsWriter (discard_superseded_write_failures w)
  unfolding discard_superseded_write_failures
  discard-IsWriter w i = record {
    path = i.path;
    loop = i.loop;
    persisted = i.persisted;
    numbered = All-keep (λ r. r ≤ w.next_state_revision) _ w.failures i.numbered;
    queued = i.queued;
  }

  note-IsWriter :
      (r : ℕ) (w : Writer P) → r ≤ w.next_state_revision → IsWriter w → IsWriter (note_failure r w)
  unfolding note_failure
  note-IsWriter r w l i = record {
    path = i.path;
    loop = i.loop;
    persisted = i.persisted;
    numbered = All-append (λ r. r ≤ w.next_state_revision) w.failures (r ∷ []) i.numbered (l, tt);
    queued = i.queued;
  }

  finish-IsWriter :
      (o : Outcome) (r : ℕ) (w : Writer P)
      → r ≤ w.next_state_revision
      → IsWriter w
      → IsWriter (finish_round o r w)
  unfolding finish_round note_failure
  finish-IsWriter returned r w l i = discard-IsWriter w i
  finish-IsWriter raised r w l i = discard-IsWriter (note_failure r w) (note-IsWriter r w l i)

  ended-IsWriter :
      (r : ℕ) (x : P) (w : Writer P) (o : Writer P × Outcome)
      → r ≤ w.next_state_revision
      → IsWriter w
      → Ending r x w o
      → IsWriter (finish_round o.1 r o.0)
  ended-IsWriter r x w o l i (superseded h) = finish-IsWriter returned r w l i
  ended-IsWriter r x w o l i (lands h) = finish-IsWriter returned r o.0 l (record {
    path = i.path;
    loop = i.loop;
    persisted = l;
    numbered = i.numbered;
    queued = i.queued;
  })
  ended-IsWriter r x w o l i (raises h) = finish-IsWriter raised r w l i

  closed-IsWriter : (w : Writer P) → IsWriter w → IsWriter (record w { background_writer = false })
  closed-IsWriter w i = record {
    path = i.path;
    loop = i.loop;
    persisted = i.persisted;
    numbered = i.numbered;
    queued = i.queued;
  }

  emptied-IsWriter : (w : Writer P) → IsWriter w → IsWriter (record w { queued_state_write = none })
  emptied-IsWriter w i = record {
    path = i.path;
    loop = i.loop;
    persisted = i.persisted;
    numbered = i.numbered;
    queued = tt;
  }

  -- The end of `run_background_writer` for the write that it takes
  abbrev finish_taken : Io → Writer P → Option (ℕ × P) → Writer P
  finish_taken io taken none = record taken { background_writer = false }
  finish_taken io taken (some (r, x)) =
      let (ended, outcome) = write_serialized_state x r io taken in
      record (finish_round outcome r ended) { background_writer = false }

  finish_taken-IsWriter :
      (io : Io) (taken : Writer P) (write : Option (ℕ × P))
      → NotAbove taken.next_state_revision write
      → IsWriter taken
      → IsWriter (finish_taken io taken write)
  finish_taken-IsWriter io taken none l i = closed-IsWriter taken i
  finish_taken-IsWriter io taken (some (r, x)) l i =
      closed-IsWriter
        (finish_round (write_serialized_state x r io taken).1 r
          (write_serialized_state x r io taken).0)
        (ended-IsWriter r x taken (write_serialized_state x r io taken) l i
          (write-Ending r x io taken i.path))

  -- `take_queued` on what is in the queue
  abbrev from_queue : Writer P → Option (ℕ × P) → Option (ℕ × P) × Writer P
  from_queue w none = (none, w)
  from_queue w (some (r, x)) = (
    (if leb r w.persisted_state_revision then none else some (r, x)),
    record w { queued_state_write = none },
  )

  abbrev Taken : Option (ℕ × P) × Writer P → Type 0
  Taken t = NotAbove t.1.next_state_revision t.0 × IsWriter t.1

  take-IsWriter : (w : Writer P) → IsWriter w → Taken (take_queued w)
  unfolding take_queued
  take-IsWriter w i = taken w.queued_state_write i.queued
    where
      taken : (q : Option (ℕ × P)) → NotAbove w.next_state_revision q → Taken (from_queue w q)
      taken none l = (tt, i)
      taken (some (r, x)) l = (ground arith, emptied-IsWriter w i)

  pub flush-IsWriter :
      (io : Io) (w : Writer P) → IsWriter w → IsWriter (flush_pending_writes io w).0
  unfolding flush_pending_writes run_background_writer
  flush-IsWriter io w i = discard-IsWriter _ (ran (Bool-cases w.background_writer))
    where
      ran :
          (w.background_writer ≡ true) ⊎ (w.background_writer ≡ false)
          → IsWriter (if w.background_writer then run_background_writer io w else w)
      ran (inl h) =
          subst (λ (b : Bool). IsWriter (if b then run_background_writer io w else w)) (sym h)
            (finish_taken-IsWriter io (take_queued w).1 (take_queued w).0 (take-IsWriter w i).0
              (take-IsWriter w i).1)
      ran (inr h) =
          subst (λ (b : Bool). IsWriter (if b then run_background_writer io w else w)) (sym h) i
