-- ===== src/Persistence/System/Durable.antt =====
-- What a reader of the file, and a caller of `flush_pending_writes`, may rely on.
use imcodex.Prelude.{
  ℕ, ◌≤◌, ◌≡◌, ap, false, none, List, [], arith, contains, number_eq, ltb, inl, inr, lt→ltb,
}
use native.Mathlib.Decide.{dec_le}
use imcodex.Persistence.{
  Writer, Outcome, write_serialized_state, outstanding, take_queued, next_revision,
}
use imcodex.Persistence.System.{
  System, do_save, do_take, do_finish, do_exit, do_begin, do_end, Step, saves, takes, finishes,
  exits, begins, ends, Steps, here, next,
}
use imcodex.Persistence.System.Invariant.{
  revision_of, IsSystem, IsOwed, IsStored, Ending, superseded, lands, raises, write-Ending,
  save-queues, do_save-IsSystem, do_begin-IsSystem, do_exit-IsSystem,
}
use imcodex.Persistence.System.Rounds.{
  contains-keep, do_end-IsSystem, do_finish-IsSystem, do_take-IsSystem, finish_round-frame,
}

module _ {P : Type 0} where
  pub Step-IsSystem : {s t : System P} → Step s t → IsSystem s → IsSystem t
  Step-IsSystem {s} (saves x) i = do_save-IsSystem x s i
  Step-IsSystem {s} (takes b a q) i = do_take-IsSystem s b a i
  Step-IsSystem {s} (finishes r x io a) i = do_finish-IsSystem r x io s a i
  Step-IsSystem {s} (exits b a q) i = do_exit-IsSystem s a q i
  Step-IsSystem {s} (begins x d) i = do_begin-IsSystem x s i
  Step-IsSystem {s} (ends r x io d) i = do_end-IsSystem r x io s d i

  pub Steps-IsSystem : {s t : System P} → Steps s t → IsSystem s → IsSystem t
  Steps-IsSystem here i = i
  Steps-IsSystem (next r st) i = Step-IsSystem st (Steps-IsSystem r i)

  -- No step takes the persisted revision back.
  Ending-le :
      {r : ℕ} {x : P} {w : Writer P} {o : Writer P × Outcome}
      → Ending r x w o
      → w.persisted_state_revision ≤ o.0.persisted_state_revision
  Ending-le (superseded l) = omega arith
  Ending-le (lands l) = omega arith
  Ending-le (raises l) = omega arith

  Step-le :
      {s t : System P}
      → Step s t
      → IsSystem s
      → s.writer.persisted_state_revision ≤ t.writer.persisted_state_revision
  unfolding do_save do_take do_finish do_exit do_begin do_end take_queued next_revision
  Step-le {s} (saves x) i = rw (save-queues x s.writer i.path i.loop) (omega arith)
  Step-le {s} (takes b a q) i = ground arith
  Step-le {s} (finishes r x io a) i =
      let o = write_serialized_state x r io s.writer in
      omega (
        arith,
        Ending-le (write-Ending r x io s.writer i.path),
        ap (λ (w : Writer P). w.persisted_state_revision) (finish_round-frame o.1 r o.0),
      )
  Step-le {s} (exits b a q) i = omega arith
  Step-le {s} (begins x d) i = omega arith
  Step-le {s} (ends r x io d) i = Ending-le (write-Ending r x io s.writer i.path)

  reached :
      (t : System P)
      → (t.writer.queued_state_write ≡ none) × (t.active ≡ none)
      → outstanding t.writer ≡ []
      → IsOwed t
      → t.saved ≤ t.writer.persisted_state_revision
  unfolding outstanding
  reached t n o (inl h) = h
  reached t n o (inr (inl h)) = cc (ap revision_of n.0, h)
  reached t n o (inr (inr (inl h))) = cc (ap revision_of n.1, h)
  reached t n o (inr (inr (inr h))) = elim (dec_le t.saved t.writer.persisted_state_revision) [
    | yes l ↦ l
    | no l ↦ absurd (
        ground (
          arith,
          ap (λ (xs : List ℕ). contains xs t.saved) o,
          contains-keep (λ q. ltb t.writer.persisted_state_revision q) t.writer.failures t.saved h
              (lt→ltb t.writer.persisted_state_revision t.saved (omega arith)),
        ))
  ]

  -- Whatever is saved, committed, written and failed in whatever order, the revision in the file
  -- never goes back, and the file holds the snapshot that was taken under its revision.
  pub file-forward :
      {s t : System P}
      → Steps s t
      → IsSystem s
      → (s.writer.persisted_state_revision ≤ t.writer.persisted_state_revision)
        × IsStored t.issued t.writer
  file-forward {s} r i = (forward r, (Steps-IsSystem r i).stored)
    where
      forward :
          {t : System P}
          → Steps s t
          → s.writer.persisted_state_revision ≤ t.writer.persisted_state_revision
      forward here = omega arith
      forward (next r st) = omega (arith, forward r, Step-le st (Steps-IsSystem r i))

  -- When the background writer has ended and `flush_pending_writes` finds no failure to raise, the
  -- last saved state, or one taken after it, is in the file.
  pub flush-durable :
      {s t : System P}
      → Steps s t
      → IsSystem s
      → t.writer.background_writer ≡ false
      → outstanding t.writer ≡ []
      → (t.saved ≤ t.writer.persisted_state_revision) × IsStored t.issued t.writer
  flush-durable {t} r i b o =
      let j = Steps-IsSystem r i in (reached t (j.idle b) o j.owed, j.stored)
