-- ===== src/Persistence/System/Invariant.antt =====
-- The invariant of the writer and of the writes in progress, and that every step keeps it.
use imcodex.Prelude.{
  ℕ, ◌+◌, ◌≤◌, ◌<◌, ◌≡◌, refl, true, false, Option, none, some, arith, contains, number_eq, leb,
  ◌⊎◌, inl, inr, Bool-cases, nat_eq, nat_eq_iff,
}
use imcodex.Dict
use imcodex.Dict.{Dict}
use imcodex.Dict.Laws.{get-put, get-put_self}
use imcodex.Persistence.{
  Writer, Io, written, failed, Outcome, returned, raised, next_revision, save, enqueue,
  write_serialized_state,
}
use imcodex.Persistence.System.{System, issue, do_save, do_exit, do_begin}

module _ {P : Type 0} where
  abbrev pub revision_of : Option (ℕ × P) → Option ℕ
  revision_of none = none
  revision_of (some (r, x)) = some r

  -- A write that is queued or in progress carries the snapshot of its revision.
  abbrev pub IsIssued : Dict ℕ P → Option (ℕ × P) → Type 0
  IsIssued d none = Unit
  IsIssued d (some (r, x)) = Dict.get d r ≡ some x

  -- No revision above `n` has been issued.
  pub record IsFresh (d : Dict ℕ P) (n : ℕ) : Type 0 where
    pub at : (r : ℕ) (x : P) → Dict.get d r ≡ some x → r ≤ n

  -- The last save has reached the file or a later one has, or it is queued, is being written, or
  -- is noted as failed.
  abbrev pub IsOwed : System P → Type 0
  IsOwed s =
      (s.saved ≤ s.writer.persisted_state_revision)
      ⊎ (revision_of s.writer.queued_state_write ≡ some s.saved)
      ⊎ (revision_of s.active ≡ some s.saved)
      ⊎ (contains s.writer.failures s.saved ≡ true)

  -- The file holds the snapshot of the persisted revision, if anything has been written.
  abbrev pub IsStored : Dict ℕ P → Writer P → Type 0
  IsStored d w =
      (w.persisted_state_revision ≡ 0)
      ⊎ ((x : P) × (w.file ≡ some x) × (Dict.get d w.persisted_state_revision ≡ some x))

  abbrev pub IsIdle : System P → Type 0
  IsIdle s =
      s.writer.background_writer ≡ false → (s.writer.queued_state_write ≡ none) × (s.active ≡ none)

  pub record IsSystem (s : System P) : Type 0 where
    pub path : s.writer.state_path ≡ true
    pub loop : s.writer.loop_running ≡ true
    pub fresh : IsFresh s.issued s.writer.next_state_revision
    pub queued : IsIssued s.issued s.writer.queued_state_write
    pub active : IsIssued s.issued s.active
    pub direct : IsIssued s.issued s.direct
    pub stored : IsStored s.issued s.writer
    pub idle : IsIdle s
    pub owed : IsOwed s

  module _ (d : Dict ℕ P) (n : ℕ) (x : P) (fresh : IsFresh d n) where
    -- Issuing a new revision keeps what has been issued.
    get-issued :
        (r : ℕ) (y : P) → Dict.get d r ≡ some y → Dict.get (Dict.put d (n + 1) x) r ≡ some y
    get-issued r y h = ground (arith, get-put d (n + 1) r x, fresh.at r y h)

    IsFresh-put : IsFresh (Dict.put d (n + 1) x) (n + 1)
    IsFresh-put = record {
      at = λ r y h. elim (Bool-cases (nat_eq (n + 1) r)) [
        | inl same ↦ omega (arith, (nat_eq_iff (n + 1) r).0 same)
        | inr other ↦ omega (arith, fresh.at r y (rw (get-put d (n + 1) r x, other) at h))
      ];
    }

    IsIssued-put : (o : Option (ℕ × P)) → IsIssued d o → IsIssued (Dict.put d (n + 1) x) o
    IsIssued-put none h = tt
    IsIssued-put (some (r, y)) h = get-issued r y h

    IsStored-put : (w : Writer P) → IsStored d w → IsStored (Dict.put d (n + 1) x) w
    IsStored-put w (inl h) = inl h
    IsStored-put w (inr (y, f, g)) = inr (y, f, get-issued w.persisted_state_revision y g)

  abbrev pub landed : ℕ → P → Writer P → Writer P
  landed r x w = record w { file = some x; persisted_state_revision = r }

  -- How a write ends: it is superseded, it lands, or it raises.
  pub data Ending (r : ℕ) (x : P) (w : Writer P) : Writer P × Outcome → Type 0 where
    superseded : r ≤ w.persisted_state_revision → Ending r x w (w, returned)
    lands : w.persisted_state_revision < r → Ending r x w (landed r x w, returned)
    raises : w.persisted_state_revision < r → Ending r x w (w, raised)

  pub write-Ending :
      (r : ℕ) (x : P) (io : Io) (w : Writer P)
      → w.state_path ≡ true
      → Ending r x w (write_serialized_state x r io w)
  unfolding write_serialized_state
  write-Ending r x written w h = elim (Bool-cases (leb r w.persisted_state_revision)) [
    | inl old ↦ rw (h, old) (superseded (ground arith))
    | inr new ↦ rw (h, new) (lands (ground arith))
  ]
  write-Ending r x failed w h = elim (Bool-cases (leb r w.persisted_state_revision)) [
    | inl old ↦ rw (h, old) (superseded (ground arith))
    | inr new ↦ rw (h, new) (raises (ground arith))
  ]

  -- The writer after `_save`, which queues under a running loop.
  abbrev pub after_save : P → Writer P → Writer P
  after_save x w = record w {
    next_state_revision = w.next_state_revision + 1;
    queued_state_write = some (w.next_state_revision + 1, x);
    background_writer = true;
  }

  pub save-queues :
      (x : P) (w : Writer P)
      → w.state_path ≡ true
      → w.loop_running ≡ true
      → save x w ≡ after_save x w
  unfolding save next_revision enqueue
  save-queues x w h k = rw (h, k)

  pub do_save-IsSystem : (x : P) (s : System P) → IsSystem s → IsSystem (do_save x s)
  unfolding do_save issue
  do_save-IsSystem x s i =
      let n = s.writer.next_state_revision in
      rw (save-queues x s.writer i.path i.loop) (record {
        path = i.path;
        loop = i.loop;
        fresh = IsFresh-put s.issued n x i.fresh;
        queued = get-put_self s.issued (n + 1) x;
        active = IsIssued-put s.issued n x i.fresh s.active i.active;
        direct = IsIssued-put s.issued n x i.fresh s.direct i.direct;
        stored = IsStored-put s.issued n x i.fresh (after_save x s.writer) i.stored;
        idle = λ h. cc;
        owed = inr (inl refl);
      })

  pub do_begin-IsSystem : (x : P) (s : System P) → IsSystem s → IsSystem (do_begin x s)
  unfolding do_begin issue next_revision
  do_begin-IsSystem x s i =
      let n = s.writer.next_state_revision in
      record {
        path = i.path;
        loop = i.loop;
        fresh = IsFresh-put s.issued n x i.fresh;
        queued = IsIssued-put s.issued n x i.fresh s.writer.queued_state_write i.queued;
        active = IsIssued-put s.issued n x i.fresh s.active i.active;
        direct = get-put_self s.issued (n + 1) x;
        stored = IsStored-put s.issued n x i.fresh s.writer i.stored;
        idle = i.idle;
        owed = i.owed;
      }

  pub do_exit-IsSystem :
      (s : System P)
      → s.active ≡ none
      → s.writer.queued_state_write ≡ none
      → IsSystem s
      → IsSystem (do_exit s)
  unfolding do_exit
  do_exit-IsSystem s h k i = record {
    path = i.path;
    loop = i.loop;
    fresh = i.fresh;
    queued = i.queued;
    active = i.active;
    direct = i.direct;
    stored = i.stored;
    idle = λ _. (k, h);
    owed = i.owed;
  }

  -- A write ends for the file.
  pub Ending-IsStored :
      (d : Dict ℕ P) (r : ℕ) (x : P) (w : Writer P) (o : Writer P × Outcome)
      → Ending r x w o
      → Dict.get d r ≡ some x
      → IsStored d w
      → IsStored d o.0
  Ending-IsStored d r x w _ (superseded l) h st = st
  Ending-IsStored d r x w _ (lands l) h st = inr (x, refl, h)
  Ending-IsStored d r x w _ (raises l) h st = st
