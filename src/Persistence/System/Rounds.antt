-- ===== src/Persistence/System/Rounds.antt =====
-- The ends of the writes, and the rounds of the background writer, keep the invariant.
use native.Mathlib.Decide.{dec_le}
use imcodex.Prelude.{
  ℕ, ◌≤◌, ◌≡◌, refl, ap, sym, ◌∙◌, subst, Bool, true, false, Option, none, some, List, [], ◌∷◌,
  ◌++◌, arith, keep, contains, contains-snoc, number_eq, ltb, leb, if◌then◌else◌, ◌⊎◌, inl, inr,
  Option-cases, Bool-cases, lt→ltb, leb→le, of_some,
}
use imcodex.Dict.{Dict}
use imcodex.Persistence.{
  Writer, Io, Outcome, returned, raised, write_serialized_state, take_queued, finish_round,
  note_failure, discard_superseded_write_failures,
}
use imcodex.Persistence.System.{System, do_take, do_finish, do_end}
use imcodex.Persistence.System.Invariant.{
  revision_of, IsSystem, IsOwed, IsFresh, IsIssued, IsStored, Ending, landed, superseded, lands,
  raises, write-Ending, Ending-IsStored,
}

pub contains-keep :
    (p : ℕ → Bool) (xs : List ℕ) (a : ℕ)
    → contains xs a ≡ true
    → p a ≡ true
    → contains (keep p xs) a ≡ true
contains-keep p [] a h k = h
contains-keep p (x ∷ xs) a h k = ground (arith, contains-keep p xs a)

contains-append_left :
    (xs ys : List ℕ) (a : ℕ) → contains xs a ≡ true → contains (xs ++ ys) a ≡ true
contains-append_left [] ys a h = absurd (ground arith)
contains-append_left (x ∷ xs) ys a h = ground (arith, contains-append_left xs ys a)

noted : {A B C D : Type 0} → (A ⊎ D) → A ⊎ B ⊎ C ⊎ D
noted (inl a) = inl a
noted (inr d) = inr (inr (inr d))

module _ {P : Type 0} where
  -- A failure that is noted stays noted until its revision or a later one is persisted.
  owed_failure :
      (w : Writer P) (a : ℕ)
      → contains w.failures a ≡ true
      → (a ≤ w.persisted_state_revision)
        ⊎ (contains (discard_superseded_write_failures w).failures a ≡ true)
  unfolding discard_superseded_write_failures
  owed_failure w a h = elim (dec_le a w.persisted_state_revision) [
    | yes l ↦ inl l
    | no l ↦ inr (
        contains-keep (λ r. ltb w.persisted_state_revision r) w.failures a h
          (lt→ltb w.persisted_state_revision a (omega arith)))
  ]

  same_revision :
      (r : ℕ) (x : P) (s : System P)
      → s.active ≡ some (r, x)
      → revision_of s.active ≡ some s.saved
      → r ≡ s.saved
  same_revision r x s a h = of_some (sym (ap revision_of a) ∙ h)

  finish-IsOwed :
      (r : ℕ) (x : P) (s : System P) (o : Writer P × Outcome)
      → s.active ≡ some (r, x)
      → Ending r x s.writer o
      → IsOwed s
      → IsOwed (record s { writer = finish_round o.1 r o.0; active = none })
  unfolding finish_round note_failure discard_superseded_write_failures
  finish-IsOwed r x s _ a (superseded l) (inl h) = inl h
  finish-IsOwed r x s _ a (lands l) (inl h) = inl (omega arith)
  finish-IsOwed r x s _ a (raises l) (inl h) = inl h
  finish-IsOwed r x s _ a (superseded l) (inr (inl h)) = inr (inl h)
  finish-IsOwed r x s _ a (lands l) (inr (inl h)) = inr (inl h)
  finish-IsOwed r x s _ a (raises l) (inr (inl h)) = inr (inl h)
  finish-IsOwed r x s _ a (superseded l) (inr (inr (inl h))) =
      inl (omega (arith, same_revision r x s a h))
  finish-IsOwed r x s _ a (lands l) (inr (inr (inl h))) =
      inl (omega (arith, same_revision r x s a h))
  finish-IsOwed r x s _ a (raises l) (inr (inr (inl h))) = inr (
      inr (
        inr (
          contains-keep (λ q. ltb s.writer.persisted_state_revision q) (s.writer.failures ++ r ∷ [])
            s.saved
            (subst (λ (q : ℕ). contains (s.writer.failures ++ r ∷ []) q ≡ true)
              (same_revision r x s a h) (contains-snoc s.writer.failures r))
            (lt→ltb s.writer.persisted_state_revision s.saved
              (omega (arith, same_revision r x s a h))))))
  finish-IsOwed r x s _ a (superseded l) (inr (inr (inr h))) =
      noted (owed_failure s.writer s.saved h)
  finish-IsOwed r x s _ a (lands l) (inr (inr (inr h))) =
      noted (owed_failure (landed r x s.writer) s.saved h)
  finish-IsOwed r x s _ a (raises l) (inr (inr (inr h))) = noted (
      owed_failure (note_failure r s.writer) s.saved
        (contains-append_left s.writer.failures (r ∷ []) s.saved h))

  end-IsOwed :
      (r : ℕ) (x : P) (s : System P) (o : Writer P × Outcome)
      → Ending r x s.writer o
      → IsOwed s
      → IsOwed (record s { writer = o.0; direct = none })
  end-IsOwed r x s _ (superseded l) h = h
  end-IsOwed r x s _ (raises l) h = h
  end-IsOwed r x s _ (lands l) (inl h) = inl (omega arith)
  end-IsOwed r x s _ (lands l) (inr h) = inr h

  -- What a write leaves alone.
  Ending-frame :
      (r : ℕ) (x : P) (w : Writer P) (o : Writer P × Outcome)
      → Ending r x w o
      → (o.0.state_path ≡ w.state_path)
        × (o.0.loop_running ≡ w.loop_running)
        × (o.0.next_state_revision ≡ w.next_state_revision)
        × (o.0.queued_state_write ≡ w.queued_state_write)
        × (o.0.background_writer ≡ w.background_writer)
  Ending-frame r x w _ (superseded l) = (refl, refl, refl, refl, refl)
  Ending-frame r x w _ (lands l) = (refl, refl, refl, refl, refl)
  Ending-frame r x w _ (raises l) = (refl, refl, refl, refl, refl)

  pub finish_round-frame :
      (outcome : Outcome) (r : ℕ) (w : Writer P)
      → finish_round outcome r w ≡ record w { failures = (finish_round outcome r w).failures }
  unfolding finish_round note_failure discard_superseded_write_failures
  finish_round-frame returned r w = refl
  finish_round-frame raised r w = refl

  pub do_end-IsSystem :
      (r : ℕ) (x : P) (io : Io) (s : System P)
      → s.direct ≡ some (r, x)
      → IsSystem s
      → IsSystem (do_end r x io s)
  unfolding do_end
  do_end-IsSystem r x io s d i =
      let o = write_serialized_state x r io s.writer in
      let e = write-Ending r x io s.writer i.path in
      let f = Ending-frame r x s.writer o e in
      record {
        path = f.0 ∙ i.path;
        loop = f.1 ∙ i.loop;
        fresh = rw f.2 i.fresh;
        queued = rw f.3 i.queued;
        active = i.active;
        direct = tt;
        stored =
            Ending-IsStored s.issued r x s.writer o e (subst (IsIssued s.issued) d i.direct)
              i.stored;
        idle = λ h. rw f.3 (i.idle (sym f.4 ∙ h));
        owed = end-IsOwed r x s o e i.owed;
      }

  pub do_finish-IsSystem :
      (r : ℕ) (x : P) (io : Io) (s : System P)
      → s.active ≡ some (r, x)
      → IsSystem s
      → IsSystem (do_finish r x io s)
  unfolding do_finish
  do_finish-IsSystem r x io s a i =
      let o = write_serialized_state x r io s.writer in
      let e = write-Ending r x io s.writer i.path in
      let f = Ending-frame r x s.writer o e in
      let g = finish_round-frame o.1 r o.0 in
      record {
        path = ap (λ (w : Writer P). w.state_path) g ∙ (f.0 ∙ i.path);
        loop = ap (λ (w : Writer P). w.loop_running) g ∙ (f.1 ∙ i.loop);
        fresh =
            subst (IsFresh s.issued) (sym (ap (λ (w : Writer P). w.next_state_revision) g ∙ f.2))
              i.fresh;
        queued =
            subst (IsIssued s.issued) (sym (ap (λ (w : Writer P). w.queued_state_write) g ∙ f.3))
              i.queued;
        active = tt;
        direct = i.direct;
        stored = subst (IsStored s.issued) (sym g) (
            Ending-IsStored s.issued r x s.writer o e (subst (IsIssued s.issued) a i.active)
              i.stored);
        idle = λ h. (
          ap (λ (w : Writer P). w.queued_state_write) g
              ∙ (f.3 ∙ (i.idle (sym (ap (λ (w : Writer P). w.background_writer) g ∙ f.4) ∙ h)).0),
          refl,
        );
        owed = finish-IsOwed r x s o a e i.owed;
      }

  IsIssued-if :
      (d : Dict ℕ P) (b : Bool) (r : ℕ) (x : P)
      → IsIssued d (some (r, x))
      → IsIssued d (if b then none else some (r, x))
  IsIssued-if d true r x h = tt
  IsIssued-if d false r x h = h

  take-IsOwed :
      (r : ℕ) (x : P) (s : System P)
      → s.writer.queued_state_write ≡ some (r, x)
      → s.active ≡ none
      → IsOwed s
      → IsOwed (record s {
        writer = record (s.writer) { queued_state_write = none };
        active = if leb r s.writer.persisted_state_revision then none else some (r, x);
      })
  take-IsOwed r x s q a (inl h) = inl h
  take-IsOwed r x s q a (inr (inl h)) =
      let same : r ≡ s.saved = of_some (sym (ap revision_of q) ∙ h) in
      elim (Bool-cases (leb r s.writer.persisted_state_revision)) [
        | inl old ↦ inl (omega (arith, leb→le r s.writer.persisted_state_revision old))
        | inr new ↦ inr (inr (inl (rw new (ap some same))))
      ]
  take-IsOwed r x s q a (inr (inr (inl h))) = cc (ap revision_of a, h)
  take-IsOwed r x s q a (inr (inr (inr h))) = inr (inr (inr h))

  pub do_take-IsSystem :
      (s : System P)
      → s.writer.background_writer ≡ true
      → s.active ≡ none
      → IsSystem s
      → IsSystem (do_take s)
  unfolding do_take take_queued
  do_take-IsSystem s b a i = elim (Option-cases s.writer.queued_state_write) [
    | inl empty ↦
        rw (empty, take_queued)
          (record {
            path = i.path;
            loop = i.loop;
            fresh = i.fresh;
            queued = i.queued;
            active = tt;
            direct = i.direct;
            stored = i.stored;
            idle = λ h. cc;
            owed = subst (λ (o : Option (ℕ × P)). IsOwed (record s { active = o })) a i.owed;
          })
    | inr ((r, x), e) ↦
        rw (e, take_queued)
          (record {
            path = i.path;
            loop = i.loop;
            fresh = i.fresh;
            queued = tt;
            active =
                IsIssued-if s.issued (leb r s.writer.persisted_state_revision) r x
                  (subst (IsIssued s.issued) e i.queued);
            direct = i.direct;
            stored = i.stored;
            idle = λ h. cc;
            owed = take-IsOwed r x s e a i.owed;
          })
  ]
