-- ===== src/Store/Journal/Order.antt =====
-- The journal holds the last events, numbered without a gap, and a number finds its event.
use imcodex.Prelude.{
  ℕ, zero, suc, ◌+◌, ◌-◌, ◌≤◌, ◌<◌, String, ◌≡◌, refl, Option, none, some, List, [], ◌∷◌, ◌++◌, map,
  arith, nat_eq, if◌then◌else◌, length, length-append, length-drop, drop, length-last_n-le, is_none,
  not, ltb, leb, ◌&&◌, ◌⊎◌, inl, inr,
}
use native.Mathlib.Decide.{dec_le, dec_lt}
use imcodex.Models.{NativeAppServerJournalEntry}
use imcodex.Store.State.{Store}
use imcodex.Store.Journal.{
  append_native_appserver_event, annotate, update_last, update_native_appserver_event,
}

-- The entries carry consecutive numbers, and the last one carries `n`.
abbrev pub EndsAt : ℕ → List NativeAppServerJournalEntry → Type 0
EndsAt n [] = Unit
EndsAt n (e ∷ es) = (e.sequence + length es ≡ n) × EndsAt n es

-- The journal is within its limit, which is positive, and ends at the last number.
pub record IsJournal (s : Store) : Type 0 where
  pub positive : 0 < s.journal_limit
  pub bounded : length s.journal ≤ s.journal_limit
  pub counted : length s.journal ≤ s.journal_sequence
  pub ends : EndsAt s.journal_sequence s.journal

EndsAt-drop : (k n : ℕ) (es : List NativeAppServerJournalEntry) → EndsAt n es → EndsAt n (drop k es)
EndsAt-drop zero n es h = h
EndsAt-drop (suc k) n [] h = h
EndsAt-drop (suc k) n (e ∷ es) h = EndsAt-drop k n es h.1

EndsAt-snoc :
    (n : ℕ) (es : List NativeAppServerJournalEntry) (e : NativeAppServerJournalEntry)
    → EndsAt n es
    → e.sequence ≡ n + 1
    → EndsAt (n + 1) (es ++ e ∷ [])
EndsAt-snoc n [] e h k = omega arith
EndsAt-snoc n (d ∷ es) e h k =
    (omega (arith, length-append es (e ∷ []), h.0), EndsAt-snoc n es e h.1 k)

pub append-IsJournal :
    (event : NativeAppServerJournalEntry) (s : Store)
    → IsJournal s
    → IsJournal (append_native_appserver_event event s).1
unfolding append_native_appserver_event
append-IsJournal event s j = record {
  positive = j.positive;
  bounded = length-last_n-le s.journal_limit _;
  counted = omega (
    arith,
    j.counted,
    length-append s.journal (record event { sequence = s.journal_sequence + 1 } ∷ []),
    length-drop
        (length (s.journal ++ record event { sequence = s.journal_sequence + 1 } ∷ [])
          - s.journal_limit)
        (s.journal ++ record event { sequence = s.journal_sequence + 1 } ∷ []),
  );
  ends =
      EndsAt-drop _ (s.journal_sequence + 1) _
        (EndsAt-snoc s.journal_sequence s.journal _ j.ends refl);
}

-- One entry of the journal after an update of the entry with a number.
abbrev pub updated :
    ℕ → Option String → Option String → NativeAppServerJournalEntry → NativeAppServerJournalEntry
updated sequence outcome note e = if nat_eq e.sequence sequence then annotate outcome note e else e

-- A number above all others is not found.
update_last_absent :
    (q n : ℕ) (outcome note : Option String) (es : List NativeAppServerJournalEntry)
    → EndsAt n es
    → (q + length es ≤ n) ⊎ (n < q)
    → (update_last q outcome note es ≡ (es, none)) × (map (updated q outcome note) es ≡ es)
unfolding update_last
update_last_absent _ _ _ _ [] h k = (refl, refl)
update_last_absent q n outcome note (e ∷ es) h k =
    ground (arith, update_last_absent q n outcome note es h.1, h.0)

update_last_present :
    (q n : ℕ) (outcome note : Option String) (es : List NativeAppServerJournalEntry)
    → EndsAt n es
    → n < q + length es
    → q ≤ n
    → (e : NativeAppServerJournalEntry) × ((update_last q outcome note es).1 ≡ some e)
      × (e.sequence ≡ q)
unfolding update_last
update_last_present _ _ _ _ [] h k l = absurd (omega arith)
update_last_present q n outcome note (e ∷ es) h k l = elim (dec_lt n (q + length es)) [
  | yes inside ↦
      let (f, p, r) = update_last_present q n outcome note es h.1 inside l in
      (f, ground (arith, p), r)
  | no out ↦ (
    annotate outcome note e,
    ground (arith, (update_last_absent q n outcome note es h.1 (inl (omega arith))).0, h.0),
    omega (arith, h.0),
  )
]

-- On consecutive numbers the loop changes the one entry with the number.
pub update_last-map :
    (q n : ℕ) (outcome note : Option String) (es : List NativeAppServerJournalEntry)
    → EndsAt n es
    → (update_last q outcome note es).0 ≡ map (updated q outcome note) es
unfolding update_last
update_last-map _ _ _ _ [] h = refl
update_last-map q n outcome note (e ∷ es) h = elim (dec_le (q + length es) n) [
  | yes out ↦ ground (arith, update_last_absent q n outcome note es h.1 (inl out), h.0)
  | no inside ↦ elim (dec_le q n) [
    | yes l ↦
        let (f, p, r) = update_last_present q n outcome note es h.1 (omega arith) l in
        ground (arith, p, h.0, update_last-map q n outcome note es h.1)
    | no above ↦ ground (arith, update_last_absent q n outcome note es h.1 (inr (omega arith)), h.0)
  ]
]

update_last-none :
    (q n : ℕ) (outcome note : Option String) (es : List NativeAppServerJournalEntry)
    → EndsAt n es
    → length es ≤ n
    → is_none (update_last q outcome note es).1 ≡ not (ltb (n - length es) q && leb q n)
update_last-none q n outcome note es h c = elim (dec_le (q + length es) n) [
  | yes out ↦ ground (arith, update_last_absent q n outcome note es h (inl out))
  | no inside ↦ elim (dec_le q n) [
    | yes l ↦
        let (f, p, r) = update_last_present q n outcome note es h (omega arith) l in
        ground (arith, p)
    | no above ↦ ground (arith, update_last_absent q n outcome note es h (inr (omega arith)))
  ]
]

-- An update changes the entry with the number, wherever it stands, and no other. It finds one
-- exactly if the number is one of the last that the journal holds.
pub update-native :
    (q : ℕ) (outcome note : Option String) (s : Store)
    → IsJournal s
    → ((update_native_appserver_event q outcome note s).1.journal
        ≡ map (updated q outcome note) s.journal)
      × (is_none (update_native_appserver_event q outcome note s).0
          ≡ not (ltb (s.journal_sequence - length s.journal) q && leb q s.journal_sequence))
unfolding update_native_appserver_event
update-native q outcome note s j = (
  update_last-map q s.journal_sequence outcome note s.journal j.ends,
  update_last-none q s.journal_sequence outcome note s.journal j.ends j.counted,
)

updated-EndsAt :
    (q n : ℕ) (outcome note : Option String) (es : List NativeAppServerJournalEntry)
    → EndsAt n es
    → EndsAt n (map (updated q outcome note) es)
      × (length (map (updated q outcome note) es) ≡ length es)
updated-EndsAt _ _ _ _ [] h = (tt, refl)
updated-EndsAt q n outcome note (e ∷ es) h =
    ground (arith, updated-EndsAt q n outcome note es h.1, h.0)

pub update-IsJournal :
    (q : ℕ) (outcome note : Option String) (s : Store)
    → IsJournal s
    → IsJournal (update_native_appserver_event q outcome note s).1
unfolding update_native_appserver_event
update-IsJournal q outcome note s j = record {
  positive = j.positive;
  bounded = rw (update_last-map q s.journal_sequence outcome note s.journal j.ends) (
      omega
        (arith, (updated-EndsAt q s.journal_sequence outcome note s.journal j.ends).1, j.bounded));
  counted = rw (update_last-map q s.journal_sequence outcome note s.journal j.ends) (
      omega
        (arith, (updated-EndsAt q s.journal_sequence outcome note s.journal j.ends).1, j.counted));
  ends =
      rw (update_last-map q s.journal_sequence outcome note s.journal j.ends)
        (updated-EndsAt q s.journal_sequence outcome note s.journal j.ends).0;
}
