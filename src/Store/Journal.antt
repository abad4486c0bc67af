-- ===== src/Store/Journal.antt =====
-- store_native_events.py: the bounded journal of native events. `deque(maxlen=…)` drops from its
-- left end. The proofs are in the modules below.
pub mod Order
mod Tests
use imcodex.Prelude.{
  ℕ, zero, suc, ◌+◌, String, Bool, true, false, Option, none, some, List, [], ◌∷◌, ◌++◌, not,
  nat_eq, if◌then◌else◌, is_none, last_n, max,
}
use imcodex.Models.{Fields, end, NativeAppServerJournalEntry}
use imcodex.Store.State.{Store}

-- DEFAULT_NATIVE_EVENT_JOURNAL_LIMIT
abbrev pub default_native_event_journal_limit : ℕ
default_native_event_journal_limit = 50

-- `deque.append` under a maximal length
abbrev pub append_bounded {ℓ} : {A : Type ℓ} → ℕ → List A → A → List A
append_bounded limit entries entry = last_n limit (entries ++ entry ∷ [])

-- The new entry is what the arguments say, with the next sequence number.
unfoldable pub append_native_appserver_event :
    NativeAppServerJournalEntry → Store → NativeAppServerJournalEntry × Store
append_native_appserver_event event s =
    let sequence = s.journal_sequence + 1 in
    let entry = record event { sequence = sequence } in
    (
      entry,
      record s {
        journal_sequence = sequence;
        journal = append_bounded s.journal_limit s.journal entry;
      },
    )

-- `if x is not None: entry.field = x`
abbrev pub overwrite : Option String → Option String → Option String
overwrite none old = old
overwrite (some new) old = some new

abbrev pub annotate :
    Option String → Option String → NativeAppServerJournalEntry → NativeAppServerJournalEntry
annotate outcome note entry = record entry {
  outcome = overwrite outcome entry.outcome;
  note = overwrite note entry.note;
}

-- The loop over the reversed journal: the last entry with the number is changed. The option is the
-- entry as it is then.
unfoldable pub update_last :
    ℕ
    → Option String
    → Option String
    → List NativeAppServerJournalEntry
    → List NativeAppServerJournalEntry × Option NativeAppServerJournalEntry
update_last _ _ _ [] = ([], none)
update_last sequence outcome note (entry ∷ rest) =
    let (rest', found) = update_last sequence outcome note rest in
    if not (is_none found)
    then (entry ∷ rest', found)
    else if nat_eq entry.sequence sequence
    then (annotate outcome note entry ∷ rest, some (annotate outcome note entry))
    else (entry ∷ rest, none)

unfoldable pub update_native_appserver_event :
    ℕ → Option String → Option String → Store → Option NativeAppServerJournalEntry × Store
unfolding update_last
update_native_appserver_event sequence outcome note s =
    let (journal, found) = update_last sequence outcome note s.journal in
    (found, record s { journal = journal })

-- A limit that is not positive lists nothing.
unfoldable pub list_native_appserver_events : ℕ → Store → List NativeAppServerJournalEntry
list_native_appserver_events zero s = []
list_native_appserver_events (suc limit) s = last_n (suc limit) s.journal
