-- ===== src/Store/Turns.antt =====
-- store.py: the active and the suppressed turns of the native threads, the snapshots' fields, and
-- the contexts of the thread browser. The proofs are in the modules below.
use imcodex.Prelude.{
  ℕ, ◌+◌, String, Bool, Option, none, some, List, [], ◌∷◌, ◌++◌, ◌==◌, not, leb, string_eq, pair_eq,
  if◌then◌else◌, keep, contains,
}
use imcodex.Dict
use imcodex.Models.{Pair, ThreadBrowserContext}
use imcodex.Store.State.{Store}
use imcodex.Store.Deliveries.{watch_terminal_delivery}

-- `suppressed_turns.discard(turn)` and `.add(turn)`
abbrev pub discard : Pair → List Pair → List Pair
discard turn turns = keep (λ t. not (t == turn)) turns

abbrev pub add : Pair → List Pair → List Pair
add turn turns = if contains turns turn then turns else turns ++ turn ∷ []

unfoldable pub note_active_turn : String → String → String → ℕ → Store → Store
note_active_turn thread turn status now s = watch_terminal_delivery thread turn now (record s {
  active_turns = Dict.put s.active_turns thread (turn, status);
  suppressed_turns = discard (thread, turn) s.suppressed_turns;
})

-- `if snapshot is not None: snapshot.status = status`
unfoldable pub set_snapshot_status : String → String → Store → Store
set_snapshot_status thread status s = elim (Dict.get s.thread_snapshots thread) [
  | none ↦ s
  | some snapshot ↦ record s {
    thread_snapshots = Dict.put s.thread_snapshots thread (record snapshot { status = status });
  }
]

-- Only the turn that is active is dropped from the active turns.
unfoldable pub drop_active_turn : String → String → Store → Store
drop_active_turn thread turn s = elim (Dict.get s.active_turns thread) [
  | none ↦ s
  | some (active, _) ↦
      if active == turn then record s { active_turns = Dict.pop s.active_turns thread } else s
]

unfoldable pub complete_turn : String → String → String → Store → Store
unfolding set_snapshot_status drop_active_turn
complete_turn thread turn status s =
    let s' = drop_active_turn thread turn s in
    set_snapshot_status thread status
      (record s' { suppressed_turns = discard (thread, turn) s'.suppressed_turns })

unfoldable pub clear_active_turn : String → Store → Store
clear_active_turn thread s = record s { active_turns = Dict.pop s.active_turns thread }

unfoldable pub get_active_turn : String → Store → Option Pair
get_active_turn thread s = Dict.get s.active_turns thread

unfoldable pub suppress_turn : String → String → Store → Store
suppress_turn thread turn s = record s { suppressed_turns = add (thread, turn) s.suppressed_turns }

unfoldable pub is_turn_suppressed : String → String → Store → Bool
is_turn_suppressed thread turn s = contains s.suppressed_turns (thread, turn)

-- The arguments of `update_thread_snapshot`; a field that is none stays.
pub record SnapshotUpdate : Type 0 where
  pub cwd : Option String
  pub preview : Option String
  pub status : Option String
  pub name : Option String
  pub path : Option String

abbrev replaced : Option String → String → String
replaced none old = old
replaced (some new) old = new

abbrev replaced_option : Option String → Option String → Option String
replaced_option none old = old
replaced_option (some new) old = some new

unfoldable pub update_thread_snapshot : String → SnapshotUpdate → Store → Store
update_thread_snapshot thread u s = elim (Dict.get s.thread_snapshots thread) [
  | none ↦ s
  | some snapshot ↦ record s {
    thread_snapshots = Dict.put s.thread_snapshots thread (record snapshot {
      cwd = replaced u.cwd snapshot.cwd;
      preview = replaced u.preview snapshot.preview;
      status = replaced u.status snapshot.status;
      name = replaced_option u.name snapshot.name;
      path = replaced_option u.path snapshot.path;
    });
  }
]

-- `all_thread_ids or thread_ids`, with [] for a missing argument
abbrev or_list : List String → List String → List String
or_list [] other = other
or_list (x ∷ xs) other = x ∷ xs

-- The context is what the arguments say; its `expires_at` holds the time to live, `ttl_s`.
unfoldable pub set_thread_browser_context :
    ThreadBrowserContext → ℕ → Store → ThreadBrowserContext × Store
set_thread_browser_context asked now s =
    let context = record asked {
      all_thread_ids = or_list asked.all_thread_ids asked.thread_ids;
      expires_at = now + asked.expires_at;
    } in
    (
      context,
      record s {
        thread_browser_contexts =
            Dict.put s.thread_browser_contexts (asked.channel_id, asked.conversation_id) context;
      },
    )

unfoldable pub get_thread_browser_context : Pair → ℕ → Store → Option ThreadBrowserContext × Store
get_thread_browser_context key now s = elim (Dict.get s.thread_browser_contexts key) [
  | none ↦ (none, s)
  | some context ↦
      if leb context.expires_at now
      then (none, record s { thread_browser_contexts = Dict.pop s.thread_browser_contexts key })
      else (some context, s)
]

unfoldable pub clear_thread_browser_context : Pair → Store → Store
clear_thread_browser_context key s = record s {
  thread_browser_contexts = Dict.pop s.thread_browser_contexts key;
}
