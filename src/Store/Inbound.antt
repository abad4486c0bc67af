-- ===== src/Store/Inbound.antt =====
-- store.py: which inbound messages have been processed, their cached responses, and the durability
-- of that record. The proofs are in the modules below.
pub mod Dedup
pub mod Memory
mod Tests
use Prim.Native.String.{◌++◌ as text_append}
use imcodex.Prelude.{
  ℕ, ◌+◌, ◌-◌, String, Bool, true, false, Option, none, some, List, [], ◌∷◌, ◌++◌, ◌==◌, ◌&&◌, not,
  string_eq, pair_eq, ltb, leb, nat_eq, if◌then◌else◌, is_empty, truthy, keep, take, last_n, length,
  contains, Eq,
}
use imcodex.Dict
use imcodex.Dict.{Dict, keys}
use imcodex.Models.{Pair, Items, ReplyContext, ConversationBinding}
use imcodex.Persistence
use imcodex.Persistence.{Io, Outcome, returned, raised}
use imcodex.Store.State.{Store, Snapshot, snapshot, save}
use imcodex.Store.Registry.{set_binding, get_binding}

-- INBOUND_DEDUP_WINDOW_S in milliseconds, RECENT_INBOUND_MESSAGE_ID_LIMIT and
-- RECENT_INBOUND_RESPONSE_LIMIT
abbrev pub inbound_dedup_window : ℕ
inbound_dedup_window = 2000

abbrev pub recent_inbound_message_id_limit : ℕ
recent_inbound_message_id_limit = 1024

abbrev pub recent_inbound_response_limit : ℕ
recent_inbound_response_limit = 32

-- What the channels know of a message. A missing id is the empty text.
pub record Inbound : Type 0 where
  pub conversation : Pair
  pub user_id : String
  pub message_id : String
  pub text_fingerprint : String

-- f"{user_id}:{text_fingerprint}"
abbrev pub fingerprint : Inbound → String
fingerprint m = text_append m.user_id (text_append ":" m.text_fingerprint)

unfoldable pub note_inbound_message : Pair → String → Option String → ℕ → Store → Store
note_inbound_message key message user now s =
    let (binding, s') = get_binding key s in
    let noted : ReplyContext = record (binding.reply_context) {
      last_inbound_message_id = some message;
      last_inbound_seen_at = some now;
    } in
    set_binding key
      (record binding {
        reply_context = if truthy user then record noted { last_inbound_user_id = user } else noted;
      })
      s'

-- `x if isinstance(x, list) else []`, and the same for a dict
abbrev pub list_or_empty {ℓ} : {A : Type ℓ} → Option (List A) → List A
list_or_empty none = []
list_or_empty (some xs) = xs

-- The message id comes last, once, and the oldest ids beyond the limit go.
unfoldable pub remember_id : String → List String → List String
remember_id message recent =
    last_n recent_inbound_message_id_limit (keep (λ m. not (m == message)) recent ++ message ∷ [])

-- The response comes last, and the oldest beyond the limit go.
unfoldable pub remember_response : String → Items → Dict String Items → Dict String Items
remember_response message payload responses =
    let response_map = Dict.put (Dict.pop responses message) message payload in
    let overflow = length response_map - recent_inbound_response_limit in
    Dict.pop_all response_map (take overflow (keys response_map))

-- `if response_payload is not None`
unfoldable pub with_response : String → Option Items → ReplyContext → ReplyContext
with_response message none context = context
with_response message (some payload) context = record context {
  recent_inbound_responses =
      some (remember_response message payload (list_or_empty context.recent_inbound_responses));
}

-- `_recent_inbound_fingerprints.setdefault(key, {})`
abbrev pub bucket : Pair → Store → Dict String ℕ
bucket key s = list_or_empty (Dict.get s.recent_inbound_fingerprints key)

unfoldable pub set_bucket : Pair → Dict String ℕ → Store → Store
set_bucket key seen s = record s {
  recent_inbound_fingerprints = Dict.put s.recent_inbound_fingerprints key seen;
}

-- The reply context after a message with an id has been processed.
unfoldable pub processed_context : Inbound → Option Items → ReplyContext → ReplyContext
unfolding remember_id with_response
processed_context m response context = with_response m.message_id response (record context {
  recent_inbound_message_ids =
      some (remember_id m.message_id (list_or_empty context.recent_inbound_message_ids));
})

-- `_record_inbound_message_processed`
unfoldable pub record_inbound_message_processed : Inbound → Option Items → ℕ → Store → Store
unfolding processed_context set_bucket
record_inbound_message_processed m response now s =
    let (binding, s') = get_binding m.conversation s in
    if is_empty m.message_id
    then set_bucket m.conversation (Dict.put (bucket m.conversation s') (fingerprint m) now) s'
    else set_binding m.conversation
        (record binding { reply_context = processed_context m response binding.reply_context }) s'

unfoldable pub mark_inbound_message_processed : Inbound → Option Items → ℕ → Store → Store
mark_inbound_message_processed m response now s =
    save (record_inbound_message_processed m response now s)

-- `_snapshot_state` and `_write_state_async`, up to the end of the write. A cancellation waits for
-- the write, so that the exception of the write, if there is one, is the one that is raised.
unfoldable pub write_now : Io → Store → Store × Outcome
write_now io s =
    let (numbered, revision) = Persistence.next_revision s.writer in
    let (w, outcome) = Persistence.write_serialized_state (snapshot s) revision io numbered in
    (record s { writer = w }, outcome)

abbrev pub commit_key : Inbound → Pair × String
commit_key m = (m.conversation, m.message_id)

abbrev pub same_commit : Pair × String → Pair × String → Bool
same_commit (a, x) (b, y) = a == b && x == y

abbrev pub is_dirty : List (Pair × String) → Pair × String → Bool
is_dirty [] c = false
is_dirty (d ∷ ds) c = let rest = is_dirty ds c in if same_commit d c then true else rest

abbrev pub add_dirty : Pair × String → List (Pair × String) → List (Pair × String)
add_dirty c ds = if is_dirty ds c then ds else ds ++ c ∷ []

-- The commit is clean once the write has returned, also where a cancellation is raised after it.
unfoldable pub settle : Pair × String → Store × Outcome → Store × Outcome
settle c (s, returned) = (
  record s { dirty_inbound_commits = keep (λ d. not (same_commit d c)) s.dirty_inbound_commits },
  returned,
)
settle c (s, raised) = (s, raised)

-- `commit_inbound_message_processed`, with no other method of the store during the write.
unfoldable pub commit_inbound_message_processed :
    Inbound → Option Items → ℕ → Io → Store → Store × Outcome
unfolding write_now settle
commit_inbound_message_processed m response now io s =
    let s' = record_inbound_message_processed m response now s in
    if not s'.writer.state_path
    then (s', returned)
    else if is_empty m.message_id
    then (s', returned)
    else settle (commit_key m) (
        write_now io
          (record s' { dirty_inbound_commits = add_dirty (commit_key m) s'.dirty_inbound_commits }))

unfoldable pub ensure_inbound_message_durable : Inbound → Io → Store → Store × Outcome
unfolding write_now settle
ensure_inbound_message_durable m io s =
    if is_dirty s.dirty_inbound_commits (commit_key m)
    then settle (commit_key m) (write_now io s)
    else (s, returned)

-- The responses of the binding, if there are any.
abbrev responses_of : Option ConversationBinding → Dict String Items
responses_of none = []
responses_of (some binding) = list_or_empty binding.reply_context.recent_inbound_responses

unfoldable pub get_processed_inbound_response : Pair → String → Store → Option Items
get_processed_inbound_response key message s =
    Dict.get (responses_of (Dict.get s.bindings key)) message

-- `message_id in recent`
abbrev pub remembers : Option ConversationBinding → String → Bool
remembers none message = false
remembers (some binding) message =
    contains (list_or_empty binding.reply_context.recent_inbound_message_ids) message

-- `now - seen_at > INBOUND_DEDUP_WINDOW_S`
abbrev pub is_expired : ℕ → ℕ → Bool
is_expired now seen_at = ltb inbound_dedup_window (now - seen_at)

abbrev within_window : ℕ → Option ℕ → Bool
within_window now none = false
within_window now (some seen_at) = leb (now - seen_at) inbound_dedup_window

unfoldable pub should_drop_duplicate_inbound_message : Inbound → ℕ → Store → Bool × Store
unfolding set_bucket
should_drop_duplicate_inbound_message m now s =
    if not (is_empty m.message_id) && remembers (Dict.get s.bindings m.conversation) m.message_id
    then (true, s)
    else let seen = bucket m.conversation s in
      let fresh = Dict.pop_all seen (keys (keep (λ e. is_expired now e.1) seen)) in
      let s' = set_bucket m.conversation fresh s in
      if not (is_empty m.message_id)
      then (false, s')
      else (within_window now (Dict.get fresh (fingerprint m)), s')
