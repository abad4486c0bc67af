-- ===== src/Store/State.antt =====
-- store.py: the fields of `ConversationStore`, and `_snapshot_state` with `_save`.
use imcodex.Prelude.{
  ℕ, String, Bool, false, Option, none, List, [], map, keep, not, ◌||◌, ◌==◌, string_eq, is_some,
  sorted, str_le, max,
}
use imcodex.Dict
use imcodex.Dict.{Dict, values}
use imcodex.Models.{
  Pair, Fields, ReplyContext, ConversationBinding, PendingNativeRequestRoute, TerminalDeliveryWatch,
  PendingTerminalDelivery, NativeThreadSnapshot, ThreadBrowserContext, NativeAppServerJournalEntry,
}
use imcodex.Persistence
use imcodex.Persistence.{Writer}

-- The outcome of a standalone delivery is kept beside its acknowledgement.
pub record Acknowledgement : Type 0 where
  pub delivery_id : String
  pub thread_id : String
  pub turn_id : String
  pub outcome : Option Fields

-- The payload of `_snapshot_state`. Its key "pending_requests" is always the empty list.
pub record Snapshot : Type 0 where
  pub bindings : List ConversationBinding
  pub thread_recipient_routes : Dict String Pair
  pub terminal_delivery_watches : List TerminalDeliveryWatch
  pub pending_terminal_deliveries : List PendingTerminalDelivery
  pub acknowledged_terminal_deliveries : List Acknowledgement

pub record Store : Type 0 where
  pub bindings : Dict Pair ConversationBinding
  pub thread_recipient_routes : Dict String Pair
  pub pending_requests : Dict String PendingNativeRequestRoute
  pub terminal_delivery_watches : Dict Pair TerminalDeliveryWatch
  pub pending_terminal_deliveries : Dict String PendingTerminalDelivery
  pub acknowledged_terminal_deliveries : Dict String Pair
  pub standalone_delivery_outcomes : Dict String Fields
  pub next_terminal_delivery_sequence : ℕ
  pub thread_snapshots : Dict String NativeThreadSnapshot
  pub thread_browser_contexts : Dict Pair ThreadBrowserContext
  pub active_turns : Dict String Pair
  pub suppressed_turns : List Pair
  pub journal : List NativeAppServerJournalEntry
  pub journal_limit : ℕ
  pub journal_sequence : ℕ
  pub recent_inbound_fingerprints : Dict Pair (Dict String ℕ)
  pub dirty_inbound_commits : List (Pair × String)
  pub writer : Writer Snapshot

-- `__init__` with no state on disk: `state_path` says whether there is a file to write, and
-- `loop_running` whether the methods run under an event loop. `asked` is the journal limit.
abbrev pub new_store : Bool → Bool → ℕ → Store
new_store state_path loop_running asked = record {
  bindings = [];
  thread_recipient_routes = [];
  pending_requests = [];
  terminal_delivery_watches = [];
  pending_terminal_deliveries = [];
  acknowledged_terminal_deliveries = [];
  standalone_delivery_outcomes = [];
  next_terminal_delivery_sequence = 0;
  thread_snapshots = [];
  thread_browser_contexts = [];
  active_turns = [];
  suppressed_turns = [];
  journal = [];
  journal_limit = max 1 asked;
  journal_sequence = 0;
  recent_inbound_fingerprints = [];
  dirty_inbound_commits = [];
  writer = record {
    state_path = state_path;
    loop_running = loop_running;
    next_state_revision = 0;
    persisted_state_revision = 0;
    file = none;
    queued_state_write = none;
    background_writer = false;
    failures = [];
  };
}

-- `bool(reply_context)`
unfoldable pub reply_context_truthy : ReplyContext → Bool
reply_context_truthy c =
    is_some c.last_inbound_message_id
    || (is_some c.last_inbound_seen_at
        || (is_some c.last_inbound_user_id
            || (is_some c.recent_inbound_message_ids || is_some c.recent_inbound_responses)))

-- A binding that differs from a new one is written.
unfoldable pub worth_saving : ConversationBinding → Bool
unfolding reply_context_truthy
worth_saving b =
    is_some b.thread_id
    || (is_some b.bootstrap_cwd
        || (not (b.visibility_profile == "standard")
            || (not b.show_commentary
                || (b.show_toolcalls || (b.show_system || reply_context_truthy b.reply_context)))))

-- One item of "acknowledged_terminal_deliveries": the outcome only where there is one.
unfoldable pub acknowledgement : Dict String Fields → String × Pair → Acknowledgement
acknowledgement outcomes (delivery, terminal_key) = record {
  delivery_id = delivery;
  thread_id = terminal_key.0;
  turn_id = terminal_key.1;
  outcome = Dict.get outcomes delivery;
}

-- `_snapshot_state`, without the revision number: keys are distinct, so the sorted items are in
-- the order of their threads.
unfoldable pub snapshot : Store → Snapshot
unfolding worth_saving acknowledgement
snapshot s = record {
  bindings = keep worth_saving (values s.bindings);
  thread_recipient_routes = sorted (λ a b. str_le a.0 b.0) s.thread_recipient_routes;
  terminal_delivery_watches = values s.terminal_delivery_watches;
  pending_terminal_deliveries = values s.pending_terminal_deliveries;
  acknowledged_terminal_deliveries =
      map (acknowledgement s.standalone_delivery_outcomes) s.acknowledged_terminal_deliveries;
}

-- `_save`
unfoldable pub save : Store → Store
save s = record s { writer = Persistence.save (snapshot s) s.writer }
