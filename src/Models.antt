-- ===== src/Models.antt =====
-- src/imcodex/models.py: the records that the store keeps. Times are counted in milliseconds.
pub mod Json
pub mod Messages
unfoldable pub use Json.*
pub use Messages.*
use imcodex.Prelude.{
  ℕ, zero, String, Bool, true, false, Option, none, List, [], Eq, string_eq, pair_eq,
}
use imcodex.Dict.{Dict}

-- (channel_id, conversation_id), and (thread_id, turn_id)
abbrev pub Pair : Type 0
Pair = String × String

-- The entries of a binding's `reply_context`, each of which may be missing.
pub record ReplyContext : Type 0 where
  pub last_inbound_message_id : Option String
  pub last_inbound_seen_at : Option ℕ
  pub last_inbound_user_id : Option String
  pub recent_inbound_message_ids : Option (List String)
  pub recent_inbound_responses : Option (Dict String Items)

abbrev pub empty_reply_context : ReplyContext
empty_reply_context = record {
  last_inbound_message_id = none;
  last_inbound_seen_at = none;
  last_inbound_user_id = none;
  recent_inbound_message_ids = none;
  recent_inbound_responses = none;
}

pub record ConversationBinding : Type 0 where
  pub channel_id : String
  pub conversation_id : String
  pub thread_id : Option String
  pub bootstrap_cwd : Option String
  pub visibility_profile : String
  pub show_commentary : Bool
  pub show_toolcalls : Bool
  pub show_system : Bool
  pub reply_context : ReplyContext

-- ConversationBinding(channel_id=…, conversation_id=…)
abbrev pub new_binding : Pair → ConversationBinding
new_binding (channel, conversation) = record {
  channel_id = channel;
  conversation_id = conversation;
  thread_id = none;
  bootstrap_cwd = none;
  visibility_profile = "standard";
  show_commentary = true;
  show_toolcalls = false;
  show_system = false;
  reply_context = empty_reply_context;
}

-- `str | int`
pub data TransportId : Type 0 where
  text : String → TransportId
  number : ℕ → TransportId

pub record PendingNativeRequestRoute : Type 0 where
  pub request_id : String
  pub request_handle : Option String
  pub channel_id : String
  pub conversation_id : String
  pub thread_id : Option String
  pub turn_id : Option String
  pub kind : String
  pub request_method : Option String
  pub transport_request_id : Option TransportId
  pub connection_epoch : ℕ
  pub payload : Fields

pub record TerminalDeliveryWatch : Type 0 where
  pub thread_id : String
  pub turn_id : String
  pub created_at : ℕ

pub record PendingTerminalDelivery : Type 0 where
  pub delivery_id : String
  pub thread_id : String
  pub turn_id : String
  pub message : Fields
  pub created_at : ℕ
  pub sequence : ℕ

pub record NativeThreadSnapshot : Type 0 where
  pub thread_id : String
  pub cwd : String
  pub preview : String
  pub status : String
  pub name : Option String
  pub path : Option String
  pub source : Option String
  pub updated_at : Option ℕ
  pub pinned : Option Bool

pub record ThreadBrowserContext : Type 0 where
  pub channel_id : String
  pub conversation_id : String
  pub thread_ids : List String
  pub page : ℕ
  pub total : ℕ
  pub query : Option String
  pub all_thread_ids : List String
  pub project_paths : List String
  pub project_path : Option String
  pub expires_at : ℕ

pub record NativeAppServerJournalEntry : Type 0 where
  pub sequence : ℕ
  pub seen_at : ℕ
  pub direction : String
  pub method : String
  pub category : String
  pub kind : String
  pub summary : Fields
  pub thread_id : String
  pub turn_id : String
  pub item_id : String
  pub request_id : Option String
  pub outcome : Option String
  pub note : Option String
