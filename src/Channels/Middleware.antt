-- ===== src/Channels/Middleware.antt =====
-- channels/middleware.py: `UnifiedChannelMiddleware._handle_serialized` on one inbound message, over
-- the store. The service, the adapter and the file system answer as the arguments say.
pub mod Metadata
pub mod Replay
pub mod Errors
mod Tests
use imcodex.Prelude.{
  ℕ, suc, String, Bool, true, false, Option, none, some, List, [], ◌∷◌, ◌==◌, string_eq,
  if◌then◌else◌, is_empty, is_none,
}
use imcodex.Models.{Items, Fields, end, field, nil, cons, null, bool, str, arr, obj, get_field}
use imcodex.Persistence.{Io, Outcome, returned, raised}
use imcodex.Store.State.{Store}
use imcodex.Store.Inbound.{
  Inbound, should_drop_duplicate_inbound_message, ensure_inbound_message_durable,
  get_processed_inbound_response, note_inbound_message, commit_inbound_message_processed,
}
use imcodex.Bridge.Delivery.Payload.{construct, text_field}
use imcodex.Bridge.Delivery.Direct.{put_field, metadata_of}
use imcodex.Channels.Middleware.Metadata.{
  set_default, attach_reply_metadata, json_safe_mapping, delivery_id,
}

-- GENERIC_USER_ERROR_TEXT and EXPIRED_REPLAY_TEXT
abbrev pub generic_user_error_text : String
generic_user_error_text = "Request failed while talking to Codex. Please try again."

abbrev pub expired_replay_text : String
expired_replay_text =
    "This message was already processed, but its cached reply has expired. Send a new message if you still need the result."

-- One call: the adapter's channel, the message, and what the call is given beside it
pub record Arrival : Type 0 where
  pub channel_id : String
  pub inbound : Inbound
  pub reply_to : String
  pub trace_id : String
  pub outbound_override : Option (List Fields)

-- The answers to one call. `handle` is the service, with the store after it and nothing for an
-- exception; `sends` and `after_commit` are the adapter's.
pub record Answers : Type 0 where
  pub now : ℕ
  pub handle : Store → Store × Option (List Fields)
  pub pending_response : Option (List Fields)
  pub remembers : Outcome
  pub commit : Io
  pub sends : Fields → Outcome
  pub after_commit : Outcome

-- What comes of a call: the store, whether the service was asked, what the adapter was given, what
-- `after_inbound_delivery` was told, and whether an exception leaves the call.
pub record Handled : Type 0 where
  pub store : Store
  pub asked : Bool
  pub sent : List Fields
  pub acknowledged : Option Bool
  pub raises : Bool

-- `_deliver_messages`: what the adapter is given, up to the first exception
unfoldable pub deliver_messages : (Fields → Outcome) → List Fields → List Fields × Outcome
deliver_messages sends [] = ([], returned)
deliver_messages sends (m ∷ ms) =
    let (rest, outcome) = deliver_messages sends ms in
    elim (sends m) [ returned ↦ (m ∷ rest, outcome) | raised ↦ (m ∷ [], raised) ]

-- `_deliver_with_service_ack`
unfoldable pub deliver_with_service_ack : Answers → Bool → List Fields → Bool → Store → Handled
unfolding deliver_messages
deliver_with_service_ack answers asked messages acknowledge_success s =
    let (sent, outcome) = deliver_messages answers.sends messages in
    let failure : Handled = record {
      store = s;
      asked = asked;
      sent = sent;
      acknowledged = some false;
      raises = true;
    } in
    elim outcome [
      | raised ↦ failure
      | returned ↦ elim answers.after_commit [
        | raised ↦ failure
        | returned ↦ record failure { acknowledged = some acknowledge_success; raises = false }
      ]
    ]

-- `OutboundMessage(…, message_type="error", …)`
abbrev pub error_message : String → Inbound → String → Fields → Fields
error_message channel m text metadata = field "channel_id" (str channel) (
    field "conversation_id" (str (m.conversation.1)) (
      field "message_type" (str "error") (
        field "text" (str text) (
          field "request_id" null
            (field "metadata" (obj metadata) (field "artifacts" (arr nil) end))))))

-- `[OutboundMessage(**item) for item in payload]`; nothing where one of them is invalid
unfoldable pub construct_all : Items → Option (List Fields)
construct_all nil = some []
construct_all (cons (obj item) items) =
    let rest = construct_all items in
    elim (construct item) [
      | none ↦ none
      | some message ↦ elim rest [ none ↦ none | some more ↦ some (message ∷ more) ]
    ]
construct_all (cons _ items) = none

-- `_processed_inbound_response`
unfoldable pub processed_inbound_response : Inbound → Store → Option (List Fields)
unfolding construct_all
processed_inbound_response m s =
    elim (get_processed_inbound_response m.conversation m.message_id s) [
      | none ↦ none
      | some payload ↦ construct_all payload
    ]

-- `[asdict(message) for message in prepared]`
abbrev pub payload_of : List Fields → Items
payload_of [] = nil
payload_of (m ∷ ms) = cons (obj m) (payload_of ms)

abbrev pub or_else : Option (List Fields) → Option (List Fields) → Option (List Fields)
or_else none other = other
or_else (some found) other = some found

-- The service is asked unless there is an answer already.
abbrev pub asks : Answers → Option (List Fields) → Store → Store × Option (List Fields)
asks answers none s = answers.handle s
asks answers (some given) s = (s, some given)

module _ (utf8 : String → List ℕ) (digest : List ℕ → String) where
  -- The reply where the response of a processed message is not cached any more
  unfoldable pub expired_reply : Arrival → Store → Fields × Store
  unfolding delivery_id attach_reply_metadata
  expired_reply a s =
      let metadata = field "trace_id" (str a.trace_id) (
        field "delivery_id" (str (delivery_id utf8 digest "expired-response" a.inbound 0))
          (field "cached_response_expired" (bool true) end)) in
      let (attached, s') = attach_reply_metadata a.inbound.conversation a.reply_to metadata s in
      (error_message a.channel_id a.inbound expired_replay_text attached, s')

  -- The branch for a duplicate, once it is durable
  unfoldable pub replay : Answers → Arrival → Store → Handled
  unfolding expired_reply processed_inbound_response deliver_with_service_ack
  replay answers a s =
      let (expired, s') = expired_reply a s in
      elim (or_else (processed_inbound_response a.inbound s) answers.pending_response) [
        | some messages ↦ deliver_with_service_ack answers false messages true s
        | none ↦
            if is_empty a.inbound.message_id
            then deliver_with_service_ack answers false [] true s
            else deliver_with_service_ack answers false (expired ∷ []) false s'
      ]

  -- One message of the answer, if it is for this channel: its metadata
  unfoldable pub prepare_message : Arrival → Fields → Store → Fields × Store
  unfolding json_safe_mapping set_default attach_reply_metadata
  prepare_message a message s =
      let metadata =
        set_default "trace_id" (str a.trace_id)
          (json_safe_mapping (get_field message "metadata")) in
      let (attached, s') = attach_reply_metadata a.inbound.conversation a.reply_to metadata s in
      (put_field "metadata" (obj attached) message, s')

  unfoldable pub prepare : Arrival → List Fields → Store → List Fields × Store
  unfolding prepare_message
  prepare a [] s = ([], s)
  prepare a (message ∷ messages) s =
      let (prepared, s') = prepare_message a message s in
      let ours = text_field "channel_id" message == a.channel_id in
      let (rest, after) = prepare a messages (if ours then s' else s) in
      (if ours then prepared ∷ rest else rest, after)

  -- The second loop: a delivery id for each message, where the inbound message has an id
  unfoldable pub number_from : ℕ → Inbound → List Fields → List Fields
  unfolding set_default delivery_id
  number_from index m [] = []
  number_from index m (message ∷ messages) =
      let id = delivery_id utf8 digest "response" m index in
      put_field "metadata" (obj (set_default "delivery_id" (str id) (metadata_of message))) message
      ∷ number_from (suc index) m messages

  abbrev pub numbered : Inbound → List Fields → List Fields
  numbered m messages = if is_empty m.message_id then messages else number_from 0 m messages

  -- The answer of the service, or the error message in its place
  unfoldable pub answer_of : Arrival → Option (List Fields) → Store → List Fields × Store
  unfolding attach_reply_metadata
  answer_of a (some messages) s = (messages, s)
  answer_of a none s =
      let (attached, s') = attach_reply_metadata a.inbound.conversation a.reply_to end s in
      (
        error_message a.channel_id a.inbound generic_user_error_text
              (put_field "trace_id" (str a.trace_id) attached)
            ∷ [],
        s',
      )

  -- The messages that a new message is answered with, and the store before they are recorded
  unfoldable pub prepared_for : Answers → Arrival → Store → List Fields × Store
  unfolding answer_of prepare number_from
  prepared_for answers a s =
      let noted =
        note_inbound_message a.inbound.conversation a.inbound.message_id (some a.inbound.user_id)
          answers.now s in
      let (after, reply) = asks answers a.outbound_override noted in
      let (outbound, told) = answer_of a reply after in
      let (prepared, ready) = prepare a outbound told in (numbered a.inbound prepared, ready)

  -- The branch for a new message from the call of `remember_inbound_response` on
  unfoldable pub record_answer : Outcome → Answers → Inbound → Bool → List Fields → Store → Handled
  unfolding deliver_with_service_ack
  record_answer raised answers m asked messages s = record {
    store = s;
    asked = asked;
    sent = [];
    acknowledged = none;
    raises = true;
  }
  record_answer returned answers m asked messages s =
      let (committed, outcome) =
        commit_inbound_message_processed m (some (payload_of messages)) answers.now answers.commit
          s in
      elim outcome [
        | raised ↦ record {
          store = committed;
          asked = asked;
          sent = [];
          acknowledged = some false;
          raises = true;
        }
        | returned ↦ deliver_with_service_ack answers asked messages true committed
      ]

  -- The branch for a new message
  unfoldable pub answer : Answers → Arrival → Store → Handled
  unfolding prepared_for record_answer
  answer answers a s =
      let (messages, ready) = prepared_for answers a s in
      record_answer answers.remembers answers a.inbound (is_none a.outbound_override) messages ready

  -- The branch for a duplicate, after `_ensure_inbound_durable`
  unfoldable pub replay_ensured : Answers → Arrival → Store × Outcome → Handled
  unfolding replay
  replay_ensured answers a (s, returned) = replay answers a s
  replay_ensured answers a (s, raised) = record {
    store = s;
    asked = false;
    sent = [];
    acknowledged = none;
    raises = true;
  }

  unfoldable pub handle_checked : Answers → Arrival → Bool × Store → Handled
  unfolding replay_ensured answer
  handle_checked answers a (false, s) = answer answers a s
  handle_checked answers a (true, s) =
      replay_ensured answers a (ensure_inbound_message_durable a.inbound answers.commit s)

  -- `_handle_serialized`
  unfoldable pub handle_serialized : Answers → Arrival → Store → Handled
  unfolding handle_checked
  handle_serialized answers a s =
      handle_checked answers a (should_drop_duplicate_inbound_message a.inbound answers.now s)
