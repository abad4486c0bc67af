-- ===== src/Lib.antt =====
-- A verification library for imcodex, a bridge between messengers and a native agent: its state, the
-- buffers and the delivery of what a turn says, and the handling of what users send.
--
-- The program. Channels (src/imcodex/channels) receive messages of users, the bridge
-- (src/imcodex/bridge) turns them into calls of a native app-server (src/imcodex/appserver), and what
-- the server reports goes back to the channels. Between them stands one object,
-- `ConversationStore` (src/imcodex/store.py with its mixins store_terminal_deliveries.py,
-- store_pending_requests.py and store_native_events.py): which conversation is bound to which native
-- thread, which requests wait for an answer, which messages have been processed, and which messages
-- of finished turns are still to be delivered. `MessagePump` (src/imcodex/bridge/message_pump.py)
-- buffers what a turn says and turns it into messages. The terminal delivery
-- (src/imcodex/bridge/terminal_delivery.py) stages such a message in the store, writes the store, and
-- then gives it to a channel, again and again until the channel accepts it. The middleware
-- (src/imcodex/channels/middleware.py) asks the bridge for the answer to a message of a user, records
-- it in the store, and only then sends it.
--
-- The files.
-- Prelude and its children: shared names, lists, Python's `==` as the class Eq, slices, sorting.
-- Dict: Python's dict as a list of items in the order of insertion. Laws, Unique and Trim hold its
--   laws.
-- Text: `str.strip`, `join`, `split` by one character, and `Path(...).stem` in Text/Paths.
--   Text/Said has the laws of texts that are not blank.
-- Models: the records of src/imcodex/models.py, in Json the values of payloads, in Messages what
--   is sent to channels.
-- Persistence: the numbering, queueing and writing of snapshots in store.py (`_save`,
--   `_run_background_writer`, `_write_serialized_state`, `flush_pending_writes`). System is a step
--   relation in which saves, commits and the ends of writes fall in any order; Invariant, Rounds and
--   Durable prove what holds along its steps. Flush is a flush that nothing disturbs.
-- Store: the methods of `ConversationStore`, one module for each group, each with its proofs in
--   child modules: State (`__init__`, `_snapshot_state`), Registry and Bindings (bindings and
--   routes), Turns (active and suppressed turns, browser contexts), Inbound (deduplication and
--   durable commits), Deliveries, Requests and Journal (the mixins), Load (`_load`).
--   Calls has every method that changes the state as one type of calls, with what every call keeps.
-- Bridge/Pump: the methods of `MessagePump`; Artifacts and Endings hold those on artifacts and on
--   the end of a turn, Calls the sequences of calls.
-- Bridge/Delivery: `_deliver_pending_terminal_once` and the retry task of terminal_delivery.py, with
--   the ids that core.py remembers. Payload reads a stored message as `OutboundMessage(**payload)`
--   does; Direct is `_deliver_terminal_message`, Standalone is `deliver_outbound_message`. Handling
--   and Outbox hold how a pass treats one message and the whole outbox; Order, Settled, Ready, Ending,
--   Written, Remembered and Once are named for what they prove.
-- Bridge/Identity: the ids of terminal_identity.py, for live events and for recovered turns.
-- Channels/Access: `ChannelAccessPolicy` of channels/access.py. Channels/Text: `split_text` of
--   channels/text.py.
-- Channels/Artifacts: `deliver_artifact_batch` of channels/artifacts.py with its receipts, in Receipts
--   how these are appended, in Checkpoint where a batch stops. Channels/Outbound: the sink
--   for a channel of channels/outbound.py, in Routing what a sink is given. Channels/Webhook: the posts
--   of its webhook, in Retries how a call ends.
-- Channels/Middleware: `_handle_serialized` of channels/middleware.py; Metadata is what it writes into
--   the metadata of a message, Replay and Errors hold the proofs.
-- Appserver/ProtocolMap: `normalize_appserver_message` of appserver/protocol_map.py with its tables.
-- A method takes its arguments and the store (or the buffers) and returns its result with the new
-- store; its name is the method's without a leading underscore. A method that may raise returns an
-- Option, or an Outcome where the file system is the reason. Tests beside the proofs run the
-- definitions and apply the theorems at concrete values.
--
-- Conventions. Times are natural numbers of milliseconds, and an interval that would be negative is
-- zero, which the comparisons with a window treat alike. Sets are lists without order in the
-- statements. Values are immutable here, so that `copy.deepcopy` is the identity; a binding that the
-- code changes in place is written back under its key. The clock's value is an argument. The reply
-- context of a binding is a record of the five entries that the code uses. The store's files are
-- parametric in the file system: each write is told how it ends. The sink of a delivery, the service
-- and the adapter answer as arguments say, an exception included; a pass of the retry task is one
-- round of answers, and nothing else changes the store between the sends of a pass. A message that is
-- sent or stored is the fields that `asdict` gives for it, and its ids are texts. The utf-8 encoding,
-- sha256 and the text of a JSON value are functions that the definitions take, with no more assumed
-- than the theorems say. Loops run over lists, but for two on fuel: `split_text` has the length of the
-- text and one more, which is proved to be enough, as each part is at least one character; the digits
-- of a number have the number and one more, which is enough as a division by ten makes it smaller.
--
-- What is not modelled. The JSON text of a snapshot: a snapshot is a record, which Store/Load reads
-- back, and the entries of older versions are left out. The cancellation of the background writer. A
-- save without an event loop writes at once and is taken to succeed. In Store/Inbound a commit is one
-- step; its interleavings with other writes are in Persistence/System. Limits below zero, and paths
-- with backslashes. `referenced_terminal_artifact_paths`. In `recover_turn`, a path of a changed file
-- counts if it is a text, and the `changes` of an item are a list or missing: anything else, a null
-- included, raises a TypeError in the code and is an empty list here. In the terminal delivery: the spool of artifact files, the health report,
-- the delays between rounds and cancellation. In the middleware: the lock of a conversation, the
-- preparation of attachments, the events that are logged, and the hash of the content, which is an
-- argument. In the outbound sinks: the payload and the headers of a post, and the check of the endpoint.
-- The channels' network protocols, the native client, the administration, the command lines
-- and the logs, which are input and output.
pub mod Prelude
pub mod Dict
pub mod Text
pub mod Models
pub mod Persistence
pub mod Store
pub mod Bridge
pub mod Channels
pub mod Appserver
