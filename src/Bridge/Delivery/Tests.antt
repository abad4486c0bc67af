-- ===== src/Bridge/Delivery/Tests.antt =====
-- Two messages on the way to one conversation.
use imcodex.Prelude.{
  String, ◌≡◌, refl, true, false, not, Option, some, [], ◌∷◌, ◌++◌, arith, keep, ◌==◌, string_eq,
  pair_eq, if◌then◌else◌, sorted,
}
use Prim.Native.String.{◌++◌ as text_append}
use imcodex.Text.{strip}
use imcodex.Dict
use imcodex.Dict.{values}
use imcodex.Models.{Fields, end, field, str, obj, null, arr, nil, get_field, as_dict}
use imcodex.Persistence
use imcodex.Persistence.{written, failed as write_failed}
use imcodex.Store.State.{Store, new_store, save}
use imcodex.Store.Deliveries.{
  stage_new, find_delivery_id_with_prefix, is_terminal_delivery_acknowledged,
  stage_terminal_delivery, list_pending_terminal_deliveries,
}
use imcodex.Store.Deliveries.Outbox.{IsOutbox}
use imcodex.Store.Deliveries.Listing.{stage_new-IsOutbox}
use imcodex.Bridge.Delivery.{sent, failed, Bridge, Round, deliver_pending_terminal_once}
use imcodex.Bridge.Delivery.Payload.{message_of, text_field}
use imcodex.Bridge.Delivery.Handling.{is_durable}
use imcodex.Bridge.Delivery.Order.{on_route, until_refused, pass-in_order}
use imcodex.Bridge.Delivery.Settled.{is_delivered, pass-owes}
use imcodex.Bridge.Delivery.Ready.{IsReady}
use imcodex.Bridge.Delivery.Direct.{Call, begin_delivery, Delivered}
use imcodex.Bridge.Delivery.Written.{IsOnDisk, IsAlone, begin-durable}
use imcodex.Bridge.Delivery.Standalone.{deliver_outbound_message}
use imcodex.Bridge.Delivery.Once.{resubmit, outbound-once}

program : Unit {0}
unfolding stage_new Dict.get Dict.has Dict.put save message_of begin_delivery
    deliver_outbound_message strip get_field as_dict find_delivery_id_with_prefix
    is_terminal_delivery_acknowledged stage_terminal_delivery Persistence.flush_pending_writes
    Persistence.save list_pending_terminal_deliveries sorted
program = tt

abbrev payload : String → Fields
payload text = field "channel_id" (str "qq") (
    field "conversation_id" (str "alice")
      (field "message_type" (str "agentMessage") (field "text" (str text) end)))

abbrev empty : Store
empty = new_store true true 50

abbrev one : Store
one = (stage_new "d1" "t1" "u1" (payload "first") 10 empty).1

abbrev two : Store
two = (stage_new "d2" "t1" "u2" (payload "second") 20 one).1

abbrev bridge : Store → Bridge
bridge s = record {
  store = s;
  recent_terminal_deliveries = [];
  recent_completed_turns = [];
  ack_persistence_pending = false;
  closed = false;
  retry_running = true;
  attempts = [];
}

empty-IsOutbox : IsOutbox empty
empty-IsOutbox = record { unique = tt; own = tt; ascending = tt; counted = tt }

two-IsOutbox : IsOutbox two
unfolding program
two-IsOutbox =
    stage_new-IsOutbox "d2" "t1" "u2" (payload "second") 20 one refl
      (stage_new-IsOutbox "d1" "t1" "u1" (payload "first") 10 empty refl empty-IsOutbox)

empty-IsReady : IsReady empty
empty-IsReady = record {
  path = refl;
  loop = refl;
  persisted = omega arith;
  numbered = tt;
  queued = tt;
}

-- The channel accepts everything, or everything but the first message.
abbrev working : Round
working = record {
  before = written;
  sink = λ delivery message. sent message;
  after = written;
  acknowledged = written;
}

abbrev refusing : Round
refusing = record working {
  sink = λ delivery message. if delivery == "d1" then failed message else sent message;
}

-- The payload as a message: what it leaves out has its default.
abbrev read : String → Fields → Fields
read text metadata = field "channel_id" (str "qq") (
    field "conversation_id" (str "alice") (
      field "message_type" (str "agentMessage") (
        field "text" (str text) (
          field "request_id" null
            (field "metadata" (obj metadata) (field "artifacts" (arr nil) end))))))

read_second : message_of (payload "second") ≡ some (read "second" end)
unfolding message_of get_field
read_second = refl

pass-in_order_example :
    keep (on_route ("qq", "alice")) (deliver_pending_terminal_once refusing (bridge two)).1.attempts
    ≡ keep (on_route ("qq", "alice")) (bridge two).attempts
      ++ (if is_durable refusing (bridge two)
          then until_refused refusing.sink ("qq", "alice") (values two.pending_terminal_deliveries)
          else [])
pass-in_order_example = pass-in_order refusing ("qq", "alice") (bridge two) two-IsOutbox

pass-owes_example :
    Dict.has
      (deliver_pending_terminal_once refusing (bridge two)).1.store.pending_terminal_deliveries
      "d2"
    ≡ not (is_delivered (deliver_pending_terminal_once refusing (bridge two)).1.attempts "d2")
unfolding program
pass-owes_example =
    pass-owes refusing "d2" (stage_new "d2" "t1" "u2" (payload "second") 20 one).0
      (read "second" end) (bridge two) two-IsOutbox refl read_second refl

abbrev call : Call
call = record {
  prepare = λ message. some message;
  first = written;
  second = write_failed;
  now = 30;
  sink = λ delivery message. sent message;
}

abbrev begun : Bridge
begun = (begin_delivery call "d3" "t2" "u3" (read "third" end) (bridge empty)).0

abbrev named : String → Fields
named delivery = field "delivery_id" (str delivery) end

begin-durable_example : IsOnDisk "d3" begun × IsAlone "d3" (read "third" (named "d3")) begun
unfolding program
begin-durable_example =
    begin-durable call "d3" "t2" "u3" (read "third" end) (read "third" (named "d3")) (bridge empty)
      begun empty-IsReady empty-IsOutbox refl refl

-- Any functions that stand for the hash and for the text of a value.
abbrev digest : String → String
digest text = text_append "#" text

abbrev dumps : Fields → String
dumps message = text_field "text" message

abbrev delivered : Bridge × Option Delivered
delivered = deliver_outbound_message digest dumps call (read "report" (named "r1")) (bridge empty)

abbrev receipt : Delivered
receipt = record {
  message = read "report" (
      field "delivery_id" (str "imcodex:standalone:#r1:#report")
        (field "external_delivery_id" (str "r1") end));
  delivered = true;
  durable = true;
}

outbound-once_example :
    resubmit digest dumps (read "report" (named "r1")) (call ∷ call ∷ []) delivered.0 ≡ delivered.0
unfolding program
outbound-once_example =
    outbound-once digest dumps call (read "report" (named "r1")) (call ∷ call ∷ []) (bridge empty)
      delivered.0 receipt refl refl
