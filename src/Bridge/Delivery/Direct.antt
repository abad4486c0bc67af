-- ===== src/Bridge/Delivery/Direct.antt =====
-- bridge/terminal_delivery.py: `_deliver_terminal_message`, which stages a message and sends it.
use imcodex.Prelude.{
  ℕ, String, Bool, true, false, Option, none, some, ◌==◌, ◌&&◌, not, string_eq, option_eq,
  if◌then◌else◌, is_empty, find,
}
use imcodex.Models.Json.{Json}
use imcodex.Models.{Fields, end, field, get_field, as_dict, str, obj, PendingTerminalDelivery}
use imcodex.Persistence.{Io, returned, raised}
use imcodex.Store.State.{Store}
use imcodex.Store.Deliveries.{
  stage_terminal_delivery, list_pending_terminal_deliveries, update_terminal_delivery_message,
  complete_terminal_delivery,
}
use imcodex.Bridge.Delivery.{
  sent, failed, Sink, Bridge, note_attempt, store_receipts, flush, schedule_terminal_delivery_retry,
}
use imcodex.Bridge.Delivery.Payload.{construct, text_field, route_of}

-- `d[name] = value`
unfoldable pub put_field : String → Json → Fields → Fields
put_field name value end = field name value end
put_field name value (field k v d) =
    let rest = put_field name value d in if k == name then field k value d else field k v rest

-- `d.update(other)`
unfoldable pub update_fields : Fields → Fields → Fields
unfolding put_field
update_fields d end = d
update_fields d (field k v other) = update_fields (put_field k v d) other

-- `message.metadata`, and an assignment into it
abbrev pub metadata_of : Fields → Fields
metadata_of message = as_dict (get_field message "metadata")

unfoldable pub set_metadata : String → Json → Fields → Fields
unfolding put_field
set_metadata name value message =
    put_field "metadata" (obj (put_field name value (metadata_of message))) message

-- `str(message.metadata.get("delivery_id") or "")`, for ids that are texts
abbrev pub delivery_id_in : Fields → String
delivery_id_in message = text_field "delivery_id" (metadata_of message)

-- What a call returns: the message, whether it is delivered, whether it is durable.
pub record Delivered : Type 0 where
  pub message : Fields
  pub delivered : Bool
  pub durable : Bool

-- How far a call has come before the sink is asked: it is over, with its result or an exception, or
-- the message is sent next.
pub data Begun : Type 0 where
  over : Option Delivered → Begun
  sends : Fields → Begun

-- The comparison with one payload: a missing id is not equal to a text.
unfoldable pub has_text : String → String → Fields → Bool
has_text name wanted payload = elim (get_field payload name) [
  | some (str text) ↦ text == wanted
  | _ ↦ false
]

unfoldable pub on_same_route : Fields → PendingTerminalDelivery → Bool
unfolding has_text
on_same_route message p =
    has_text "channel_id" (text_field "channel_id" message) p.message
    && has_text "conversation_id" (text_field "conversation_id" message) p.message

unfoldable pub is_terminal_route_head : String → Fields → Store → Bool
unfolding on_same_route
is_terminal_route_head delivery message s =
    elim (find (on_same_route message) (list_pending_terminal_deliveries none s)) [
      | none ↦ true
      | some p ↦ p.delivery_id == delivery
    ]

-- The answers to one call: what `prepare_durable_message` makes of the message, or an exception; the
-- file system at the first flush and at the second; the clock; and the sink.
pub record Call : Type 0 where
  pub prepare : Fields → Option Fields
  pub first : Io
  pub second : Io
  pub now : ℕ
  pub sink : Sink

-- The branch of a first flush that raises
unfoldable pub not_durable : Call → String → Fields → Bridge → Bridge × Begun
unfolding flush
not_durable call delivery message b =
    let (again, outcome) =
      flush call.second
        (record b { store = update_terminal_delivery_message delivery message b.store }) in
    (
      schedule_terminal_delivery_retry again,
      over (
          some (record {
            message = message;
            delivered = false;
            durable = elim outcome [ returned ↦ true | raised ↦ false ];
          })),
    )

-- From the staged message to the call of the sink
unfoldable pub begin_staged : Call → String → Fields → Bridge → Bridge × Begun
unfolding flush not_durable is_terminal_route_head
begin_staged call delivery message b =
    let (flushed, outcome) = flush call.first b in
    let waiting : Bridge × Begun = (
      schedule_terminal_delivery_retry flushed,
      over (some (record { message = message; delivered = false; durable = true })),
    ) in
    elim outcome [
      | raised ↦ not_durable call delivery message flushed
      | returned ↦
          if not (is_terminal_route_head delivery message flushed.store)
          then waiting
          else (flushed, sends message)
    ]

-- `_deliver_terminal_message` up to the call of the sink
unfoldable pub begin_delivery : Call → String → String → String → Fields → Bridge → Bridge × Begun
unfolding set_metadata begin_staged
begin_delivery call delivery thread turn message b =
    let existing = delivery_id_in message in
    if not (is_empty existing) && not (existing == delivery)
    then (b, over none)
    else elim (call.prepare (set_metadata "delivery_id" (str delivery) message)) [
      | none ↦ (b, over none)
      | some ready ↦ elim (stage_terminal_delivery delivery thread turn ready call.now b.store) [
        | none ↦ (b, over none)
        | some (pending, staged) ↦ elim (construct pending.message) [
          | none ↦ (record b { store = staged }, over none)
          | some kept ↦ begin_staged call delivery kept (record b { store = staged })
        ]
      ]
    ]

-- `_flush_terminal_delivery_ack`
unfoldable pub flush_terminal_delivery_ack : Io → Bridge → Bridge
unfolding flush
flush_terminal_delivery_ack io b =
    let (flushed, outcome) = flush io b in
    elim outcome [
      | returned ↦ flushed
      | raised ↦
          schedule_terminal_delivery_retry (record flushed { ack_persistence_pending = true })
    ]

-- `_deliver_terminal_message` from the answer of the sink
unfoldable pub finish_delivery :
    Call → String → String → Fields → Bridge → Bridge × Option Delivered
unfolding flush_terminal_delivery_ack flush
finish_delivery call delivery thread message b = elim (call.sink delivery message) [
  | failed final ↦ (
    schedule_terminal_delivery_retry
        (flush call.second (record (note_attempt (route_of message) delivery false b) {
          store = update_terminal_delivery_message delivery final b.store;
        })).0,
    some (record { message = final; delivered = false; durable = true }),
  )
  | sent final ↦ (
    flush_terminal_delivery_ack call.second
        (record (note_attempt (route_of message) delivery true b) {
          store =
              complete_terminal_delivery delivery (store_receipts thread delivery final b.store);
        }),
    some (record { message = final; delivered = true; durable = true }),
  )
]

unfoldable pub deliver_terminal_message :
    Call → String → String → String → Fields → Bridge → Bridge × Option Delivered
unfolding begin_delivery finish_delivery
deliver_terminal_message call delivery thread turn message b =
    let (begun, next) = begin_delivery call delivery thread turn message b in
    elim next [
      | over result ↦ (begun, result)
      | sends ready ↦ finish_delivery call delivery thread ready begun
    ]
