-- ===== src/Bridge/Delivery/Standalone.antt =====
-- bridge/terminal_delivery.py: `deliver_outbound_message`, which submits a message of a tool once for
-- its id. Hashes and the text of a JSON value are those of the libraries.
use Prim.Native.String.{◌++◌ as text_append}
use imcodex.Prelude.{
  String, Bool, true, false, Option, none, some, ◌==◌, not, string_eq, option_eq, if◌then◌else◌,
  is_empty,
}
use imcodex.Text.{strip}
use imcodex.Models.Json.{Json}
use imcodex.Models.{
  Pair, Items, Fields, end, field, nil, cons, get_field, as_dict, str, bool, null, obj, arr,
}
use imcodex.Store.State.{Store}
use imcodex.Store.Bindings.{find_recipient_route_by_thread_id}
use imcodex.Store.Deliveries.{
  find_delivery_id_with_prefix, is_terminal_delivery_acknowledged, get_standalone_delivery_outcome,
}
use imcodex.Bridge.Delivery.{Bridge}
use imcodex.Bridge.Delivery.Direct.{
  put_field, update_fields, metadata_of, set_metadata, delivery_id_in, Delivered, Call,
  deliver_terminal_message,
}

-- `resolve_outbound_route`; nothing is the ValueError
unfoldable pub resolve_outbound_route : String → Store → Option Pair
resolve_outbound_route source_thread s =
    let thread = strip source_thread in
    if is_empty thread then none else find_recipient_route_by_thread_id thread s

-- An attribute of a message or of an artifact
unfoldable pub value_of : String → Fields → Json
value_of name d = elim (get_field d name) [ none ↦ null | some v ↦ v ]

-- The entries of one artifact that count for the content of a message
unfoldable pub artifact_payload : Json → Json
unfolding value_of
artifact_payload artifact =
    let d = as_dict (some artifact) in
    obj (
      field "kind" (value_of "kind" d) (
        field "content_type" (value_of "content_type" d) (
          field "filename" (value_of "filename" d) (
            field "size_bytes" (value_of "size_bytes" d)
              (field "sha256" (value_of "sha256" d) end)))))

unfoldable pub artifact_payloads : Items → Items
unfolding artifact_payload
artifact_payloads nil = nil
artifact_payloads (cons artifact more) = cons (artifact_payload artifact) (artifact_payloads more)

-- The payload of `_standalone_payload_digest`
unfoldable pub standalone_payload : Fields → Fields
unfolding artifact_payloads value_of
standalone_payload message =
    let artifacts : Items = elim (get_field message "artifacts") [
      | some (arr items) ↦ artifact_payloads items
      | _ ↦ nil
    ] in
    field "channel_id" (value_of "channel_id" message) (
      field "conversation_id" (value_of "conversation_id" message) (
        field "message_type" (value_of "message_type" message)
          (field "text" (value_of "text" message) (field "artifacts" (arr artifacts) end))))

-- The prefix names another content.
abbrev pub conflicts : Option String → String → Bool
conflicts none internal = false
conflicts (some existing) internal = not (existing == internal)

-- `sha256(...).hexdigest()` and `json.dumps(..., sort_keys=True, …)`
module _ (digest : String → String) (dumps : Fields → String) where
  unfoldable pub standalone_delivery_prefix : String → String
  standalone_delivery_prefix delivery =
      text_append "imcodex:standalone:" (text_append (digest delivery) ":")

  unfoldable pub internal_delivery_id : String → Fields → String
  unfolding standalone_delivery_prefix standalone_payload
  internal_delivery_id delivery message =
      text_append (standalone_delivery_prefix delivery)
        (digest (dumps (standalone_payload message)))

  -- A message whose delivery is acknowledged already: nothing is sent.
  unfoldable pub acknowledged_result : String → String → Fields → Store → Delivered
  unfolding set_metadata update_fields
  acknowledged_result delivery internal message s =
      let named = set_metadata "external_delivery_id" (str delivery) message in
      let noted : Fields = elim (get_standalone_delivery_outcome internal s) [
        | some outcome ↦
            put_field "artifacts" (arr nil)
              (put_field "metadata" (obj (update_fields (metadata_of named) outcome)) named)
        | none ↦ set_metadata "artifact_outcome_unknown" (bool true) named
      ] in
      record {
        message = set_metadata "delivery_id" (str delivery) noted;
        delivered = true;
        durable = true;
      }

  unfoldable pub deliver_outbound_message : Call → Fields → Bridge → Bridge × Option Delivered
  unfolding internal_delivery_id acknowledged_result deliver_terminal_message set_metadata
  deliver_outbound_message call message b =
      let delivery = strip (delivery_id_in message) in
      let internal = internal_delivery_id delivery message in
      let named =
        set_metadata "external_delivery_id" (str delivery)
          (set_metadata "delivery_id" (str internal) message) in
      if is_empty delivery
      then (b, none)
      else if conflicts (find_delivery_id_with_prefix (standalone_delivery_prefix delivery) b.store)
          internal
      then (b, none)
      else if is_terminal_delivery_acknowledged internal b.store
      then (b, some (acknowledged_result delivery internal message b.store))
      else deliver_terminal_message call internal "" "" named b
