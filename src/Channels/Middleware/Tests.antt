-- ===== src/Channels/Middleware/Tests.antt =====
-- One message of a user that comes twice, and one that the service fails on.
use imcodex.Prelude.{ℕ, zero, String, ◌≡◌, refl, true, Option, none, some, List, [], ◌∷◌, string_eq}
use imcodex.Dict
use imcodex.Models.{Fields, end, field, str, obj, null, arr, nil, get_field, as_dict}
use imcodex.Persistence.{written, returned, raised}
use imcodex.Store.State.{Store, new_store}
use imcodex.Store.Registry.{get_binding, set_binding}
use imcodex.Store.Inbound.{should_drop_duplicate_inbound_message, note_inbound_message}
use imcodex.Bridge.Delivery.Payload.{construct, text_field}
use imcodex.Bridge.Delivery.Direct.{put_field}
use imcodex.Channels.Middleware.{
  Arrival, Answers, error_message, generic_user_error_text, answer_of, prepare, number_from,
  prepared_for, handle_serialized,
}
use imcodex.Channels.Middleware.Errors.{error-told}

program : Unit {0}
unfolding should_drop_duplicate_inbound_message note_inbound_message get_binding set_binding
    Dict.get Dict.has Dict.put prepared_for answer_of prepare number_from construct get_field
    as_dict put_field text_field
program = tt

-- Any functions that stand for the bytes of a text and for the hash.
abbrev utf8 : String → List ℕ
utf8 text = zero ∷ []

abbrev digest : List ℕ → String
digest bytes = "#"

abbrev empty : Store
empty = new_store true true 50

abbrev arrival : Arrival
arrival = record {
  channel_id = "qq";
  inbound = record {
    conversation = ("qq", "alice");
    user_id = "alice";
    message_id = "m1";
    text_fingerprint = "hello";
  };
  reply_to = "m1";
  trace_id = "trace";
  outbound_override = none;
}

abbrev hello : Fields
hello = field "channel_id" (str "qq") (
    field "conversation_id" (str "alice") (
      field "message_type" (str "result") (
        field "text" (str "hello back") (
          field "request_id" null (field "metadata" (obj end) (field "artifacts" (arr nil) end))))))

-- The adapter accepts everything.
abbrev answers : Option (List Fields) → Answers
answers reply = record {
  now = 10;
  handle = λ s. (s, reply);
  pending_response = none;
  remembers = returned;
  commit = written;
  sends = λ m. returned;
  after_commit = returned;
}

-- The adapter loses its connection.
abbrev offline : Answers
offline = record (answers (some (hello ∷ []))) { sends = λ m. raised }

error-told_example :
    (metadata : Fields) × ((handle_serialized utf8 digest (answers none) arrival empty).sent
      ≡ error_message "qq" arrival.inbound generic_user_error_text metadata ∷ [])
unfolding program
error-told_example =
    error-told utf8 digest (answers none) arrival empty refl refl refl refl refl refl
