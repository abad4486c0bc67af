-- ===== src/Appserver/ProtocolMap/Tests.antt =====
-- A request of the server, and a notification.
use imcodex.Prelude.{◌≡◌, refl, some, none, string_eq}
use imcodex.Dict
use imcodex.Models.{Fields, end, field, num, str, obj, get_field, as_dict}
use imcodex.Appserver.ProtocolMap.{normalize_appserver_message, categorize_method}

abbrev request : Fields
request = field "method" (str "item/fileChange/requestApproval") (
    field "id" (num 17) (
      field "params"
        (obj (field "threadId" (str "t1") (field "turn" (obj (field "id" (str "u1") end)) end)))
        end))

request_read : normalize_appserver_message request ≡ record {
  direction = "server_request";
  method = "item/fileChange/requestApproval";
  category = "item";
  kind = "approval_request";
  payload = field "threadId" (str "t1") (field "turn" (obj (field "id" (str "u1") end)) end);
  thread_id = "t1";
  turn_id = "u1";
  item_id = "";
  request_id = some "17";
  process_id = none;
  watch_id = none;
}
unfolding normalize_appserver_message get_field as_dict Dict.get
request_read = refl

-- The longer of two prefixes that fit stands first.
realtime : categorize_method "thread/realtime/started" ≡ "realtime"
unfolding categorize_method
realtime = refl

unknown : categorize_method "threads" ≡ "unknown"
unfolding categorize_method
unknown = refl
