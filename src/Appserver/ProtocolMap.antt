-- ===== src/Appserver/ProtocolMap.antt =====
-- appserver/protocol_map.py: a message of the app-server as an event. An id is a text or a number;
-- anything else counts as missing.
mod Tests
use imcodex.Prelude.{
  zero, suc, String, Bool, Option, none, some, List, [], ◌∷◌, ◌++◌, ◌&&◌, string_eq, not,
  if◌then◌else◌, is_empty, is_some, starts_with, contains,
}
use imcodex.Dict
use imcodex.Dict.{Dict}
use imcodex.Models.Json.{Json}
use imcodex.Models.{Fields, null, num, str, get_field, as_dict}
use imcodex.Channels.Middleware.Metadata.{decimal}

pub record AppServerEvent : Type 0 where
  pub direction : String
  pub method : String
  pub category : String
  pub kind : String
  pub payload : Fields
  pub thread_id : String
  pub turn_id : String
  pub item_id : String
  pub request_id : Option String
  pub process_id : Option String
  pub watch_id : Option String

abbrev pub event_kinds : Dict String String
event_kinds =
    ("item/started", "item_started")
    ∷ ("item/mcpToolCall/progress", "mcp_tool_progress")
    ∷ ("item/commandExecution/requestApproval", "approval_request")
    ∷ ("item/fileChange/requestApproval", "approval_request")
    ∷ ("item/permissions/requestApproval", "approval_request")
    ∷ ("item/tool/requestUserInput", "question_request")
    ∷ ("item/agentMessage/delta", "agent_delta")
    ∷ ("item/reasoning/summaryTextDelta", "reasoning_summary_text_delta")
    ∷ ("item/reasoning/summaryPartAdded", "reasoning_summary_part_added")
    ∷ ("item/reasoning/textDelta", "reasoning_text_delta")
    ∷ ("turn/started", "turn_started")
    ∷ ("serverRequest/resolved", "request_resolved")
    ∷ ("turn/plan/updated", "plan_updated")
    ∷ ("turn/diff/updated", "diff_updated")
    ∷ ("thread/name/updated", "thread_name_updated")
    ∷ ("item/completed", "item_completed")
    ∷ ("turn/completed", "turn_completed")
    ∷ ("thread/status/changed", "thread_status_changed")
    ∷ ("thread/goal/updated", "thread_goal_updated")
    ∷ ("thread/goal/cleared", "thread_goal_cleared")
    ∷ ("thread/compacted", "thread_compacted")
    ∷ ("model/rerouted", "model_rerouted")
    ∷ ("currentTime/read", "current_time_read")
    ∷ ("configWarning", "config_warning")
    ∷ ("deprecationNotice", "deprecation_notice")
    ∷ []

abbrev pub supported_server_request_methods : List String
supported_server_request_methods =
    "item/commandExecution/requestApproval" ∷ "item/fileChange/requestApproval"
    ∷ "item/tool/requestUserInput" ∷ "item/permissions/requestApproval" ∷ []

abbrev pub experimental_supported_server_request_methods : List String
experimental_supported_server_request_methods = "currentTime/read" ∷ []

abbrev pub host_delegated_server_request_methods : List String
host_delegated_server_request_methods = "item/tool/call" ∷ []

abbrev pub rejected_server_request_methods : List String
rejected_server_request_methods =
    "mcpServer/elicitation/request" ∷ "account/chatgptAuthTokens/refresh" ∷ "attestation/generate"
    ∷ "applyPatchApproval" ∷ "execCommandApproval" ∷ []

abbrev pub server_request_methods : List String
server_request_methods =
    supported_server_request_methods ++ experimental_supported_server_request_methods
    ++ host_delegated_server_request_methods ++ rejected_server_request_methods

abbrev pub category_prefixes : List (String × String)
category_prefixes =
    ("thread/realtime/", "realtime")
    ∷ ("thread/", "thread")
    ∷ ("turn/", "turn")
    ∷ ("item/", "item")
    ∷ ("rawResponseItem/", "item")
    ∷ ("command/exec/", "command_exec")
    ∷ ("command/", "command_exec")
    ∷ ("fs/", "fs")
    ∷ ("skills/", "skills")
    ∷ ("app/", "app")
    ∷ ("plugin/", "plugin")
    ∷ ("mcpServer/", "mcp")
    ∷ ("mcpTool", "mcp")
    ∷ ("account/", "account")
    ∷ ("currentTime/", "system")
    ∷ ("config/", "config")
    ∷ ("windowsSandbox/", "system")
    ∷ ("windows/", "system")
    ∷ ("model/", "system")
    ∷ ("hook/", "system")
    ∷ ("fuzzyFileSearch/", "system")
    ∷ []

abbrev pub system_methods : List String
system_methods = "configWarning" ∷ "deprecationNotice" ∷ "error" ∷ []

-- The category of the first prefix that fits
unfoldable pub by_prefix : List (String × String) → String → String
by_prefix [] method = "unknown"
by_prefix ((prefix, category) ∷ more) method =
    let rest = by_prefix more method in if starts_with method prefix then category else rest

unfoldable pub categorize_method : String → String
unfolding by_prefix
categorize_method method =
    if contains system_methods method then "system" else by_prefix category_prefixes method

-- `str(x)` for an id
unfoldable pub string_or_none : Option Json → Option String
unfolding decimal
string_or_none (some (str text)) = some text
string_or_none (some (num n)) = some (decimal (suc n) n)
string_or_none _ = none

-- `x or y`, for ids: an empty text and a zero are false
abbrev pub id_or : Option Json → Option Json → Option Json
id_or (some (str String.[])) other = other
id_or (some (num zero)) other = other
id_or (some (str text)) other = some (str text)
id_or (some (num n)) other = some (num n)
id_or _ other = other

abbrev pub text_or_empty_id : Option String → String
text_or_empty_id none = ""
text_or_empty_id (some text) = text

-- `str(x or "")`
unfoldable pub string_or_empty : Option Json → String
unfolding string_or_none
string_or_empty id = text_or_empty_id (string_or_none (id_or id none))

-- `request_id` where the payload has none
abbrev pub or_own_id : Option Json → Bool → Option Json → Option Json
or_own_id none is_request own = if is_request then own else none
or_own_id (some null) is_request own = if is_request then own else none
or_own_id (some id) is_request own = some id

abbrev pub kind_of : Option String → String
kind_of none = "unknown"
kind_of (some kind) = kind

-- The method is a text, or missing.
abbrev pub method_of : Fields → String
method_of message = text_or_empty_id (string_or_none (get_field message "method"))

unfoldable pub normalize_appserver_message : Fields → AppServerEvent
unfolding categorize_method string_or_none string_or_empty
normalize_appserver_message message =
    let method = method_of message in
    let payload = as_dict (get_field message "params") in
    let item = as_dict (get_field payload "item") in
    let turn = as_dict (get_field payload "turn") in
    let is_request = not (is_empty method) && is_some (get_field message "id") in
    let given = id_or (get_field payload "requestId") (get_field payload "_request_id") in
    record {
      direction = if is_request then "server_request" else "notification";
      method = method;
      category = categorize_method method;
      kind = kind_of (Dict.get event_kinds method);
      payload = payload;
      thread_id = string_or_empty (get_field payload "threadId");
      turn_id = string_or_empty (id_or (get_field payload "turnId") (get_field turn "id"));
      item_id = string_or_empty (id_or (get_field payload "itemId") (get_field item "id"));
      request_id = string_or_none (or_own_id given is_request (get_field message "id"));
      process_id = string_or_none (get_field payload "processId");
      watch_id = string_or_none (get_field payload "watchId");
    }
