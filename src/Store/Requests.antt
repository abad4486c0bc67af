-- ===== src/Store/Requests.antt =====
-- store_pending_requests.py: the requests of the native side that wait for an answer. The proofs
-- are in the modules below.
pub mod Selection
pub mod Removal
mod Tests
use imcodex.Prelude.{
  ℕ, String, Bool, true, false, Option, none, some, List, [], ◌∷◌, ◌==◌, ◌&&◌, ◌||◌, string_eq,
  number_eq, option_eq, if◌then◌else◌, is_empty, truthy, keep, take, length, starts_with, map,
}
use imcodex.Text.{strip, take_chars}
use imcodex.Dict
use imcodex.Dict.{Dict, keys, values}
use imcodex.Models.{Pair, Fields, end, TransportId, PendingNativeRequestRoute}
use imcodex.Store.State.{Store}

-- `request_handle or request_id[:8]`
abbrev pub handle_or_prefix : Option String → String → Option String
handle_or_prefix handle request = if truthy handle then handle else some (take_chars 8 request)

-- `payload or {}`
abbrev payload_or_empty : Option Fields → Fields
payload_or_empty none = end
payload_or_empty (some payload) = payload

-- `upsert_pending_request`: the route is what the arguments say, under its request id.
unfoldable pub upsert_pending_request :
    PendingNativeRequestRoute → Option Fields → Store → PendingNativeRequestRoute × Store
upsert_pending_request asked payload s =
    let route = record asked {
      request_handle = handle_or_prefix asked.request_handle asked.request_id;
      payload = payload_or_empty payload;
    } in
    (route, record s { pending_requests = Dict.put s.pending_requests route.request_id route })

-- `kind is None or route.kind == kind`
abbrev pub of_kind : Option String → PendingNativeRequestRoute → Bool
of_kind none route = true
of_kind (some kind) route = route.kind == kind

abbrev pub routed_to : Pair → PendingNativeRequestRoute → Bool
routed_to (channel, conversation) route =
    route.channel_id == channel && route.conversation_id == conversation

unfoldable pub list_pending_requests : Pair → Option String → Store → List PendingNativeRequestRoute
list_pending_requests conversation kind s =
    keep (of_kind kind) (keep (routed_to conversation) (values s.pending_requests))

unfoldable pub get_pending_request : String → Store → Option PendingNativeRequestRoute
get_pending_request request s = Dict.get s.pending_requests request

-- The token names the request, in full or by its handle.
abbrev pub names : String → PendingNativeRequestRoute → Bool
names token route = route.request_id == token || route.request_handle == some token

abbrev handle_starts_with : Option String → String → Bool
handle_starts_with none token = false
handle_starts_with (some handle) token = starts_with handle token

abbrev pub abbreviates : String → PendingNativeRequestRoute → Bool
abbreviates token route =
    starts_with route.request_id token || handle_starts_with route.request_handle token

-- `token is None or not token.strip()`
abbrev pub no_token : Option String → Bool
no_token none = true
no_token (some token) = is_empty (strip token)

-- The prefix matches, and none is the ValueError of an ambiguous prefix.
unfoldable pub unambiguous :
    List PendingNativeRequestRoute → Option (List PendingNativeRequestRoute)
unambiguous [] = some []
unambiguous (route ∷ []) = some (route ∷ [])
unambiguous (_ ∷ _ ∷ _) = none

-- `exact[:1]` if there is an exact match
unfoldable pub exact_or :
    List PendingNativeRequestRoute
    → Option (List PendingNativeRequestRoute)
    → Option (List PendingNativeRequestRoute)
exact_or [] otherwise = otherwise
exact_or (route ∷ _) otherwise = some (route ∷ [])

unfoldable pub by_token :
    String → List PendingNativeRequestRoute → Option (List PendingNativeRequestRoute)
unfolding unambiguous exact_or
by_token token candidates =
    exact_or (keep (names token) candidates) (unambiguous (keep (abbreviates token) candidates))

-- `select_pending_requests` on the candidates, and none is its ValueError.
unfoldable pub select_among :
    Option String → List PendingNativeRequestRoute → Option (List PendingNativeRequestRoute)
unfolding by_token
select_among token [] = some []
select_among none candidates = some candidates
select_among (some token) candidates =
    if is_empty (strip token) then some candidates else by_token (strip token) candidates

unfoldable pub select_pending_requests :
    Pair → Option String → Option String → Store → Option (List PendingNativeRequestRoute)
unfolding list_pending_requests
select_pending_requests conversation token kind s =
    select_among token (list_pending_requests conversation kind s)

-- `match_pending_request` on the selected requests.
unfoldable pub only_candidate :
    Bool → List PendingNativeRequestRoute → Option PendingNativeRequestRoute
only_candidate blank [] = none
only_candidate blank (route ∷ []) = some route
only_candidate true (route ∷ _ ∷ _) = none
only_candidate false (route ∷ _ ∷ _) = some route

-- The outer none is the ValueError.
unfoldable pub match_pending_request :
    Pair → Option String → Option String → Store → Option (Option PendingNativeRequestRoute)
unfolding only_candidate
match_pending_request conversation token kind s =
    elim (select_pending_requests conversation token kind s) [
      | none ↦ none
      | some candidates ↦ some (only_candidate (no_token token) candidates)
    ]

unfoldable pub remove_pending_request : String → Store → Option PendingNativeRequestRoute × Store
remove_pending_request request s = (
  Dict.get s.pending_requests request,
  record s { pending_requests = Dict.pop s.pending_requests request },
)

-- The requests of one turn.
abbrev pub of_turn : String → String → PendingNativeRequestRoute → Bool
of_turn thread turn route = route.thread_id == some thread && route.turn_id == some turn

unfoldable pub remove_pending_requests_for_turn : String → String → Store → Store
remove_pending_requests_for_turn thread turn s = record s {
  pending_requests =
      Dict.pop_all s.pending_requests
        (keys (keep (λ e. of_turn thread turn e.1) s.pending_requests));
}

abbrev pub of_connection : ℕ → PendingNativeRequestRoute → Bool
of_connection epoch route = route.connection_epoch == epoch

unfoldable pub invalidate_pending_requests_for_connection :
    ℕ → Store → List PendingNativeRequestRoute × Store
invalidate_pending_requests_for_connection epoch s =
    let removed = keep (of_connection epoch) (values s.pending_requests) in
    (
      removed,
      record s {
        pending_requests = Dict.pop_all s.pending_requests (map (λ r. r.request_id) removed);
      },
    )
