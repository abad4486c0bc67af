-- ===== src/Store/Requests/Tests.antt =====
-- Requests of two conversations, selected by tokens.
use imcodex.Prelude.{
  String, ◌≡◌, ◌↔◌, ◌<◌, refl, true, none, some, [], ◌∷◌, keep, length, All, string_eq,
}
use imcodex.Text.{strip, lstrip, rstrip, take_chars}
use imcodex.Dict
use imcodex.Dict.{values}
use imcodex.Models.{end, Pair, PendingNativeRequestRoute}
use imcodex.Store.State.{Store, new_store}
use imcodex.Store.Requests.{
  upsert_pending_request, list_pending_requests, get_pending_request, select_pending_requests,
  match_pending_request, names, abbreviates, unambiguous, exact_or, by_token, select_among,
  only_candidate,
}
use imcodex.Store.Requests.Selection.{
  IsCandidate, IsToken, select-IsCandidate, select-none_iff, select-names, match-only_iff,
}
use imcodex.Store.Requests.Removal.{IsKeyed, upsert-IsKeyed}

program : Unit {0}
unfolding upsert_pending_request list_pending_requests get_pending_request select_pending_requests
    match_pending_request unambiguous exact_or by_token select_among only_candidate Dict.put
    Dict.get take_chars strip lstrip rstrip
program = tt

abbrev alice : Pair
alice = ("qq", "alice")

abbrev request : String → String → PendingNativeRequestRoute
request id turn = record {
  request_id = id;
  request_handle = none;
  channel_id = "qq";
  conversation_id = "alice";
  thread_id = some "t1";
  turn_id = some turn;
  kind = "approval";
  request_method = none;
  transport_request_id = none;
  connection_epoch = 1;
  payload = end;
}

abbrev first : Store
first = (upsert_pending_request (request "abc-1" "u1") none (new_store true true 50)).1

abbrev two : Store
two = (upsert_pending_request (request "abc-2" "u2") none first).1

two-IsKeyed : IsKeyed two
two-IsKeyed = upsert-IsKeyed (request "abc-2" "u2") none first (
    upsert-IsKeyed (request "abc-1" "u1") none (new_store true true 50)
      (record { unique = tt; own = tt }))

-- "abc" abbreviates both requests, "abc-2" names one.
ambiguous : select_pending_requests alice (some " abc ") none two ≡ none
unfolding program
ambiguous = refl

given-IsToken : IsToken "abc-2"
unfolding program
given-IsToken = refl

select-IsCandidate_example :
    All (IsCandidate alice none) ((upsert_pending_request (request "abc-2" "u2") none first).0 ∷ [])
unfolding program
select-IsCandidate_example =
    select-IsCandidate alice (some "abc-2") none two
      ((upsert_pending_request (request "abc-2" "u2") none first).0 ∷ []) refl

select-none_iff_example : (select_pending_requests alice (some "abc-2") none two ≡ none) ↔ (
    (keep (names (strip "abc-2")) (list_pending_requests alice none two) ≡ [])
    × (1 < length (keep (abbreviates (strip "abc-2")) (list_pending_requests alice none two))))
select-none_iff_example = select-none_iff alice "abc-2" none two given-IsToken

abbrev second : PendingNativeRequestRoute
second = (upsert_pending_request (request "abc-2" "u2") none first).0

select-names_example : select_pending_requests alice (some "abc-2") none two ≡ some (second ∷ [])
unfolding program
select-names_example = select-names alice "abc-2" none two given-IsToken second refl

match-only_iff_example :
    (match_pending_request alice none none first
      ≡ some
          (some ((upsert_pending_request (request "abc-1" "u1") none (new_store true true 50)).0)))
    ↔ (list_pending_requests alice none first
        ≡ (upsert_pending_request (request "abc-1" "u1") none (new_store true true 50)).0 ∷ [])
match-only_iff_example =
    match-only_iff alice none first
      ((upsert_pending_request (request "abc-1" "u1") none (new_store true true 50)).0)
