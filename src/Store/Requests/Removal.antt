-- ===== src/Store/Requests/Removal.antt =====
-- What becomes of the pending requests when a turn ends or a connection is lost.
use imcodex.Prelude.{
  ℕ, String, ◌≡◌, refl, ◌∙◌, Bool, false, Option, none, some, [], ◌∷◌, map, arith, keep, All,
  if◌then◌else◌, string_eq,
}
use imcodex.Dict
use imcodex.Dict.{Dict, keys, values}
use imcodex.Dict.Laws.{All-put}
use imcodex.Dict.Unique.{IsUnique, get-pop_all, contains-keys-keep, put-IsUnique, test_at}
use imcodex.Models.{Fields, PendingNativeRequestRoute}
use imcodex.Store.State.{Store}
use imcodex.Store.Requests.{
  upsert_pending_request, get_pending_request, of_turn, of_connection,
  remove_pending_requests_for_turn, invalidate_pending_requests_for_connection,
}

abbrev pub OwnId : String × PendingNativeRequestRoute → Type 0
OwnId e = e.0 ≡ e.1.request_id

-- Every request stands under its own id, once.
pub record IsKeyed (s : Store) : Type 0 where
  pub unique : IsUnique s.pending_requests
  pub own : All OwnId s.pending_requests

-- The request is there, and passes the test.
abbrev pub passes : (PendingNativeRequestRoute → Bool) → Option PendingNativeRequestRoute → Bool
passes p none = false
passes p (some route) = p route

request_ids :
    (p : PendingNativeRequestRoute → Bool) (d : Dict String PendingNativeRequestRoute)
    → All OwnId d
    → map (λ (r : PendingNativeRequestRoute). r.request_id) (keep p (values d))
      ≡ keys (keep (λ (e : String × PendingNativeRequestRoute). p e.1) d)
request_ids p [] a = refl
request_ids p ((k, r) ∷ d) a = ground (arith, request_ids p d a.1)

get-pop_passing :
    (p : PendingNativeRequestRoute → Bool) (d : Dict String PendingNativeRequestRoute) (k : String)
    → IsUnique d
    → Dict.get
        (Dict.pop_all d (keys (keep (λ (e : String × PendingNativeRequestRoute). p e.1) d)))
        k
      ≡ (if passes p (Dict.get d k) then none else Dict.get d k)
get-pop_passing p d k u =
    let q = λ (e : String × PendingNativeRequestRoute). p e.1 in
    get-pop_all (keys (keep q d)) d k ∙ (rw (contains-keys-keep q d k u) (same (Dict.get d k)))
  where
    same :
        (o : Option PendingNativeRequestRoute)
        → (if test_at (λ (e : String × PendingNativeRequestRoute). p e.1) k o then none else o)
          ≡ (if passes p o then none else o)
    same none = refl
    same (some r) = refl

-- When a turn ends, a pending request goes exactly if it is of that turn.
get-remove_pending_requests_for_turn :
    (thread turn : String) (s : Store) (request : String)
    → IsKeyed s
    → get_pending_request request (remove_pending_requests_for_turn thread turn s) ≡ (
        if passes (of_turn thread turn) (get_pending_request request s)
        then none
        else get_pending_request request s)
unfolding get_pending_request remove_pending_requests_for_turn
get-remove_pending_requests_for_turn thread turn s request k =
    get-pop_passing (of_turn thread turn) s.pending_requests request k.unique

-- When a connection is lost, a pending request goes exactly if it came over that connection, and
-- the requests that go are returned.
get-invalidate :
    (epoch : ℕ) (s : Store) (request : String)
    → IsKeyed s
    → (get_pending_request request (invalidate_pending_requests_for_connection epoch s).1 ≡ (
        if passes (of_connection epoch) (get_pending_request request s)
        then none
        else get_pending_request request s))
      × ((invalidate_pending_requests_for_connection epoch s).0
          ≡ keep (of_connection epoch) (values s.pending_requests))
unfolding get_pending_request invalidate_pending_requests_for_connection
get-invalidate epoch s request k = (
  rw (request_ids (of_connection epoch) s.pending_requests k.own)
      (get-pop_passing (of_connection epoch) s.pending_requests request k.unique),
  refl,
)

-- A new or replaced request keeps the keys in order.
pub upsert-IsKeyed :
    (asked : PendingNativeRequestRoute) (payload : Option Fields) (s : Store)
    → IsKeyed s
    → IsKeyed (upsert_pending_request asked payload s).1
unfolding upsert_pending_request
upsert-IsKeyed asked payload s k = record {
  unique = put-IsUnique s.pending_requests _ _ k.unique;
  own = All-put OwnId s.pending_requests _ _ refl k.own;
}
