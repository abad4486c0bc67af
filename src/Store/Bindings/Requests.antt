-- ===== src/Store/Bindings/Requests.antt =====
-- Who sees the requests of a native thread after a conversation has taken it over.
use imcodex.Prelude.{
  String, ◌≡◌, refl, sym, ap, ◌∙◌, Bool, true, false, none, some, List, [], ◌∷◌, ◌==◌, string_eq,
  pair_eq, option_eq, beq_refl, not, keep, map, Bool-cases, inl, inr,
}
use imcodex.Dict.{Dict, values, map_values}
use imcodex.Models.{Pair, PendingNativeRequestRoute}
use imcodex.Store.State.{Store}
use imcodex.Store.Requests.{routed_to, of_kind, list_pending_requests}
use imcodex.Store.Bindings.{reroute, bind_thread}
use imcodex.Store.Bindings.Routing.{pending-bind_thread}

-- A request of the thread
abbrev pub is_of : String → PendingNativeRequestRoute → Bool
is_of thread route = route.thread_id == some thread

-- The request as one of the conversation
abbrev pub addressed_to : Pair → PendingNativeRequestRoute → PendingNativeRequestRoute
addressed_to (channel, conversation) route = record route {
  channel_id = channel;
  conversation_id = conversation;
}

-- What a conversation sees of some requests
abbrev seen_by : Pair → List PendingNativeRequestRoute → List PendingNativeRequestRoute
seen_by conversation routes = keep (of_kind none) (keep (routed_to conversation) routes)

module _ (key : Pair) (thread : String) where
  reroute-on :
      (r : PendingNativeRequestRoute)
      → is_of thread r ≡ true
      → reroute key thread r ≡ addressed_to key r
  unfolding reroute
  reroute-on r h = rw h refl

  reroute-off : (r : PendingNativeRequestRoute) → is_of thread r ≡ false → reroute key thread r ≡ r
  unfolding reroute
  reroute-off r h = rw h refl

  own_route : (r : PendingNativeRequestRoute) → routed_to key (addressed_to key r) ≡ true
  own_route r = rw (beq_refl key.0, beq_refl key.1) refl

  moved : List PendingNativeRequestRoute → List PendingNativeRequestRoute
  moved routes = map (reroute key thread) routes

  seen-own :
      (routes : List PendingNativeRequestRoute)
      → keep (is_of thread) (seen_by key (moved routes))
        ≡ map (addressed_to key) (keep (is_of thread) routes)
  unfolding moved
  seen-own [] = refl
  seen-own (r ∷ rs) = elim (Bool-cases (is_of thread r)) [
    | inl h ↦ rw (reroute-on r h, own_route r, h) (ap (λ xs. addressed_to key r ∷ xs) (seen-own rs))
    | inr h ↦ elim (Bool-cases (routed_to key r)) [
      | inl k ↦ rw (reroute-off r h, k, h) (seen-own rs)
      | inr k ↦ rw (reroute-off r h, k, h) (seen-own rs)
    ]
  ]

  seen-other :
      (other : Pair) (routes : List PendingNativeRequestRoute)
      → (key == other) ≡ false
      → keep (is_of thread) (seen_by other (moved routes)) ≡ []
  unfolding moved
  seen-other other [] apart = refl
  seen-other other (r ∷ rs) apart = elim (Bool-cases (is_of thread r)) [
    | inl h ↦ rw (reroute-on r h, apart) (seen-other other rs apart)
    | inr h ↦ elim (Bool-cases (routed_to other r)) [
      | inl k ↦ rw (reroute-off r h, k, h) (seen-other other rs apart)
      | inr k ↦ rw (reroute-off r h, k) (seen-other other rs apart)
    ]
  ]

  -- A request of the thread does not count among the others.
  rest-on :
      (any : Pair) (r : PendingNativeRequestRoute) (rs : List PendingNativeRequestRoute)
      → is_of thread r ≡ true
      → keep (λ x. not (is_of thread x)) (seen_by any (r ∷ rs))
        ≡ keep (λ x. not (is_of thread x)) (seen_by any rs)
  rest-on any r rs h = elim (Bool-cases (routed_to any r)) [
    | inl k ↦ rw (k, h) refl
    | inr k ↦ rw k refl
  ]

  seen-rest :
      (any : Pair) (routes : List PendingNativeRequestRoute)
      → keep (λ r. not (is_of thread r)) (seen_by any (moved routes))
        ≡ keep (λ r. not (is_of thread r)) (seen_by any routes)
  unfolding moved
  seen-rest any [] = refl
  seen-rest any (r ∷ rs) = elim (Bool-cases (is_of thread r)) [
    | inl h ↦ rw (reroute-on r h) (
        rest-on any (addressed_to key r) (moved rs) h ∙ seen-rest any rs ∙ sym (rest-on any r rs h))
    | inr h ↦ elim (Bool-cases (routed_to any r)) [
      | inl k ↦ rw (reroute-off r h, k, h) (ap (λ xs. r ∷ xs) (seen-rest any rs))
      | inr k ↦ rw (reroute-off r h, k) (seen-rest any rs)
    ]
  ]

values-map_values :
    (f : PendingNativeRequestRoute → PendingNativeRequestRoute)
    (d : Dict String PendingNativeRequestRoute)
    → values (map_values f d) ≡ map f (values d)
values-map_values f [] = refl
values-map_values f (e ∷ d) = ap (λ rs. f e.1 ∷ rs) (values-map_values f d)

-- After `bind_thread` the conversation lists every request that was pending on the thread, in their
-- order and now addressed to it; no other conversation lists one; and of the requests on other threads
-- every conversation lists what it listed before.
pub list_pending-bind_thread :
    (key other any : Pair) (thread : String) (s : Store)
    → (key == other) ≡ false
    → (keep (is_of thread) (list_pending_requests key none (bind_thread key thread s).1)
        ≡ map (addressed_to key) (keep (is_of thread) (values s.pending_requests)))
      × (keep (is_of thread) (list_pending_requests other none (bind_thread key thread s).1) ≡ [])
      × (keep
            (λ r. not (is_of thread r))
            (list_pending_requests any none (bind_thread key thread s).1)
          ≡ keep (λ r. not (is_of thread r)) (list_pending_requests any none s))
unfolding list_pending_requests moved
list_pending-bind_thread key other any thread s apart = rw afterwards (
  seen-own key thread (values s.pending_requests),
  seen-other key thread other (values s.pending_requests) apart,
  seen-rest key thread any (values s.pending_requests),
)
  where
    afterwards :
        values (bind_thread key thread s).1.pending_requests
        ≡ moved key thread (values s.pending_requests)
    afterwards =
        ap (λ (d : Dict String PendingNativeRequestRoute). values d)
          (pending-bind_thread key thread s)
        ∙ values-map_values (reroute key thread) s.pending_requests
