-- ===== src/Store/Requests/Selection.antt =====
-- Which pending request a token of the user selects.
use imcodex.Prelude.{
  ◌<◌, String, ◌≡◌, refl, Bool, true, false, Option, none, some, List, [], ◌∷◌, arith, ap, find,
  ◌≤◌, subst, of_some, ◌↔◌, inl, inr, keep, length, All, All-keep, is_empty, Bool-cases,
}
use imcodex.Text.{strip}
use imcodex.Dict.{values}
use imcodex.Models.{Pair, PendingNativeRequestRoute}
use imcodex.Store.State.{Store}
use imcodex.Store.Requests.{
  of_kind, routed_to, list_pending_requests, names, abbreviates, unambiguous, exact_or,
  select_among, select_pending_requests, only_candidate, match_pending_request,
}

-- The request belongs to the conversation, and is of the kind.
abbrev pub IsCandidate : Pair → Option String → PendingNativeRequestRoute → Type 0
IsCandidate conversation kind route =
    (routed_to conversation route ≡ true) × (of_kind kind route ≡ true)

candidates_All :
    (conversation : Pair) (kind : Option String) (rs : List PendingNativeRequestRoute)
    → All (IsCandidate conversation kind) (keep (of_kind kind) (keep (routed_to conversation) rs))
candidates_All conversation kind [] = tt
candidates_All conversation kind (r ∷ rs) = ground (arith, candidates_All conversation kind rs)

pub list_pending_requests-IsCandidate :
    (conversation : Pair) (kind : Option String) (s : Store)
    → All (IsCandidate conversation kind) (list_pending_requests conversation kind s)
unfolding list_pending_requests
list_pending_requests-IsCandidate conversation kind s =
    candidates_All conversation kind (values s.pending_requests)

module _ {κ} (P : PendingNativeRequestRoute → Type κ) where
  unambiguous-All :
      (ms rs : List PendingNativeRequestRoute) → All P ms → unambiguous ms ≡ some rs → All P rs
  unfolding unambiguous
  unambiguous-All [] [] a h = tt
  unambiguous-All [] (r ∷ rs) a h = absurd (ground arith)
  unambiguous-All (m ∷ []) rs a h = subst (All P) (of_some h) a
  unambiguous-All (m ∷ n ∷ ms) rs a h = absurd (ground arith)

  exact_or-All :
      (ms rs : List PendingNativeRequestRoute) (o : Option (List PendingNativeRequestRoute))
      → All P ms
      → (o ≡ some rs → All P rs)
      → exact_or ms o ≡ some rs
      → All P rs
  unfolding exact_or
  exact_or-All [] rs o a f h = f h
  exact_or-All (m ∷ ms) rs o a f h = subst (All P) (of_some h) (a.0, tt)

  select_among-All :
      (token : Option String) (cs rs : List PendingNativeRequestRoute)
      → All P cs
      → select_among token cs ≡ some rs
      → All P rs
  unfolding select_among
  select_among-All none [] rs a h = subst (All P) (of_some h) tt
  select_among-All (some token) [] rs a h = subst (All P) (of_some h) tt
  select_among-All none (c ∷ cs) rs a h = subst (All P) (of_some h) a
  select_among-All (some token) (c ∷ cs) rs a h = elim (Bool-cases (is_empty (strip token))) [
    | inl e ↦ subst (All P) (of_some (rw e at h)) a
    | inr e ↦
        exact_or-All (keep (names (strip token)) (c ∷ cs)) rs
          (unambiguous (keep (abbreviates (strip token)) (c ∷ cs)))
          (All-keep P (names (strip token)) (c ∷ cs) a)
          (unambiguous-All (keep (abbreviates (strip token)) (c ∷ cs)) rs
            (All-keep P (abbreviates (strip token)) (c ∷ cs) a))
          (rw e at h)
  ]

-- Whatever the token, every selected request belongs to the conversation that asks, and is of the
-- kind that it asks for.
pub select-IsCandidate :
    (conversation : Pair) (token kind : Option String) (s : Store)
    → (rs : List PendingNativeRequestRoute)
    → select_pending_requests conversation token kind s ≡ some rs
    → All (IsCandidate conversation kind) rs
unfolding select_pending_requests
select-IsCandidate conversation token kind s rs h =
    select_among-All (IsCandidate conversation kind) token
      (list_pending_requests conversation kind s) rs
      (list_pending_requests-IsCandidate conversation kind s) h

-- The token of an answer, stripped, is not blank.
abbrev pub IsToken : String → Type 0
IsToken token = is_empty (strip token) ≡ false

select_among-token :
    (token : String) (cs : List PendingNativeRequestRoute)
    → IsToken token
    → select_among (some token) cs
      ≡ exact_or (keep (names (strip token)) cs) (unambiguous (keep (abbreviates (strip token)) cs))
unfolding select_among unambiguous exact_or
select_among-token token [] t = refl
select_among-token token (c ∷ cs) t = rw t

exact_or-none_iff :
    (ms ns : List PendingNativeRequestRoute)
    → (exact_or ms (unambiguous ns) ≡ none) ↔ ((ms ≡ []) × (1 < length ns))
unfolding exact_or unambiguous
exact_or-none_iff [] [] = ground arith
exact_or-none_iff [] (n ∷ []) = ground arith
exact_or-none_iff [] (n ∷ n' ∷ ns) = ground arith
exact_or-none_iff (m ∷ ms) ns = ground arith

length-exact_or :
    (ms ns rs : List PendingNativeRequestRoute)
    → exact_or ms (unambiguous ns) ≡ some rs
    → length rs ≤ 1
unfolding exact_or unambiguous
length-exact_or [] [] rs h = ground arith
length-exact_or [] (n ∷ []) rs h = ground arith
length-exact_or [] (n ∷ n' ∷ ns) rs h = ground arith
length-exact_or (m ∷ ms) ns rs h = ground arith

exact_or-find :
    (p : PendingNativeRequestRoute → Bool) (cs : List PendingNativeRequestRoute)
    (o : Option (List PendingNativeRequestRoute)) (r : PendingNativeRequestRoute)
    → find p cs ≡ some r
    → exact_or (keep p cs) o ≡ some (r ∷ [])
unfolding exact_or
exact_or-find p [] o r h = ground arith
exact_or-find p (c ∷ cs) o r h = ground (arith, exact_or-find p cs o r)

module _ (conversation : Pair) (token : String) (kind : Option String) (s : Store) where
  abbrev candidates : List PendingNativeRequestRoute
  candidates = list_pending_requests conversation kind s

  -- A token raises exactly if it names no request of the conversation and abbreviates several.
  pub select-none_iff :
      IsToken token
      → (select_pending_requests conversation (some token) kind s ≡ none) ↔ (
          (keep (names (strip token)) candidates ≡ [])
          × (1 < length (keep (abbreviates (strip token)) candidates)))
  unfolding select_pending_requests
  select-none_iff t = rw (select_among-token token candidates t) (exact_or-none_iff _ _)

  -- A token selects one request at most.
  length-select :
      IsToken token
      → (rs : List PendingNativeRequestRoute)
      → select_pending_requests conversation (some token) kind s ≡ some rs
      → length rs ≤ 1
  unfolding select_pending_requests
  length-select t =
      rw (select_among-token token candidates t)
        (length-exact_or (keep (names (strip token)) candidates) _)

  -- A token that names a request selects the first that it names, whatever it abbreviates.
  pub select-names :
      IsToken token
      → (r : PendingNativeRequestRoute) → find (names (strip token)) candidates ≡ some r
      → select_pending_requests conversation (some token) kind s ≡ some (r ∷ [])
  unfolding select_pending_requests
  select-names t =
      rw (select_among-token token candidates t) (exact_or-find (names (strip token)) candidates _)

only_candidate-blank_iff :
    (cs : List PendingNativeRequestRoute) (r : PendingNativeRequestRoute)
    → (only_candidate true cs ≡ some r) ↔ (cs ≡ r ∷ [])
unfolding only_candidate
only_candidate-blank_iff [] r = ground arith
only_candidate-blank_iff (c ∷ []) r = ground arith
only_candidate-blank_iff (c ∷ d ∷ cs) r = ground arith

select_among-none : (cs : List PendingNativeRequestRoute) → select_among none cs ≡ some cs
unfolding select_among
select_among-none [] = refl
select_among-none (c ∷ cs) = refl

-- Without a token, a request is matched exactly if it is the only one of the conversation.
pub match-only_iff :
    (conversation : Pair) (kind : Option String) (s : Store) (r : PendingNativeRequestRoute)
    → (match_pending_request conversation none kind s ≡ some (some r))
      ↔ (list_pending_requests conversation kind s ≡ r ∷ [])
unfolding match_pending_request select_pending_requests
match-only_iff conversation kind s r =
    rw (select_among-none (list_pending_requests conversation kind s), match_pending_request)
      (let i = only_candidate-blank_iff (list_pending_requests conversation kind s) r in
        ((λ h. i.0 (of_some h)), (λ h. ap some (i.1 h))))
