-- ===== src/Store/Deliveries/Acknowledgements.antt =====
-- The acknowledgements of delivered messages: which are remembered, and how many standalone ones.
use imcodex.Prelude.{
  ℕ, zero, suc, ◌+◌, ◌-◌, ◌≤◌, String, ◌≡◌, refl, sym, ◌∙◌, subst, Bool, true, false, none, some,
  List, [], ◌∷◌, ◌++◌, arith, ◌==◌, string_eq, pair_eq, keep, contains, Eq, take, drop, length,
  but_last_n, keep-append, take-append, append-nil, last_n, length-last_n-le, beq_refl,
  length-append, Option-cases, Bool-cases, inl, inr,
}
use mathlib.Core.List.{map-append}
use imcodex.Dict
use imcodex.Dict.{Dict, keys}
use imcodex.Dict.Laws.{get-pop_self, has-true}
use imcodex.Dict.Unique.{IsUnique, get-pop_all, put-IsUnique}
use imcodex.Dict.Trim.{pop_absent, put_absent, get-snoc}
use imcodex.Models.{Pair, PendingTerminalDelivery}
use imcodex.Store.State.{Store, save}
use imcodex.Store.Deliveries.{
  standalone_delivery_ack_limit, standalone_ids, prune_standalone_delivery_acknowledgements,
  acknowledge, complete_terminal_delivery, is_terminal_delivery_acknowledged,
}

module _ {ℓ κ} {K : Type ℓ} {V : Type κ} ⦃e : Eq K⦄ (p : K × V → Bool) where
  contains-take :
      (n : ℕ) (ks : List K) (k : K) → contains ks k ≡ false → contains (take n ks) k ≡ false
  contains-take zero ks k h = refl
  contains-take (suc n) [] k h = refl
  contains-take (suc n) (j ∷ ks) k h = ground (arith, contains-take n ks k)

  contains-keys_absent :
      (d : Dict K V) (k : K) → Dict.has d k ≡ false → contains (keys (keep p d)) k ≡ false
  unfolding Dict.has
  contains-keys_absent [] k h = refl
  contains-keys_absent ((j, v) ∷ d) k h = ground (arith, contains-keys_absent d k)

  pop_all-cons :
      (ks : List K) (d : Dict K V) (k : K) (v : V)
      → contains ks k ≡ false
      → Dict.pop_all ((k, v) ∷ d) ks ≡ (k, v) ∷ Dict.pop_all d ks
  unfolding Dict.pop_all Dict.pop
  pop_all-cons [] d k v h = refl
  pop_all-cons (j ∷ ks) d k v h =
      ground (arith, e.beq_iff j k, e.beq_iff k j, pop_all-cons ks (Dict.pop d j) k v)

  -- Popping the oldest of the keys that pass leaves the newest of them.
  keys-keep-pop_all :
      (n : ℕ) (d : Dict K V)
      → IsUnique d
      → keys (keep p (Dict.pop_all d (take n (keys (keep p d))))) ≡ drop n (keys (keep p d))
  unfolding Dict.pop_all Dict.pop
  keys-keep-pop_all zero d u = refl
  keys-keep-pop_all (suc n) [] u = refl
  keys-keep-pop_all (suc n) ((k, v) ∷ d) u = elim (Bool-cases (p (k, v))) [
    | inl passes ↦ rw passes (rw (beq_refl k, pop_absent d k u.0) (keys-keep-pop_all n d u.1))
    | inr fails ↦ rw fails (
        rw
          (pop_all-cons (take (suc n) (keys (keep p d))) d k v
            (contains-take (suc n) (keys (keep p d)) k (contains-keys_absent d k u.0)))
          (rw fails (keys-keep-pop_all (suc n) d u.1)))
  ]

abbrev standalone : String × Pair → Bool
standalone e = e.1 == ("", "")

-- After a prune at most the limit of standalone acknowledgements are left, the newest ones.
standalone_ids-prune :
    (s : Store)
    → IsUnique s.acknowledged_terminal_deliveries
    → standalone_ids (prune_standalone_delivery_acknowledgements s).acknowledged_terminal_deliveries
      ≡ last_n standalone_delivery_ack_limit (standalone_ids s.acknowledged_terminal_deliveries)
unfolding prune_standalone_delivery_acknowledgements standalone_ids
standalone_ids-prune s u = keys-keep-pop_all standalone _ s.acknowledged_terminal_deliveries u

length-prune-le :
    (s : Store)
    → IsUnique s.acknowledged_terminal_deliveries
    → length (
        standalone_ids
          (prune_standalone_delivery_acknowledgements s).acknowledged_terminal_deliveries)
      ≤ standalone_delivery_ack_limit
length-prune-le s u = rw (standalone_ids-prune s u) (
    length-last_n-le standalone_delivery_ack_limit
      (standalone_ids s.acknowledged_terminal_deliveries))

acknowledged-acknowledge :
    (delivery : String) (p : PendingTerminalDelivery) (s : Store)
    → (acknowledge delivery p s).acknowledged_terminal_deliveries
      ≡ Dict.put s.acknowledged_terminal_deliveries delivery (p.thread_id, p.turn_id)
unfolding acknowledge
acknowledged-acknowledge delivery p s = refl

pending-prune-acknowledge :
    (delivery : String) (p : PendingTerminalDelivery) (s : Store)
    → (prune_standalone_delivery_acknowledgements
        (acknowledge delivery p s)).pending_terminal_deliveries
      ≡ Dict.pop s.pending_terminal_deliveries delivery
unfolding acknowledge prune_standalone_delivery_acknowledgements
pending-prune-acknowledge delivery p s = refl

-- A delivery that completes is no longer pending, and whatever completes, the standalone
-- acknowledgements stay within their limit.
pub complete-bounded :
    (delivery : String) (s : Store)
    → IsUnique s.acknowledged_terminal_deliveries
    → length (standalone_ids s.acknowledged_terminal_deliveries) ≤ standalone_delivery_ack_limit
    → (length
          (standalone_ids (complete_terminal_delivery delivery s).acknowledged_terminal_deliveries)
        ≤ standalone_delivery_ack_limit)
      × (Dict.get (complete_terminal_delivery delivery s).pending_terminal_deliveries delivery
          ≡ none)
unfolding complete_terminal_delivery save
complete-bounded delivery s u b =
    elim (Option-cases (Dict.get s.pending_terminal_deliveries delivery)) [
      | inl absent ↦ rw (absent, complete_terminal_delivery) (b, absent)
      | inr (p, there) ↦
          rw (there, complete_terminal_delivery)
            (
              length-prune-le (acknowledge delivery p s) (
                  subst IsUnique (sym (acknowledged-acknowledge delivery p s))
                    (put-IsUnique s.acknowledged_terminal_deliveries delivery _ u)),
              rw (pending-prune-acknowledge delivery p s)
                  (get-pop_self s.pending_terminal_deliveries delivery),
            )
    ]

-- The newest key is never among the oldest of the keys that pass.
module _ {ℓ κ} {K : Type ℓ} {V : Type κ} ⦃e : Eq K⦄ (p : K × V → Bool) where
  newest_kept :
      (n : ℕ) (d : Dict K V) (k : K) (v : V)
      → Dict.has d k ≡ false
      → contains (but_last_n (suc n) (keys (keep p (d ++ (k, v) ∷ [])))) k ≡ false
  newest_kept n d k v h = elim (Bool-cases (p (k, v))) [
    | inl passes ↦
        rw (keep-append p d ((k, v) ∷ []), passes, map-append)
          (let ids = keys (keep p d) in
            let l : length (ids ++ k ∷ []) ≡ length ids + 1 = length-append ids (k ∷ []) in
            rw (take-append (length (ids ++ k ∷ []) - suc n) ids (k ∷ []) (omega arith))
              (contains-take p _ ids k (contains-keys_absent p d k h)))
    | inr fails ↦
        rw (keep-append p d ((k, v) ∷ []), fails, append-nil)
          (contains-take p _ (keys (keep p d)) k (contains-keys_absent p d k h))
  ]

get-prune :
    (delivery : String) (key : Pair) (s : Store) (older : Dict String Pair)
    → Dict.has older delivery ≡ false
    → s.acknowledged_terminal_deliveries ≡ older ++ (delivery, key) ∷ []
    → Dict.get
        (prune_standalone_delivery_acknowledgements s).acknowledged_terminal_deliveries
        delivery
      ≡ some key
unfolding prune_standalone_delivery_acknowledgements standalone_ids
get-prune delivery key s older absent e =
    get-pop_all _ s.acknowledged_terminal_deliveries delivery
    ∙ rw (e, newest_kept standalone 511 older delivery key absent)
        (get-snoc older delivery key absent)

-- A delivery that completes is acknowledged afterwards, however many others have been, unless it
-- had been acknowledged before.
pub complete-acknowledged :
    (delivery : String) (s : Store) (p : PendingTerminalDelivery)
    → Dict.get s.pending_terminal_deliveries delivery ≡ some p
    → is_terminal_delivery_acknowledged delivery s ≡ false
    → is_terminal_delivery_acknowledged delivery (complete_terminal_delivery delivery s) ≡ true
unfolding is_terminal_delivery_acknowledged complete_terminal_delivery save
complete-acknowledged delivery s p there new =
    rw (there, complete_terminal_delivery)
      (has-true _ delivery (p.thread_id, p.turn_id)
        (get-prune delivery (p.thread_id, p.turn_id) (acknowledge delivery p s)
          s.acknowledged_terminal_deliveries new
          (acknowledged-acknowledge delivery p s
            ∙ put_absent s.acknowledged_terminal_deliveries delivery _ new)))
