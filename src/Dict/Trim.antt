-- ===== src/Dict/Trim.antt =====
-- A dict used as a bounded memory: the newest key is put last, and the oldest keys are popped.
use imcodex.Prelude.{
  ℕ, zero, suc, ◌-◌, ◌≤◌, ◌≡◌, refl, ap, ◌∙◌, false, some, [], ◌∷◌, ◌++◌, arith, Eq, length, take,
  drop, last_n, last_n-snoc, beq_refl,
}
use imcodex.Dict.{Dict, get, has, put, pop, pop_all, keys}
use imcodex.Dict.Laws.{get-pop_self, has-false}
use imcodex.Dict.Unique.{IsUnique, put-IsUnique, pop-IsUnique}

module _ {ℓ κ} {K : Type ℓ} {V : Type κ} ⦃e : Eq K⦄ where
  pub put_absent : (d : Dict K V) (k : K) (v : V) → has d k ≡ false → put d k v ≡ d ++ (k, v) ∷ []
  unfolding put has
  put_absent [] k v h = refl
  put_absent ((j, w) ∷ d) k v h = ground (arith, put_absent d k v)

  pub pop_absent : (d : Dict K V) (k : K) → has d k ≡ false → pop d k ≡ d
  unfolding pop has
  pop_absent [] k h = refl
  pop_absent ((j, w) ∷ d) k h = ground (arith, pop_absent d k)

  length-pop-le : (d : Dict K V) (k : K) → length (pop d k) ≤ length d
  unfolding pop
  length-pop-le [] k = omega arith
  length-pop-le ((j, w) ∷ d) k = ground (arith, length-pop-le d k)

  -- The oldest keys go.
  pop_all-take : (n : ℕ) (d : Dict K V) → IsUnique d → pop_all d (take n (keys d)) ≡ drop n d
  unfolding pop_all pop
  pop_all-take zero d u = refl
  pop_all-take (suc n) [] u = refl
  pop_all-take (suc n) ((k, v) ∷ d) u = rw (beq_refl k, pop_absent d k u.0) (pop_all-take n d u.1)

  -- The memory after a key has been put last: the last `n` items.
  pub remembered :
      (n : ℕ) (d : Dict K V) (k : K) (v : V)
      → IsUnique d
      → pop_all
          (put (pop d k) k v)
          (take (length (put (pop d k) k v) - n) (keys (put (pop d k) k v)))
        ≡ last_n n (pop d k ++ (k, v) ∷ [])
  remembered n d k v u =
      pop_all-take _ (put (pop d k) k v) (put-IsUnique (pop d k) k v (pop-IsUnique d k u))
      ∙ ap (last_n n) (put_absent (pop d k) k v (has-false (pop d k) k (get-pop_self d k)))

  pub get-snoc :
      (d : Dict K V) (k : K) (v : V) → has d k ≡ false → get (d ++ (k, v) ∷ []) k ≡ some v
  unfolding get has
  get-snoc [] k v h = rw (beq_refl k)
  get-snoc ((j, w) ∷ d) k v h = ground (arith, get-snoc d k v)

  has-drop : (n : ℕ) (d : Dict K V) (k : K) → has d k ≡ false → has (drop n d) k ≡ false
  unfolding has
  has-drop zero d k h = h
  has-drop (suc n) [] k h = h
  has-drop (suc n) ((j, w) ∷ d) k h = has-drop n d k (ground arith)

  -- The newest key is remembered.
  pub get-remembered :
      (n : ℕ) (d : Dict K V) (k : K) (v : V)
      → get (last_n (suc n) (pop d k ++ (k, v) ∷ [])) k ≡ some v
  get-remembered n d k v = rw (last_n-snoc n (pop d k) (k, v)) (
      get-snoc (last_n n (pop d k)) k v
        (has-drop (length (pop d k) - n) (pop d k) k (has-false (pop d k) k (get-pop_self d k))))
