-- ===== src/Dict/Laws.antt =====
-- What a read of a dict returns after each way of writing it.
use imcodex.Prelude.{
  not, ◌&&◌, ◌≡◌, refl, true, false, none, some, [], ◌∷◌, arith, if◌then◌else◌, Eq, All,
}
use mathlib.Core.Option
use imcodex.Dict.{Dict, get, has, put, pop, map_items}

module _ {ℓ κ} {K : Type ℓ} {V : Type κ} ⦃e : Eq K⦄ where
  pub get-put :
      (d : Dict K V) (k j : K) (v : V) → get (put d k v) j ≡ (if e.beq k j then some v else get d j)
  unfolding get put
  get-put [] k j v = refl
  get-put ((i, w) ∷ d) k j v =
      ground (arith, e.beq_iff i k, e.beq_iff i j, e.beq_iff k j, get-put d k j v)

  pub get-put_self : (d : Dict K V) (k : K) (v : V) → get (put d k v) k ≡ some v
  get-put_self d k v = ground (arith, get-put d k k v, e.beq_iff k k)

  pub get-pop : (d : Dict K V) (k j : K) → get (pop d k) j ≡ (if e.beq k j then none else get d j)
  unfolding get pop
  get-pop [] k j = ground arith
  get-pop ((i, w) ∷ d) k j =
      ground (arith, e.beq_iff i k, e.beq_iff i j, e.beq_iff k j, get-pop d k j)

  pub get-pop_self : (d : Dict K V) (k : K) → get (pop d k) k ≡ none
  get-pop_self d k = ground (arith, get-pop d k k, e.beq_iff k k)

  pub get-map_items :
      (f : K → V → V) (d : Dict K V) (k : K) → get (map_items f d) k ≡ Option.map (f k) (get d k)
  unfolding get
  get-map_items f [] k = refl
  get-map_items f ((j, v) ∷ d) k = ground (arith, get-map_items f d k, e.beq_iff j k)

  pub has-true : (d : Dict K V) (k : K) (v : V) → get d k ≡ some v → has d k ≡ true
  unfolding get has
  has-true [] k v h = ground arith
  has-true ((j, w) ∷ d) k v h = ground (arith, has-true d k v)

  pub has-false : (d : Dict K V) (k : K) → get d k ≡ none → has d k ≡ false
  unfolding get has
  has-false [] k h = ground arith
  has-false ((j, w) ∷ d) k h = ground (arith, has-false d k)

  -- A key that is put back with its own value changes nothing.
  pub put-get : (d : Dict K V) (k : K) (v : V) → get d k ≡ some v → put d k v ≡ d
  unfolding get put
  put-get [] k v h = ground arith
  put-get ((j, w) ∷ d) k v h = ground (arith, put-get d k v)

  pub has-pop : (d : Dict K V) (k j : K) → has (pop d k) j ≡ (not (e.beq k j) && has d j)
  unfolding has pop
  has-pop [] k j = ground arith
  has-pop ((i, w) ∷ d) k j =
      ground (arith, e.beq_iff i k, e.beq_iff i j, e.beq_iff k j, has-pop d k j)

  pub has-put_there :
      (d : Dict K V) (k j : K) (v w : V) → get d k ≡ some w → has (put d k v) j ≡ has d j
  unfolding has put get
  has-put_there [] k j v w h = ground arith
  has-put_there ((i, u) ∷ d) k j v w h = ground (arith, e.beq_iff i k, has-put_there d k j v w)

  pub pop-put : (d : Dict K V) (k : K) (v : V) → pop (put d k v) k ≡ pop d k
  unfolding put pop
  pop-put [] k v = ground (arith, e.beq_iff k k)
  pop-put ((i, w) ∷ d) k v = ground (arith, pop-put d k v)

module _ {ℓ κ μ} {K : Type ℓ} {V : Type κ} ⦃e : Eq K⦄ (P : K × V → Type μ) where
  -- A predicate that holds of all items, and of the new value under any equal key.
  pub All-put : (d : Dict K V) (k : K) (v : V) → P (k, v) → All P d → All P (put d k v)
  unfolding put
  All-put [] k v h a = (h, tt)
  All-put ((j, w) ∷ d) k v h a = ground (arith, All-put d k v h a.1, e.beq_iff j k)

  pub All-pop : (d : Dict K V) (k : K) → All P d → All P (pop d k)
  unfolding pop
  All-pop [] k a = tt
  All-pop ((j, w) ∷ d) k a = ground (arith, All-pop d k a.1)

  pub All-get : (d : Dict K V) (k : K) (v : V) → All P d → get d k ≡ some v → P (k, v)
  unfolding get
  All-get [] k v a h = absurd (ground arith)
  All-get ((j, w) ∷ d) k v a h = ground (arith, All-get d k v a.1, e.beq_iff j k)
