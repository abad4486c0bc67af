-- ===== src/Dict/Unique.antt =====
-- The keys of a dict are distinct, and what that gives for comprehensions over its items.
use imcodex.Prelude.{
  ◌≡◌, refl, Bool, true, false, Option, none, some, List, [], ◌∷◌, arith, if◌then◌else◌, Eq, keep,
  contains,
}
use imcodex.Dict.{Dict, get, has, put, pop, pop_all, keys, map_items}
use imcodex.Dict.Laws.{get-pop}

module _ {ℓ κ} {K : Type ℓ} {V : Type κ} ⦃e : Eq K⦄ where
  -- No key stands twice.
  abbrev pub IsUnique : Dict K V → Type 0
  IsUnique [] = Unit
  IsUnique ((k, v) ∷ d) = (has d k ≡ false) × IsUnique d

  has-put :
      (d : Dict K V) (k j : K) (v : V) → has (put d k v) j ≡ (if e.beq k j then true else has d j)
  unfolding has put
  has-put [] k j v = refl
  has-put ((i, w) ∷ d) k j v =
      ground (arith, e.beq_iff i k, e.beq_iff i j, e.beq_iff k j, has-put d k j v)

  get_absent : (d : Dict K V) (k : K) → has d k ≡ false → get d k ≡ none
  unfolding get has
  get_absent [] k h = refl
  get_absent ((i, w) ∷ d) k h = ground (arith, get_absent d k)

  pub put-IsUnique : (d : Dict K V) (k : K) (v : V) → IsUnique d → IsUnique (put d k v)
  unfolding put has
  put-IsUnique [] k v u = (refl, tt)
  put-IsUnique ((i, w) ∷ d) k v u =
      ground (arith, e.beq_iff i k, e.beq_iff k i, has-put d k i v, put-IsUnique d k v u.1)

  has-pop : (d : Dict K V) (k j : K) → has d j ≡ false → has (pop d k) j ≡ false
  unfolding has pop
  has-pop [] k j h = refl
  has-pop ((i, w) ∷ d) k j h = ground (arith, has-pop d k j)

  pub pop-IsUnique : (d : Dict K V) (k : K) → IsUnique d → IsUnique (pop d k)
  unfolding pop
  pop-IsUnique [] k u = tt
  pop-IsUnique ((i, w) ∷ d) k u = ground (arith, has-pop d k i u.0, pop-IsUnique d k u.1)

  pub pop_all-IsUnique : (ks : List K) (d : Dict K V) → IsUnique d → IsUnique (pop_all d ks)
  unfolding pop_all
  pop_all-IsUnique [] d u = u
  pop_all-IsUnique (k ∷ ks) d u = pop_all-IsUnique ks (pop d k) (pop-IsUnique d k u)

  has-keep : (p : K × V → Bool) (d : Dict K V) (k : K) → has d k ≡ false → has (keep p d) k ≡ false
  unfolding has
  has-keep p [] k h = refl
  has-keep p ((i, w) ∷ d) k h = ground (arith, has-keep p d k)

  pub keep-IsUnique : (p : K × V → Bool) (d : Dict K V) → IsUnique d → IsUnique (keep p d)
  keep-IsUnique p [] u = tt
  keep-IsUnique p ((i, w) ∷ d) u = ground (arith, has-keep p d i u.0, keep-IsUnique p d u.1)

  has-map_items : (f : K → V → V) (d : Dict K V) (k : K) → has (map_items f d) k ≡ has d k
  unfolding has
  has-map_items f [] k = refl
  has-map_items f ((i, w) ∷ d) k = ground (arith, has-map_items f d k)

  pub map_items-IsUnique : (f : K → V → V) (d : Dict K V) → IsUnique d → IsUnique (map_items f d)
  map_items-IsUnique f [] u = tt
  map_items-IsUnique f ((i, w) ∷ d) u =
      ground (arith, has-map_items f d i, map_items-IsUnique f d u.1)

  -- A read after several keys have been popped.
  pub get-pop_all :
      (ks : List K) (d : Dict K V) (k : K)
      → get (pop_all d ks) k ≡ (if contains ks k then none else get d k)
  unfolding pop_all
  get-pop_all [] d k = refl
  get-pop_all (j ∷ ks) d k = ground (arith, get-pop_all ks (pop d j) k, get-pop d j k)

  -- The test on the item with the key, if there is one.
  abbrev pub test_at : (K × V → Bool) → K → Option V → Bool
  test_at p k none = false
  test_at p k (some v) = p (k, v)

  contains-keep_absent :
      (p : K × V → Bool) (d : Dict K V) (k : K)
      → has d k ≡ false
      → contains (keys (keep p d)) k ≡ false
  unfolding has
  contains-keep_absent p [] k h = refl
  contains-keep_absent p ((i, w) ∷ d) k h = ground (arith, contains-keep_absent p d k)

  pub contains-keys-keep :
      (p : K × V → Bool) (d : Dict K V) (k : K)
      → IsUnique d
      → contains (keys (keep p d)) k ≡ test_at p k (get d k)
  unfolding get has
  contains-keys-keep p [] k u = refl
  contains-keys-keep p ((i, w) ∷ d) k u =
      ground (arith, e.beq_iff i k, contains-keys-keep p d k u.1, contains-keep_absent p d k)

  -- A comprehension keeps an item exactly if it passes.
  pub get-keep :
      (p : K × V → Bool) (d : Dict K V) (k : K)
      → IsUnique d
      → get (keep p d) k ≡ (if test_at p k (get d k) then get d k else none)
  unfolding get has
  get-keep p [] k u = refl
  get-keep p ((i, w) ∷ d) k u =
      ground (arith, e.beq_iff i k, get-keep p d k u.1, get_absent (keep p d) k, has-keep p d k)
