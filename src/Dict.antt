-- ===== src/Dict.antt =====
-- Python's `dict`, with its order of insertion, as the bridge uses it: an assignment to a key that
-- is there keeps the key's place, any other appends; `pop` removes. The loops and comprehensions
-- over items are those of Prelude on the list. The laws are in Dict/Laws.
pub mod Laws
pub mod Unique
pub mod Trim
use imcodex.Prelude.{
  String, Bool, Option, none, some, List, [], ◌∷◌, ◌++◌, map, if◌then◌else◌, Eq, keep, true, false,
  not, drop, ℕ,
}

abbrev pub Dict {ℓ κ} : Type ℓ → Type κ → Type (ℓ ⊔ κ)
Dict K V = List (K × V)

module _ {ℓ κ} {K : Type ℓ} {V : Type κ} ⦃e : Eq K⦄ where
  -- d.get(k)
  unfoldable pub get : Dict K V → K → Option V
  get [] k = none
  get ((j, v) ∷ d) k = let rest = get d k in if e.beq j k then some v else rest

  -- k in d
  unfoldable pub has : Dict K V → K → Bool
  has [] k = false
  has ((j, v) ∷ d) k = let rest = has d k in if e.beq j k then true else rest

  -- d[k] = v
  unfoldable pub put : Dict K V → K → V → Dict K V
  put [] k v = (k, v) ∷ []
  put ((j, w) ∷ d) k v = let rest = put d k v in if e.beq j k then (j, v) ∷ d else (j, w) ∷ rest

  -- d.pop(k, None)
  unfoldable pub pop : Dict K V → K → Dict K V
  pop [] k = []
  pop ((j, v) ∷ d) k = let rest = pop d k in if e.beq j k then rest else (j, v) ∷ rest

  -- for k in ks: d.pop(k, None)
  unfoldable pub pop_all : Dict K V → List K → Dict K V
  pop_all d [] = d
  pop_all d (k ∷ ks) = pop_all (pop d k) ks

-- d.values()
abbrev pub values {ℓ κ} : {K : Type ℓ} {V : Type κ} → Dict K V → List V
values d = map (λ e. e.1) d

-- list(d)
abbrev pub keys {ℓ κ} : {K : Type ℓ} {V : Type κ} → Dict K V → List K
keys d = map (λ e. e.0) d

-- for v in d.values(): an update of v in place
abbrev pub map_values {ℓ κ} : {K : Type ℓ} {V : Type κ} → (V → V) → Dict K V → Dict K V
map_values f [] = []
map_values f ((k, v) ∷ d) = (k, f v) ∷ map_values f d

-- for k, v in d.items(): an update of v in place
abbrev pub map_items {ℓ κ} : {K : Type ℓ} {V : Type κ} → (K → V → V) → Dict K V → Dict K V
map_items f [] = []
map_items f ((k, v) ∷ d) = (k, f k v) ∷ map_items f d
