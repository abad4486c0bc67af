-- ===== src/Bridge/Delivery/Remembered.antt =====
-- What the bridge remembers of deliveries and turns, within its limit.
use imcodex.Prelude.{
  ◌≤◌, String, ◌≡◌, true, List, [], ◌∷◌, ◌++◌, arith, ◌==◌, string_eq, Eq, not, keep, contains,
  contains-snoc, length, last_n, last_n-snoc, length-last_n-le,
}
use imcodex.Bridge.Delivery.{
  Bridge, remember, remember_terminal_delivery, terminal_delivery_is_known,
  recent_terminal_delivery_limit,
}

contains-remember {ℓ} :
    {A : Type ℓ} → ⦃e : Eq A⦄ → (x : A) (xs : List A) → contains (remember x xs) x ≡ true
unfolding remember
contains-remember x xs =
    rw (last_n-snoc 511 (keep (λ y. not (y == x)) xs) x)
      (contains-snoc (last_n 511 (keep (λ y. not (y == x)) xs)) x)

-- A delivery that is remembered is known from then on, and no more than the limit are remembered.
remember-known :
    (delivery : String) (b : Bridge)
    → (terminal_delivery_is_known delivery (remember_terminal_delivery delivery b) ≡ true)
      × (length (remember_terminal_delivery delivery b).recent_terminal_deliveries
          ≤ recent_terminal_delivery_limit)
unfolding terminal_delivery_is_known remember_terminal_delivery remember
remember-known delivery b = (
  ground (arith, contains-remember delivery b.recent_terminal_deliveries),
  length-last_n-le 512
      (keep (λ d. not (d == delivery)) b.recent_terminal_deliveries ++ delivery ∷ []),
)
