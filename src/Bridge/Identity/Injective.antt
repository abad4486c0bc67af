-- ===== src/Bridge/Identity/Injective.antt =====
-- Different values never feed the hash with the same bytes.
use Prim.Native.Nat.{◌%◌}
use imcodex.Prelude.{
  ℕ, zero, suc, ◌*◌, ◌/◌, ◌≤◌, ◌<◌, String, ◌≡◌, refl, sym, ap, ◌∙◌, List, [], ◌∷◌, ◌++◌, arith,
  length, length-append, All,
}
use imcodex.Bridge.Identity.{to_bytes, hash_input}

-- How many numbers fit into so many bytes
abbrev pub capacity : ℕ → ℕ
capacity zero = 1
capacity (suc k) = 256 * capacity k

length-to_bytes : (k n : ℕ) → length (to_bytes k n) ≡ k
length-to_bytes zero n = refl
length-to_bytes (suc k) n =
    omega
      (arith, length-append (to_bytes k (n / 256)) ((n % 256) ∷ []), length-to_bytes k (n / 256))

module _ {A : Type 0} where
  cons_head : {x y : A} {xs ys : List A} → x ∷ xs ≡ y ∷ ys → x ≡ y
  cons_head h = cc

  cons_tail : {x y : A} {xs ys : List A} → x ∷ xs ≡ y ∷ ys → xs ≡ ys
  cons_tail h = cc

  -- Two lists of one length in front are the same, and so are the rests.
  append_split :
      (xs ys as' bs : List A)
      → length xs ≡ length ys
      → xs ++ as' ≡ ys ++ bs
      → (xs ≡ ys) × (as' ≡ bs)
  append_split [] [] as' bs l e = (refl, e)
  append_split [] (y ∷ ys) as' bs l e = absurd (omega (arith, l))
  append_split (x ∷ xs) [] as' bs l e = absurd (omega (arith, l))
  append_split (x ∷ xs) (y ∷ ys) as' bs l e =
      let (h, t) = append_split xs ys as' bs (omega (arith, l)) (cons_tail e) in
      (cc (cons_head e, h), t)

to_bytes-injective :
    (k n m : ℕ) → n < capacity k → m < capacity k → to_bytes k n ≡ to_bytes k m → n ≡ m
to_bytes-injective zero n m hn hm e = omega (arith, hn, hm)
to_bytes-injective (suc k) n m hn hm e =
    let (front, back) =
      append_split (to_bytes k (n / 256)) (to_bytes k (m / 256)) ((n % 256) ∷ []) ((m % 256) ∷ [])
        (length-to_bytes k (n / 256) ∙ sym (length-to_bytes k (m / 256))) e in
    let high : n / 256 ≡ m / 256 =
      to_bytes-injective k (n / 256) (m / 256) (omega (arith, hn)) (omega (arith, hm)) front in
    let low : n % 256 ≡ m % 256 = cons_head back in omega (arith, high, low)

-- The length of a text in bytes fits into eight of them.
abbrev pub IsShort : (String → List ℕ) → String → Type 0
IsShort utf8 s = length (utf8 s) < capacity 8

module _ (utf8 : String → List ℕ) (utf8-injective : (s t : String) → utf8 s ≡ utf8 t → s ≡ t) where
  not_empty : (v : String) (vs : List String) → [] ≡ hash_input utf8 (v ∷ vs) → 8 ≤ 0
  unfolding hash_input
  not_empty v vs e = omega (
    arith,
    ap (λ (bytes : List ℕ). length bytes) e,
    length-append (to_bytes 8 (length (utf8 v))) (utf8 v ++ hash_input utf8 vs),
    length-to_bytes 8 (length (utf8 v)),
  )

  -- The lengths in front of the values keep apart what a plain concatenation would confuse: equal
  -- bytes come from equal values, if every value is shorter than 2 ^ 64 bytes.
  pub hash_input-injective :
      (vs ws : List String)
      → All (IsShort utf8) vs
      → All (IsShort utf8) ws
      → hash_input utf8 vs ≡ hash_input utf8 ws
      → vs ≡ ws
  unfolding hash_input
  hash_input-injective [] [] a b e = refl
  hash_input-injective [] (w ∷ ws) a b e = absurd (omega (arith, not_empty w ws e))
  hash_input-injective (v ∷ vs) [] a b e = absurd (omega (arith, not_empty v vs (sym e)))
  hash_input-injective (v ∷ vs) (w ∷ ws) a b e =
      let n = length (utf8 v) in
      let m = length (utf8 w) in
      let (sizes, rest) =
        append_split (to_bytes 8 n) (to_bytes 8 m) (utf8 v ++ hash_input utf8 vs)
          (utf8 w ++ hash_input utf8 ws) (length-to_bytes 8 n ∙ sym (length-to_bytes 8 m)) e in
      let (values, more) =
        append_split (utf8 v) (utf8 w) (hash_input utf8 vs) (hash_input utf8 ws)
          (to_bytes-injective 8 n m a.0 b.0 sizes) rest in
      cc (utf8-injective v w values, hash_input-injective vs ws a.1 b.1 more)
