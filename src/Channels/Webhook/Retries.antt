-- ===== src/Channels/Webhook/Retries.antt =====
-- Which post of a call decides, and how long the pauses before it are.
use imcodex.Prelude.{
  ℕ, zero, suc, ◌+◌, ◌≤◌, ◌<◌, ◌≡◌, refl, sym, ap, ◌∙◌, subst, Bool, true, false, Option, none,
  some, List, [], ◌∷◌, arith, ◌&&◌, not, if◌then◌else◌, length, All, Bool-cases, inl, inr, leb, ltb,
  nat_eq, nat_eq_iff,
}
use imcodex.Models.{Fields}
use imcodex.Channels.Webhook.{
  Answer, unreachable, status, PostResult, posted, transport_error, status_error, backoff,
  retry_after, is_success, is_busy, post_step, post_from, post_with_retries, attempts_for,
}

-- The answers that a later attempt may better
abbrev pub is_temporary : Answer → Bool
is_temporary unreachable = true
is_temporary (status code after) = not (is_success code) && is_busy code

-- How a call ends that this answer decides
abbrev pub verdict : Answer → PostResult
verdict unreachable = transport_error
verdict (status code after) = if is_success code then posted else status_error code

abbrev IsPause : ℕ → Type 0
IsPause delay = delay ≤ 5000

-- The attempt that decides, from a first one on
abbrev pub Decides : (ℕ → Answer) → ℕ → ℕ → List ℕ × PostResult → ℕ → Type 0
Decides answers attempts first (sleeps, result) last =
    (first ≤ last)
    × (last ≤ attempts)
    × (first + length sleeps ≡ last)
    × (result ≡ verdict (answers last))
    × ((attempt : ℕ) → first ≤ attempt → attempt < last → is_temporary (answers attempt) ≡ true)
    × (is_temporary (answers last) ≡ true → last ≡ attempts)
    × All IsPause sleeps

backoff-IsPause : (attempt : ℕ) → IsPause (backoff attempt)
unfolding backoff
backoff-IsPause attempt = omega arith

retry-IsPause : (after : Option ℕ) (attempt : ℕ) → IsPause (retry_after after attempt)
unfolding retry_after
retry-IsPause none attempt = backoff-IsPause attempt
retry-IsPause (some delay) attempt = omega arith

module _ (answers : ℕ → Answer) (attempts : ℕ) where
  -- This attempt decides.
  stop-Decides :
      (first : ℕ) (r : PostResult)
      → first ≤ attempts
      → r ≡ verdict (answers first)
      → (is_temporary (answers first) ≡ true → first ≡ attempts)
      → Decides answers attempts first ([], r) first
  stop-Decides first r l e last =
      (omega arith, l, omega arith, e, λ a low high. absurd (omega (arith, low, high)), last, tt)

  -- A later one decides, after a pause.
  pause-Decides :
      (first pause : ℕ) (sleeps : List ℕ) (r : PostResult) (last : ℕ)
      → is_temporary (answers first) ≡ true
      → IsPause pause
      → Decides answers attempts (suc first) (sleeps, r) last
      → Decides answers attempts first (pause ∷ sleeps, r) last
  pause-Decides first pause sleeps r last t p (low, high, counted, e, before, final, pauses) = (
    omega (arith, low),
    high,
    omega (arith, counted),
    e,
    λ a from to. earlier a from to,
    final,
    (p, pauses),
  )
    where
      earlier : (a : ℕ) → first ≤ a → a < last → is_temporary (answers a) ≡ true
      earlier a from to = elim (Bool-cases (nat_eq first a)) [
        | inl h ↦ subst (λ (n : ℕ). is_temporary (answers n) ≡ true) ((nat_eq_iff first a).0 h) t
        | inr h ↦ before a (ground (arith, h, from)) to
      ]

  abbrev Decided : ℕ → List ℕ × PostResult → Type 0
  Decided first r = (last : ℕ) × Decides answers attempts first r last

  -- One attempt, before others that are decided if there are any
  step-Decided :
      (first : ℕ) (answer : Answer) (later : List ℕ × PostResult)
      → answers first ≡ answer
      → first ≤ attempts
      → (first < attempts → Decided (suc first) later)
      → Decided first (post_step attempts first answer later)
  unfolding post_step
  step-Decided first unreachable (sleeps, r) e l more = elim (Bool-cases (leb attempts first)) [
    | inl h ↦ rw h (
      first,
      stop-Decides first transport_error l (ap verdict (sym e)) (λ t. ground (arith, h, l)),
    )
    | inr h ↦
        let (last, d) = more (ground (arith, h)) in
        rw h (
          last,
          pause-Decides first (backoff first) sleeps r last (ap is_temporary e)
              (backoff-IsPause first) d,
        )
  ]
  step-Decided first (status code after) (sleeps, r) e l more =
      elim (Bool-cases (is_success code)) [
        | inl h ↦
            let good : verdict (status code after) ≡ posted = rw h refl in
            let last : is_temporary (status code after) ≡ false = rw h refl in
            rw h (
              first,
              stop-Decides first posted l (sym good ∙ ap verdict (sym e))
                  (λ t. absurd (ground (arith, sym t ∙ ap is_temporary e ∙ last))),
            )
        | inr h ↦ elim (Bool-cases (is_busy code && ltb first attempts)) [
          | inl b ↦
              let (last, d) = more (ground (arith, b)) in
              let temporary : is_temporary (status code after) ≡ true = ground (arith, h, b) in
              rw (h, b)
                (
                  last,
                  pause-Decides first (retry_after after first) sleeps r last
                      (ap is_temporary e ∙ temporary) (retry-IsPause after first) d,
                )
          | inr b ↦
              let bad : verdict (status code after) ≡ status_error code = rw h refl in
              rw (h, b)
                (
                  first,
                  stop-Decides first (status_error code) l (sym bad ∙ ap verdict (sym e))
                      (λ t. last_attempt code after h b (sym (ap is_temporary e) ∙ t)),
                )
        ]
      ]
    where
      last_attempt :
          (code : ℕ) (after : Option ℕ)
          → is_success code ≡ false
          → (is_busy code && ltb first attempts) ≡ false
          → is_temporary (status code after) ≡ true
          → first ≡ attempts
      last_attempt code after h b t = ground (arith, h, b, t, l)

  post_from-Decided :
      (left first : ℕ)
      → first + left ≡ attempts
      → Decided first (post_from answers attempts first (suc left))
  unfolding post_from
  post_from-Decided zero first counted =
      step-Decided first (answers first) ([], posted) refl (omega (arith, counted))
        (λ l. absurd (omega (arith, l, counted)))
  post_from-Decided (suc left) first counted =
      step-Decided first (answers first) (post_from answers attempts (suc first) (suc left)) refl
        (omega (arith, counted)) (λ l. post_from-Decided left (suc first) (omega (arith, counted)))

-- A call makes its attempts in order up to one that decides how it ends: the answers before are
-- temporary, and this one is not, or it is the last of the attempts. There is one attempt without a
-- delivery id, and no pause is longer than 5 seconds.
pub post-decided :
    (max_attempts : ℕ) (answers : ℕ → Answer) (metadata : Fields)
    → (last : ℕ) × Decides answers
        (attempts_for max_attempts metadata)
        1
        (post_with_retries max_attempts answers metadata)
        last
unfolding post_with_retries
post-decided max_attempts answers metadata =
    decided (attempts_for max_attempts metadata) (ground arith)
  where
    decided :
        (attempts : ℕ)
        → 1 ≤ attempts
        → Decided answers attempts 1 (post_from answers attempts 1 attempts)
    decided zero l = absurd (omega (arith, l))
    decided (suc n) l = post_from-Decided answers (suc n) n 1 (omega arith)
