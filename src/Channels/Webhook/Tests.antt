-- ===== src/Channels/Webhook/Tests.antt =====
-- A webhook that is busy at first.
use imcodex.Prelude.{ℕ, zero, suc, ◌≡◌, refl, none, some, [], ◌∷◌, string_eq}
use imcodex.Models.{Fields, end, field, str, get_field}
use imcodex.Bridge.Delivery.Payload.{text_field}
use imcodex.Channels.Webhook.{
  Answer, unreachable, status, posted, status_error, attempts_for, post_with_retries,
}
use imcodex.Channels.Webhook.Retries.{Decides, post-decided}

abbrev metadata : Fields
metadata = field "delivery_id" (str "d1") end

abbrev answers : ℕ → Answer
answers (suc zero) = unreachable
answers (suc (suc zero)) = status 503 (some 9000)
answers n = status 200 none

third_succeeds : post_with_retries 3 answers metadata ≡ (1000 ∷ 5000 ∷ [], posted)
unfolding post_with_retries text_field get_field
third_succeeds = refl

second_fails : post_with_retries 2 answers metadata ≡ (1000 ∷ [], status_error 503)
unfolding post_with_retries text_field get_field
second_fails = refl

post-decided_example :
    (last : ℕ) × Decides answers
      (attempts_for 3 metadata)
      1
      (post_with_retries 3 answers metadata)
      last
post-decided_example = post-decided 3 answers metadata
