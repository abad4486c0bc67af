-- ===== src/Store/Inbound/Dedup.antt =====
-- A message that has been processed is recognised when the platform delivers it again.
use imcodex.Prelude.{
  ℕ, ◌-◌, String, ◌≡◌, refl, ◌∙◌, true, false, Option, none, some, List, arith, ◌==◌, not,
  string_eq, pair_eq, if◌then◌else◌, is_empty, keep, last_n, last_n-snoc, contains, contains-snoc,
  beq_refl, leb, keep,
}
use imcodex.Dict
use imcodex.Dict.{Dict, keys}
use imcodex.Dict.Laws.{get-put_self}
use imcodex.Dict.Unique.{IsUnique, put-IsUnique, get-pop_all, contains-keys-keep}
use imcodex.Models.{Pair, Items, ReplyContext}
use imcodex.Store.State.{Store}
use imcodex.Store.Registry.{set_binding, get_binding}
use imcodex.Store.Bindings.Exclusive.{get-set-get_binding}
use imcodex.Store.Inbound.{
  Inbound, fingerprint, remember_id, with_response, processed_context, bucket, set_bucket,
  record_inbound_message_processed, list_or_empty, is_expired,
  should_drop_duplicate_inbound_message, inbound_dedup_window,
}

-- The newest id is among the remembered ones.
contains-remember_id_self : (m : String) (ids : List String) → contains (remember_id m ids) m ≡ true
unfolding remember_id
contains-remember_id_self m ids =
    let kept = keep (λ (x : String). not (x == m)) ids in
    rw (last_n-snoc 1023 kept m) (contains-snoc (last_n 1023 kept) m)

-- The binding after a message with an id has been recorded.
pub get-record :
    (m : Inbound) (response : Option Items) (now : ℕ) (s : Store)
    → is_empty m.message_id ≡ false
    → Dict.get (record_inbound_message_processed m response now s).bindings m.conversation
      ≡ some (record ((get_binding m.conversation s).0) {
        reply_context = processed_context m response (get_binding m.conversation s).0.reply_context;
      })
unfolding record_inbound_message_processed
get-record m response now s h =
    rw h (
      rw
        (get-set-get_binding m.conversation _ s m.conversation, beq_refl {A = Pair} m.conversation))

pub ids-processed_context :
    (m : Inbound) (response : Option Items) (c : ReplyContext)
    → (processed_context m response c).recent_inbound_message_ids
      ≡ some (remember_id m.message_id (list_or_empty c.recent_inbound_message_ids))
unfolding processed_context with_response
ids-processed_context m none c = refl
ids-processed_context m (some r) c = refl

-- A recorded message with an id is dropped when it comes again.
pub drop-record :
    (m : Inbound) (response : Option Items) (now later : ℕ) (s : Store)
    → is_empty m.message_id ≡ false
    → (should_drop_duplicate_inbound_message m later
        (record_inbound_message_processed m response now s)).0
      ≡ true
unfolding should_drop_duplicate_inbound_message
drop-record m response now later s h =
    let c = (get_binding m.conversation s).0.reply_context in
    rw (
      h,
      get-record m response now s h,
      ids-processed_context m response c,
      contains-remember_id_self m.message_id (list_or_empty c.recent_inbound_message_ids),
    )

fingerprints-get_binding :
    (key : Pair) (s : Store)
    → (get_binding key s).1.recent_inbound_fingerprints ≡ s.recent_inbound_fingerprints
unfolding get_binding set_binding
fingerprints-get_binding key s = ground arith

-- The conversation's bucket after a message without an id has been recorded.
bucket-record :
    (m : Inbound) (response : Option Items) (now : ℕ) (s : Store)
    → is_empty m.message_id ≡ true
    → bucket m.conversation (record_inbound_message_processed m response now s)
      ≡ Dict.put (bucket m.conversation s) (fingerprint m) now
unfolding record_inbound_message_processed set_bucket
bucket-record m response now s h = rw h (
    rw (get-put_self (get_binding m.conversation s).1.recent_inbound_fingerprints m.conversation _)
      (rw (fingerprints-get_binding m.conversation s)))

-- The seen time that is left of a fingerprint after the expired ones have been dropped.
get-fresh :
    (seen : Dict String ℕ) (now seen_at : ℕ) (key : String)
    → IsUnique seen
    → Dict.get seen key ≡ some seen_at
    → Dict.get (Dict.pop_all seen (keys (keep (λ (e : String × ℕ). is_expired now e.1) seen))) key
      ≡ (if is_expired now seen_at then none else some seen_at)
get-fresh seen now seen_at key u h =
    get-pop_all (keys (keep (λ (e : String × ℕ). is_expired now e.1) seen)) seen key
    ∙ rw (contains-keys-keep (λ (e : String × ℕ). is_expired now e.1) seen key u, h)

-- A message without an id is dropped as a duplicate exactly while the window is open.
pub drop-window :
    (m : Inbound) (response : Option Items) (now later : ℕ) (s : Store)
    → is_empty m.message_id ≡ true
    → IsUnique (bucket m.conversation s)
    → (should_drop_duplicate_inbound_message m later
        (record_inbound_message_processed m response now s)).0
      ≡ leb (later - now) inbound_dedup_window
unfolding should_drop_duplicate_inbound_message
drop-window m response now later s h u =
    let seen = Dict.put (bucket m.conversation s) (fingerprint m) now in
    rw
      (
        h,
        bucket-record m response now s h,
        get-fresh seen later now (fingerprint m)
            (put-IsUnique (bucket m.conversation s) (fingerprint m) now u)
            (get-put_self (bucket m.conversation s) (fingerprint m) now),
      )
      (ground arith)
