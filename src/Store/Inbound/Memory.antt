-- ===== src/Store/Inbound/Memory.antt =====
-- How long an id is remembered, and how much is remembered at most.
use imcodex.Prelude.{
  ℕ, zero, suc, ◌+◌, ◌-◌, ◌≤◌, ◌<◌, String, ◌≡◌, ◌≢◌, refl, ap, sym, ◌∙◌, true, false, Option, some,
  List, [], ◌∷◌, ◌++◌, arith, ◌==◌, not, string_eq, pair_eq, Option-cases, keep, length, last_n,
  drop, length-append, keep-append, length-keep-le, length-last_n-le, contains, beq_refl, subst,
  append_assoc, eq_iff, last_n-snoc, is_empty, Bool-cases, inl, inr,
}
use imcodex.Dict
use imcodex.Models.{Pair, Items, ConversationBinding}
use imcodex.Store.State.{Store}
use imcodex.Store.Registry.{get_binding}
use imcodex.Store.Inbound.{
  Inbound, remember_id, recent_inbound_message_id_limit, list_or_empty,
  record_inbound_message_processed, should_drop_duplicate_inbound_message, remembers,
}
use imcodex.Store.Inbound.Dedup.{get-record, ids-processed_context}

-- The ids of further messages are remembered in turn.
abbrev pub remember_all : List String → List String → List String
remember_all [] ids = ids
remember_all (m ∷ ms) ids = remember_all ms (remember_id m ids)

-- The id stands in the list, with `k` ids behind it at most.
abbrev Near : String → ℕ → List String → Type 0
Near m k ids = (before after : List String) × (ids ≡ before ++ m ∷ after) × (length after ≤ k)

contains-append_right :
    (xs ys : List String) (m : String) → contains ys m ≡ true → contains (xs ++ ys) m ≡ true
contains-append_right [] ys m h = h
contains-append_right (x ∷ xs) ys m h = ground (arith, contains-append_right xs ys m h)

drop-append : (n : ℕ) (xs ys : List String) → n ≤ length xs → drop n (xs ++ ys) ≡ drop n xs ++ ys
drop-append zero xs ys h = refl
drop-append (suc n) [] ys h = elim h [ ]
drop-append (suc n) (x ∷ xs) ys h = drop-append n xs ys (omega arith)

eq_false : (m x : String) → m ≢ x → (m == x) ≡ false
eq_false m x h = ground (arith, eq_iff m x)

-- Another id is remembered: one more stands behind, and fewer than the limit keep it.
remember_id-Near :
    (m x : String) (k : ℕ) (ids : List String)
    → m ≢ x
    → k + 1 < recent_inbound_message_id_limit
    → Near m k ids
    → Near m (k + 1) (remember_id x ids)
unfolding remember_id
remember_id-Near m x k ids ne small (before, after, e, short) =
    let p = λ (y : String). not (y == x) in
    let kb = keep p before in
    let ka = keep p after in
    let tail = m ∷ (ka ++ x ∷ []) in
    let e' : keep p ids ++ x ∷ [] ≡ kb ++ tail =
      ap (λ (l : List String). keep p l ++ x ∷ []) e
      ∙ rw (keep-append p before (m ∷ after), eq_false m x ne)
          (append_assoc kb (m ∷ ka) (x ∷ [])) in
    let le : length ka ≤ length after = length-keep-le p after in
    let la : length (ka ++ x ∷ []) ≡ length ka + 1 = length-append ka (x ∷ []) in
    let lt : length (kb ++ tail) ≡ length kb + length tail = length-append kb tail in
    (
      drop (length (kb ++ tail) - recent_inbound_message_id_limit) kb,
      ka ++ x ∷ [],
      ap (last_n recent_inbound_message_id_limit) e'
          ∙ drop-append (length (kb ++ tail) - recent_inbound_message_id_limit) kb tail
              (omega arith),
      omega arith,
    )

-- The newest id has nothing behind it.
Near-remember_id : (m : String) (ids : List String) → Near m 0 (remember_id m ids)
unfolding remember_id
Near-remember_id m ids =
    let kept = keep (λ (y : String). not (y == m)) ids in
    (last_n 1023 kept, [], last_n-snoc 1023 kept m, omega arith)

Near-contains : (m : String) (k : ℕ) (ids : List String) → Near m k ids → contains ids m ≡ true
Near-contains m k ids (before, after, e, short) =
    rw e (contains-append_right before (m ∷ after) m (rw (beq_refl m)))

remember_all-contains :
    (m : String) (k : ℕ) (more ids : List String)
    → Near m k ids
    → k + length more < recent_inbound_message_id_limit
    → contains (remember_all more ids) m ≡ true
remember_all-contains m k [] ids near small = Near-contains m k ids near
remember_all-contains m k (x ∷ more) ids near small = elim (Bool-cases (m == x)) [
  | inl same ↦
      remember_all-contains m 0 more (remember_id x ids)
        (subst (λ (y : String). Near y 0 (remember_id x ids)) (sym ((eq_iff m x).0 same))
          (Near-remember_id x ids))
        (omega arith)
  | inr other ↦
      remember_all-contains m (k + 1) more (remember_id x ids)
        (remember_id-Near m x k ids (λ e. ground (arith, eq_iff m x)) (omega arith) near)
        (omega arith)
]

-- A processed id is among the remembered ones until as many as the limit of further ids have been processed, be
-- they new or not.
pub contains-remember_all :
    (m : String) (more ids : List String)
    → length more < recent_inbound_message_id_limit
    → contains (remember_all more (remember_id m ids)) m ≡ true
contains-remember_all m more ids small =
    remember_all-contains m 0 more (remember_id m ids) (Near-remember_id m ids) (omega arith)

-- However many ids are processed, no more than the limit are kept.
pub length-remember_id-le :
    (m : String) (ids : List String) → length (remember_id m ids) ≤ recent_inbound_message_id_limit
unfolding remember_id
length-remember_id-le m ids =
    length-last_n-le recent_inbound_message_id_limit
      (keep (λ (y : String). not (y == m)) ids ++ m ∷ [])

-- The ids that the conversation's binding remembers.
abbrev remembered_ids : Pair → Store → List String
remembered_ids key s = list_or_empty (get_binding key s).0.reply_context.recent_inbound_message_ids

-- Messages of one conversation, each with an id, and the responses to record for them.
abbrev pub AllOf : Pair → List (Inbound × Option Items) → Type 0
AllOf key [] = Unit
AllOf key ((m, _) ∷ ms) = (m.conversation ≡ key) × (is_empty m.message_id ≡ false) × AllOf key ms

abbrev pub record_all : List (Inbound × Option Items) → ℕ → Store → Store
record_all [] now s = s
record_all ((m, response) ∷ ms) now s =
    record_all ms now (record_inbound_message_processed m response now s)

ids_of : List (Inbound × Option Items) → List String
ids_of [] = []
ids_of ((m, _) ∷ ms) = m.message_id ∷ ids_of ms

get_binding_there :
    (key : Pair) (b : ConversationBinding) (s : Store)
    → Dict.get s.bindings key ≡ some b
    → (get_binding key s).0 ≡ b
unfolding get_binding
get_binding_there key b s h = rw (h, get_binding)

remembered_ids-record :
    (m : Inbound) (response : Option Items) (now : ℕ) (s : Store)
    → is_empty m.message_id ≡ false
    → remembered_ids m.conversation (record_inbound_message_processed m response now s)
      ≡ remember_id m.message_id (remembered_ids m.conversation s)
remembered_ids-record m response now s h =
    ap (λ (b : ConversationBinding). list_or_empty b.reply_context.recent_inbound_message_ids)
      (get_binding_there m.conversation _ (record_inbound_message_processed m response now s)
        (get-record m response now s h))
    ∙ ap list_or_empty
        (ids-processed_context m response (get_binding m.conversation s).0.reply_context)

remembered_ids-record_all :
    (ms : List (Inbound × Option Items)) (key : Pair) (now : ℕ) (s : Store)
    → AllOf key ms
    → remembered_ids key (record_all ms now s) ≡ remember_all (ids_of ms) (remembered_ids key s)
unfolding ids_of
remembered_ids-record_all [] key now s a = refl
remembered_ids-record_all ((m, r) ∷ ms) key now s (here, named, rest) =
    remembered_ids-record_all ms key now (record_inbound_message_processed m r now s) rest
    ∙ ap (remember_all (ids_of ms)) (
        subst
          (λ (k : Pair).
            remembered_ids k (record_inbound_message_processed m r now s)
            ≡ remember_id m.message_id (remembered_ids k s))
          here (remembered_ids-record m r now s named))

length-ids_of : (ms : List (Inbound × Option Items)) → length (ids_of ms) ≡ length ms
unfolding ids_of
length-ids_of [] = refl
length-ids_of (m ∷ ms) = ap suc (length-ids_of ms)

remembers-remembered_ids :
    (key : Pair) (m : String) (s : Store)
    → remembers (Dict.get s.bindings key) m ≡ contains (remembered_ids key s) m
unfolding get_binding
remembers-remembered_ids key m s = elim (Option-cases (Dict.get s.bindings key)) [
  | inl e ↦ rw (e, get_binding)
  | inr (b, e) ↦ rw (e, get_binding)
]

-- A processed message is dropped as a duplicate as long as fewer than 1024 further messages of the
-- conversation have been recorded, whatever they are.
pub drop-record_all :
    (m : Inbound) (response : Option Items) (ms : List (Inbound × Option Items)) (now later : ℕ)
    (s : Store)
    → is_empty m.message_id ≡ false
    → AllOf m.conversation ms
    → length ms < recent_inbound_message_id_limit
    → (should_drop_duplicate_inbound_message m later
        (record_all ms now (record_inbound_message_processed m response now s))).0
      ≡ true
unfolding should_drop_duplicate_inbound_message
drop-record_all m response ms now later s h a small = rw (
  h,
  remembers-remembered_ids,
  remembered_ids-record_all ms m.conversation now
      (record_inbound_message_processed m response now s) a,
  remembered_ids-record m response now s h,
  contains-remember_all m.message_id (ids_of ms) (remembered_ids m.conversation s)
      (omega (arith, length-ids_of ms)),
)
