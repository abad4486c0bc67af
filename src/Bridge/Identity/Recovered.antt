-- ===== src/Bridge/Identity/Recovered.antt =====
-- An answer has one identity, whether it is seen live or found in the history after a restart.
use imcodex.Prelude.{
  ℕ, String, ◌≡◌, refl, Bool, true, false, Option, none, some, List, [], ◌∷◌, ◌++◌, arith, ◌==◌,
  ◌&&◌, not, ap, Bool-cases, inl, inr, string_eq, if◌then◌else◌, is_empty, map, contains, beq_refl,
  append_assoc, append-nil, subst,
}
use mathlib.Core.List.{map-append}
use imcodex.Models.{Fields, get_field, as_dict, obj}
use imcodex.Bridge.Delivery.Payload.{text_field}
use imcodex.Bridge.Identity.{
  TerminalDeliveryIdentity, Event, first_text, event_terminal_key, is_final_answer,
  event_terminal_identity, item_identity, turn_identity, terminal_item_key,
  recovered_turn_identities, recovered_turn_final_items,
}

contains-middle : (xs ys : List String) (x : String) → contains (xs ++ x ∷ ys) x ≡ true
contains-middle [] ys x = rw (beq_refl x) refl
contains-middle (y ∷ xs) ys x = ground (arith, contains-middle xs ys x)

abbrev pub ids : List TerminalDeliveryIdentity → List String
ids identities = map (λ i. i.delivery_id) identities

-- What is found in front of the fallback is found.
abbrev Found : String → Option (List TerminalDeliveryIdentity) → Type 0
Found id none = Unit
Found id (some identities) = contains (ids identities) id ≡ true

Found-if :
    (duplicate extended : Bool) (xs ys : List TerminalDeliveryIdentity) (id : String)
    → contains (ids (xs ++ ys)) id ≡ true
    → contains (ids xs) id ≡ true
    → Found id (if duplicate then none else if extended then some (xs ++ ys) else some xs)
Found-if true extended xs ys id h k = tt
Found-if false true xs ys id h k = h
Found-if false false xs ys id h k = k

module _ (utf8 : String → List ℕ) (digest : List ℕ → String) (dumps : Fields → String) where
  -- The id of the event does not count where the item has its own, or where the event has none.
  key-same :
      (item : Fields) (fallback : String)
      → (is_empty (text_field "id" item) && not (is_empty fallback)) ≡ false
      → terminal_item_key utf8 digest dumps item fallback
        ≡ terminal_item_key utf8 digest dumps item ""
  unfolding terminal_item_key
  key-same item fallback h = elim (Bool-cases (is_empty (text_field "id" item))) [
    | inl e ↦
        ap (terminal_item_key utf8 digest dumps item)
          ((string_eq.beq_iff fallback "").0 (no_fallback e h))
    | inr e ↦ rw (e, terminal_item_key) refl
  ]
    where
      no_fallback :
          is_empty (text_field "id" item) ≡ true
          → (is_empty (text_field "id" item) && not (is_empty fallback)) ≡ false
          → is_empty fallback ≡ true
      no_fallback e h = ground (arith, e, h)

  -- The final answer of an event that names its thread and turn
  pub record IsAnswer (event : Event) (item : Fields) : Type 0 where
    pub completed : (event.kind == "item_completed") ≡ true
    pub not_turn : (event.kind == "turn_completed") ≡ false
    pub thread : is_empty event.thread_id ≡ false
    pub turn : is_empty event.turn_id ≡ false
    pub item_there : get_field event.payload "item" ≡ some (obj item)
    pub final : is_final_answer item ≡ true

  event_key :
      (event : Event)
      → is_empty event.thread_id ≡ false
      → is_empty event.turn_id ≡ false
      → event_terminal_key event ≡ some (event.thread_id, event.turn_id)
  unfolding event_terminal_key
  event_key event t u = rw (t, u, u, event_terminal_key) refl

  live-identity :
      (event : Event) (item : Fields)
      → IsAnswer event item
      → (is_empty (text_field "id" item) && not (is_empty (text_field "itemId" event.payload)))
        ≡ false
      → event_terminal_identity utf8 digest dumps event
        ≡ some (item_identity utf8 digest dumps event.thread_id event.turn_id item)
  unfolding event_terminal_identity text_field get_field as_dict
  live-identity event item a own =
      rw
        (
          a.thread,
          a.turn,
          a.turn,
          a.not_turn,
          a.completed,
          a.item_there,
          a.final,
          key-same item (text_field "itemId" event.payload) own,
          event_terminal_identity,
        )
        refl

  module _ (thread turn_id : String) (item : Fields) (before later : List Fields) where
    answer : TerminalDeliveryIdentity
    answer = item_identity utf8 digest dumps thread turn_id item

    identities_of : List Fields → List TerminalDeliveryIdentity
    identities_of items = map (item_identity utf8 digest dumps thread turn_id) items

    found_in :
        (more : List TerminalDeliveryIdentity)
        → contains (ids (identities_of (before ++ item ∷ later) ++ more)) answer.delivery_id ≡ true
    unfolding answer identities_of
    found_in more =
        rw
          (
            map-append (item_identity utf8 digest dumps thread turn_id) before (item ∷ later),
            append_assoc (identities_of before) (identities_of (item ∷ later)) more,
            map-append (λ (i : TerminalDeliveryIdentity). i.delivery_id) (identities_of before)
                (identities_of (item ∷ later) ++ more),
          )
          (contains-middle (ids (identities_of before)) (ids (identities_of later ++ more))
            answer.delivery_id)

    recovered-Found :
        (turn : Fields) (fallback : Bool)
        → is_empty thread ≡ false
        → is_empty turn_id ≡ false
        → first_text (text_field "id" turn) (text_field "turnId" turn) ≡ turn_id
        → recovered_turn_final_items turn ≡ before ++ item ∷ later
        → Found answer.delivery_id
            (recovered_turn_identities utf8 digest dumps thread turn fallback)
    unfolding recovered_turn_identities answer identities_of
    recovered-Found turn fallback t u own items =
        rw (t, own, u, items, recovered_turn_identities)
          (Found-if _ _ (identities_of (before ++ item ∷ later))
            (turn_identity utf8 digest dumps thread turn_id ∷ []) answer.delivery_id
            (found_in (turn_identity utf8 digest dumps thread turn_id ∷ []))
            (subst
              (λ (xs : List TerminalDeliveryIdentity). contains (ids xs) answer.delivery_id ≡ true)
              (append-nil (identities_of (before ++ item ∷ later))) (found_in [])))

  -- The identity of an answer that an event completes, which names its thread and turn, is among those
  -- that are recovered from the history of its turn, if the history has that answer, its answers have
  -- distinct ids, and the answer has an id of its own or the event has no item id beside it.
  pub live-recovered :
      (event : Event) (item turn : Fields) (before later : List Fields) (fallback : Bool)
      (recovered : List TerminalDeliveryIdentity)
      → IsAnswer event item
      → (is_empty (text_field "id" item) && not (is_empty (text_field "itemId" event.payload)))
        ≡ false
      → first_text (text_field "id" turn) (text_field "turnId" turn) ≡ event.turn_id
      → recovered_turn_final_items turn ≡ before ++ item ∷ later
      → recovered_turn_identities utf8 digest dumps event.thread_id turn fallback ≡ some recovered
      → (live : TerminalDeliveryIdentity) × (event_terminal_identity utf8 digest dumps event
          ≡ some live)
        × (contains (ids recovered) live.delivery_id ≡ true)
  unfolding answer
  live-recovered event item turn before later fallback recovered a keyed own items e = (
    item_identity utf8 digest dumps event.thread_id event.turn_id item,
    live-identity event item a keyed,
    subst (Found (answer event.thread_id event.turn_id item before later).delivery_id) e (
        recovered-Found event.thread_id event.turn_id item before later turn fallback a.thread
          a.turn own items),
  )
