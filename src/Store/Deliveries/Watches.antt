-- ===== src/Store/Deliveries/Watches.antt =====
-- The recovery watches: when a turn is watched, and what ends a watch.
use imcodex.Prelude.{
  ◌&&◌, is_empty, ℕ, String, ◌≡◌, refl, subst, Bool, true, false, none, some, [], ◌∷◌, arith, ◌==◌,
  ◌||◌, not, string_eq, pair_eq, is_empty, is_some, keep, contains, length, length-keep-le, nat_eq,
  Bool-cases, inl, inr,
}
use imcodex.Dict
use imcodex.Dict.{Dict, values}
use imcodex.Dict.Laws.{get-put_self, get-pop_self, has-true}
use imcodex.Models.{Pair, TerminalDeliveryWatch, PendingTerminalDelivery}
use imcodex.Store.State.{Store, save}
use imcodex.Store.Registry.{find_binding_by_thread_id}
use imcodex.Store.Deliveries.{
  watch_terminal_delivery, discard_terminal_watch, has_acknowledged_terminal_delivery,
  remove_terminal_deliveries_for_thread, list_terminal_delivery_watches,
}

or_right : (a b : Bool) → (a || not b) ≡ false → b ≡ true
or_right a b h = ground arith

-- A turn is watched afterwards exactly if it was, or if both its ids are there and its thread is
-- bound to a conversation.
watch-has :
    (thread turn : String) (now : ℕ) (s : Store)
    → Dict.has (watch_terminal_delivery thread turn now s).terminal_delivery_watches (thread, turn)
      ≡ (Dict.has s.terminal_delivery_watches (thread, turn)
          || (not (is_empty thread)
              && (not (is_empty turn) && is_some (find_binding_by_thread_id thread s))))
unfolding watch_terminal_delivery save
watch-has thread turn now s = ground (
  arith,
  has-true (Dict.put s.terminal_delivery_watches key watch) key watch
      (get-put_self s.terminal_delivery_watches key watch),
)
  where
    key : Pair
    key = (thread, turn)

    watch : TerminalDeliveryWatch
    watch = record { thread_id = thread; turn_id = turn; created_at = now }

all_not :
    (xs : Dict String Pair) (key : Pair)
    → contains (values (keep (λ (e : String × Pair). not (e.1 == key)) xs)) key ≡ false
all_not [] key = refl
all_not ((k, v) ∷ xs) key = ground (arith, all_not xs key)

keep_all :
    (xs : Dict String Pair) (p : String × Pair → Bool)
    → nat_eq (length (keep p xs)) (length xs) ≡ true
    → keep p xs ≡ xs
keep_all [] p h = refl
keep_all (x ∷ xs) p h = ground (arith, keep_all xs p, length-keep-le p xs)

-- A discarded watch is gone, and so are the acknowledgements of its turn.
discard-gone :
    (thread turn : String) (s : Store)
    → (Dict.get (discard_terminal_watch thread turn s).terminal_delivery_watches (thread, turn)
        ≡ none)
      × (has_acknowledged_terminal_delivery thread turn (discard_terminal_watch thread turn s)
          ≡ false)
unfolding discard_terminal_watch has_acknowledged_terminal_delivery save
discard-gone thread turn s = elim (Bool-cases (removes || not same)) [
  | inl some_removed ↦
      rw some_removed (get-pop_self s.terminal_delivery_watches key, all_not acks key)
  | inr none_removed ↦ rw none_removed (
    get-pop_self s.terminal_delivery_watches key,
    subst (λ (d : Dict String Pair). contains (values d) key ≡ false)
        (keep_all acks (λ (e : String × Pair). not (e.1 == key))
          (or_right removes same none_removed))
        (all_not acks key),
  )
]
  where
    key : Pair
    key = (thread, turn)

    acks : Dict String Pair
    acks = s.acknowledged_terminal_deliveries

    removes : Bool
    removes = is_some (Dict.get s.terminal_delivery_watches key)

    same : Bool
    same = nat_eq (length (keep (λ (e : String × Pair). not (e.1 == key)) acks)) (length acks)

-- A removal that preserves what is staged leaves the outbox as it is.
pub remove-pending :
    (thread : String) (s : Store)
    → (remove_terminal_deliveries_for_thread thread true s).pending_terminal_deliveries
      ≡ s.pending_terminal_deliveries
unfolding remove_terminal_deliveries_for_thread
remove-pending thread s = staged s.pending_terminal_deliveries
  where
    staged :
        (d : Dict String PendingTerminalDelivery)
        → keep (λ (e : String × PendingTerminalDelivery). not (e.1.thread_id == thread) || true) d
          ≡ d
    staged [] = refl
    staged (e ∷ d) = ground (arith, staged d)

-- What the queries say of the watches and the acknowledgements after a removal
watches_gone :
    (thread : String) (d : Dict Pair TerminalDeliveryWatch)
    → keep
        (λ (w : TerminalDeliveryWatch). w.thread_id == thread)
        (values (keep (λ (e : Pair × TerminalDeliveryWatch). not (e.1.thread_id == thread)) d))
      ≡ []
watches_gone thread [] = refl
watches_gone thread (e ∷ d) = ground (arith, watches_gone thread d)

watches_kept :
    (thread other : String) (d : Dict Pair TerminalDeliveryWatch)
    → (other == thread) ≡ false
    → keep
        (λ (w : TerminalDeliveryWatch). w.thread_id == other)
        (values (keep (λ (e : Pair × TerminalDeliveryWatch). not (e.1.thread_id == thread)) d))
      ≡ keep (λ (w : TerminalDeliveryWatch). w.thread_id == other) (values d)
watches_kept thread other [] h = refl
watches_kept thread other (e ∷ d) h = ground (
  arith,
  h,
  watches_kept thread other d h,
  string_eq.beq_iff e.1.thread_id thread,
  string_eq.beq_iff e.1.thread_id other,
  string_eq.beq_iff other thread,
)

acks_gone :
    (thread turn : String) (d : Dict String Pair)
    → contains (values (keep (λ (e : String × Pair). not (e.1.0 == thread)) d)) (thread, turn)
      ≡ false
acks_gone thread turn [] = refl
acks_gone thread turn ((k, (t, u)) ∷ d) = ground (arith, acks_gone thread turn d)

acks_kept :
    (thread other turn : String) (d : Dict String Pair)
    → (other == thread) ≡ false
    → contains (values (keep (λ (e : String × Pair). not (e.1.0 == thread)) d)) (other, turn)
      ≡ contains (values d) (other, turn)
acks_kept thread other turn [] h = refl
acks_kept thread other turn ((k, (t, u)) ∷ d) h = ground (
  arith,
  h,
  acks_kept thread other turn d h,
  string_eq.beq_iff t thread,
  string_eq.beq_iff t other,
  string_eq.beq_iff other thread,
)

-- A conversation has left the thread: every staged message is still pending, nothing of the thread is
-- watched or acknowledged any more, and what is of another thread is as before.
abbrev pub HasLeft : String → Store → Store → Type 0
HasLeft thread before after =
    (after.pending_terminal_deliveries ≡ before.pending_terminal_deliveries)
    × (list_terminal_delivery_watches (some thread) after ≡ [])
    × ((turn : String) → has_acknowledged_terminal_delivery thread turn after ≡ false)
    × ((other : String)
        → (other == thread) ≡ false
        → list_terminal_delivery_watches (some other) after
          ≡ list_terminal_delivery_watches (some other) before)
    × ((other turn : String)
        → (other == thread) ≡ false
        → has_acknowledged_terminal_delivery other turn after
          ≡ has_acknowledged_terminal_delivery other turn before)

pub remove-HasLeft :
    (thread : String) (s : Store)
    → HasLeft thread s (remove_terminal_deliveries_for_thread thread true s)
unfolding remove_terminal_deliveries_for_thread list_terminal_delivery_watches
    has_acknowledged_terminal_delivery
remove-HasLeft thread s = (
  remove-pending thread s,
  watches_gone thread s.terminal_delivery_watches,
  λ turn. acks_gone thread turn s.acknowledged_terminal_deliveries,
  λ other h. watches_kept thread other s.terminal_delivery_watches h,
  λ other turn h. acks_kept thread other turn s.acknowledged_terminal_deliveries h,
)
