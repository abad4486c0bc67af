-- ===== src/Store/Bindings/Leaving.antt =====
-- What a conversation leaves behind when it is bound to another thread, or to none.
use imcodex.Prelude.{
  String, ◌≡◌, refl, sym, ap, ◌∙◌, subst, false, Option, some, arith, ◌==◌, string_eq, pair_eq,
  beq_refl, contains, keep, is_empty,
}
use mathlib.Core.Option
use imcodex.Dict
use imcodex.Dict.{Dict, values}
use imcodex.Dict.Laws.{get-map_items}
use imcodex.Models.{Pair, ConversationBinding, TerminalDeliveryWatch}
use imcodex.Store.State.{Store, save}
use imcodex.Store.Registry.{set_binding, get_binding}
use imcodex.Store.Deliveries.{list_terminal_delivery_watches, has_acknowledged_terminal_delivery}
use imcodex.Store.Deliveries.Watches.{HasLeft, remove-HasLeft}
use imcodex.Store.Bindings.{
  release, leave_thread, released_store, set_route, bind_thread, forget_thread,
  clear_thread_binding,
}

-- The two stores know the same deliveries.
record SameDeliveries (s t : Store) : Type 0 where
  pending : t.pending_terminal_deliveries ≡ s.pending_terminal_deliveries
  watches : t.terminal_delivery_watches ≡ s.terminal_delivery_watches
  acknowledged : t.acknowledged_terminal_deliveries ≡ s.acknowledged_terminal_deliveries

before-HasLeft :
    (thread : String) (s x t : Store) → SameDeliveries s x → HasLeft thread x t → HasLeft thread s t
unfolding list_terminal_delivery_watches has_acknowledged_terminal_delivery
before-HasLeft thread s x t e (staged, gone, unknown, kept, known) = (
  staged ∙ e.pending,
  gone,
  unknown,
  λ other h.
      kept other h
      ∙ ap
          (λ (d : Dict Pair TerminalDeliveryWatch).
            keep (λ (w : TerminalDeliveryWatch). w.thread_id == other) (values d))
          e.watches,
  λ other turn h.
      known other turn h
      ∙ ap (λ (d : Dict String Pair). contains (values d) (other, turn)) e.acknowledged,
)

get_binding-SameDeliveries : (key : Pair) (s : Store) → SameDeliveries s (get_binding key s).1
unfolding get_binding set_binding
get_binding-SameDeliveries key s = record {
  pending = ground arith;
  watches = ground arith;
  acknowledged = ground arith;
}

get_binding-there :
    (key : Pair) (s : Store) (b : ConversationBinding)
    → Dict.get s.bindings key ≡ some b
    → (get_binding key s).0 ≡ b
unfolding get_binding
get_binding-there key s b h = rw (h, get_binding) refl

-- The conversation itself keeps its thread in the first loop of `bind_thread`.
released-there :
    (key : Pair) (thread : String) (s : Store) (b : ConversationBinding)
    → Dict.get s.bindings key ≡ some b
    → Dict.get (released_store key thread s).bindings key ≡ some b
unfolding released_store release
released-there key thread s b h =
    get-map_items (release key thread) s.bindings key
    ∙ ap (Option.map (release key thread key)) h
    ∙ rw (beq_refl {A = Pair} key, release) refl

leave_thread-HasLeft :
    (old new : String) (previous : Option String) (s : Store)
    → previous ≡ some old
    → is_empty old ≡ false
    → (old == new) ≡ false
    → HasLeft old s (leave_thread previous new s)
unfolding leave_thread
leave_thread-HasLeft old new previous s h real apart =
    subst (λ (p : Option String). HasLeft old s (leave_thread p new s)) (sym h)
      (rw (real, apart) (remove-HasLeft old s))

forget_thread-HasLeft :
    (old : String) (previous : Option String) (s : Store)
    → previous ≡ some old
    → HasLeft old s (forget_thread previous s)
unfolding forget_thread list_terminal_delivery_watches has_acknowledged_terminal_delivery
forget_thread-HasLeft old previous s h =
    subst (λ (p : Option String). HasLeft old s (forget_thread p s)) (sym h) (remove-HasLeft old s)

module _ (key : Pair) (old : String) (s : Store) (b : ConversationBinding)
    (there : Dict.get s.bindings key ≡ some b) (bound : b.thread_id ≡ some old) where
  clear-HasLeft : HasLeft old s (clear_thread_binding key s).1
  unfolding clear_thread_binding set_binding save list_terminal_delivery_watches
      has_acknowledged_terminal_delivery
  clear-HasLeft =
      let (binding, s') = get_binding key s in
      before-HasLeft old s s' (forget_thread binding.thread_id s')
        (get_binding-SameDeliveries key s)
        (forget_thread-HasLeft old binding.thread_id s'
          (ap (λ (c : ConversationBinding). c.thread_id) (get_binding-there key s b there) ∙ bound))

  bind-HasLeft :
      (new : String)
      → is_empty old ≡ false
      → (old == new) ≡ false
      → HasLeft old s (bind_thread key new s).1
  unfolding bind_thread set_route set_binding save list_terminal_delivery_watches
      has_acknowledged_terminal_delivery
  bind-HasLeft new real apart =
      let loops = released_store key new s in
      let (binding, s') = get_binding key loops in
      let routed = set_route key new (set_binding key (bind_thread key new s).0 s') in
      before-HasLeft old s routed (leave_thread binding.thread_id new routed)
        (record {
          pending = (get_binding-SameDeliveries key loops).pending;
          watches = (get_binding-SameDeliveries key loops).watches;
          acknowledged = (get_binding-SameDeliveries key loops).acknowledged;
        })
        (leave_thread-HasLeft old new binding.thread_id routed
          (ap (λ (c : ConversationBinding). c.thread_id)
              (get_binding-there key loops b (released-there key new s b there))
            ∙ bound)
          real apart)

-- A conversation that is bound to a thread leaves it when its binding is cleared, and when it is bound
-- to another thread. Either way every staged message is still pending, nothing of the thread is watched
-- or acknowledged any more, and the watches and acknowledgements of other threads are as before.
pub leave-keeps_staged :
    (key : Pair) (old new : String) (s : Store) (b : ConversationBinding)
    → Dict.get s.bindings key ≡ some b
    → b.thread_id ≡ some old
    → is_empty old ≡ false
    → (old == new) ≡ false
    → HasLeft old s (clear_thread_binding key s).1 × HasLeft old s (bind_thread key new s).1
leave-keeps_staged key old new s b there bound real apart =
    (clear-HasLeft key old s b there bound, bind-HasLeft key old s b there bound new real apart)
