-- ===== src/Store/Bindings/Routing.antt =====
-- Where the messages of a native thread go after a conversation has taken it over.
use imcodex.Prelude.{
  String, ◌≡◌, ap, sym, ◌∙◌, Bool, true, false, Option, some, [], ◌∷◌, arith, ◌==◌, string_eq,
  pair_eq, option_eq, option_beq_iff, beq_refl, Eq, find, Bool-cases, Option-cases, subst, All, ◌⊎◌,
  inl, inr,
}
use imcodex.Dict
use imcodex.Dict.{Dict, values, map_items, map_values}
use imcodex.Dict.Laws.{All-put, get-put_self}
use imcodex.Models.{Pair, ConversationBinding, new_binding}
use imcodex.Store.State.{Store, save}
use imcodex.Store.Registry.{set_binding, get_binding, on_thread, find_binding_by_thread_id}
use imcodex.Store.Deliveries.{remove_terminal_deliveries_for_thread}
use imcodex.Store.Bindings.{release, reroute, leave_thread, released_store, set_route, bind_thread}
use imcodex.Store.Bindings.Exclusive.{get-bind_thread, thread-bind_thread}

-- The item has the key, or its value fails the test.
abbrev Elsewhere {ℓ κ} : {K : Type ℓ} {V : Type κ} → ⦃e : Eq K⦄ → (V → Bool) → K → K × V → Type 0
Elsewhere ⦃e⦄ p k item = (e.beq item.0 k ≡ true) ⊎ (p item.1 ≡ false)

module _ {ℓ κ} {K : Type ℓ} {V : Type κ} ⦃e : Eq K⦄ (p : V → Bool) (k : K) where
  -- A scan of the values finds the only one that passes.
  find_only :
      (d : Dict K V) (v : V)
      → Dict.get d k ≡ some v
      → p v ≡ true
      → All (Elsewhere p k) d
      → find p (values d) ≡ some v
  unfolding Dict.get
  find_only [] v h pv a = absurd (ground arith)
  find_only ((j, w) ∷ d) v h pv a = ground (arith, find_only d v)

release-Elsewhere :
    (key : Pair) (thread : String) (j : Pair) (b : ConversationBinding)
    → Elsewhere (on_thread thread) key (j, release key thread j b)
unfolding release
release-Elsewhere key thread j b = elim (Bool-cases (j == key)) [
  | inl e ↦ inl e
  | inr e ↦
      inr
        (elim (Bool-cases (on_thread thread b)) [ inl on ↦ rw (e, on) | inr off ↦ rw (e, off) off ])
]

released-Elsewhere :
    (key : Pair) (thread : String) (d : Dict Pair ConversationBinding)
    → All (Elsewhere (on_thread thread) key) (map_items (release key thread) d)
released-Elsewhere key thread [] = tt
released-Elsewhere key thread ((j, b) ∷ d) =
    (release-Elsewhere key thread j b, released-Elsewhere key thread d)

get_binding-Elsewhere :
    (key : Pair) (thread : String) (s : Store)
    → All (Elsewhere (on_thread thread) key) s.bindings
    → All (Elsewhere (on_thread thread) key) (get_binding key s).1.bindings
unfolding get_binding set_binding
get_binding-Elsewhere key thread s a = elim (Option-cases (Dict.get s.bindings key)) [
  | inl e ↦
      rw (e, get_binding)
        (All-put (Elsewhere (on_thread thread) key) s.bindings key (new_binding key)
          (inl (beq_refl {A = Pair} key)) a)
  | inr (old, e) ↦ rw (e, get_binding) a
]

set-get_binding-Elsewhere :
    (key : Pair) (thread : String) (b : ConversationBinding) (s : Store)
    → All (Elsewhere (on_thread thread) key) s.bindings
    → All (Elsewhere (on_thread thread) key) (set_binding key b (get_binding key s).1).bindings
unfolding set_binding
set-get_binding-Elsewhere key thread b s a =
    All-put (Elsewhere (on_thread thread) key) (get_binding key s).1.bindings key b
      (inl (beq_refl {A = Pair} key)) (get_binding-Elsewhere key thread s a)

bindings-leave_thread :
    (previous : Option String) (thread : String) (s : Store)
    → (leave_thread previous thread s).bindings ≡ s.bindings
unfolding leave_thread remove_terminal_deliveries_for_thread
bindings-leave_thread previous thread s = ground arith

bound-Elsewhere :
    (key : Pair) (thread : String) (s : Store)
    → All (Elsewhere (on_thread thread) key) (bind_thread key thread s).1.bindings
unfolding bind_thread save
bound-Elsewhere key thread s =
    let loops = released_store key thread s in
    let (b, s') = get_binding key loops in
    subst (All (Elsewhere (on_thread thread) key))
      (sym (
        bindings-leave_thread b.thread_id thread
          (set_route key thread (set_binding key (bind_thread key thread s).0 s'))))
      (set-get_binding-Elsewhere key thread (bind_thread key thread s).0 loops
        (released-Elsewhere key thread s.bindings))

-- Whatever was bound to the thread before, the thread is found at the conversation that
-- `bind_thread` was called for, and the messages go there.
pub find_binding-bind_thread :
    (key : Pair) (thread : String) (s : Store)
    → find_binding_by_thread_id thread (bind_thread key thread s).1
      ≡ some (bind_thread key thread s).0
unfolding find_binding_by_thread_id
find_binding-bind_thread key thread s =
    find_only (on_thread thread) key (bind_thread key thread s).1.bindings
      (bind_thread key thread s).0 (rw (get-bind_thread key thread s key, beq_refl {A = Pair} key))
      ((option_beq_iff (bind_thread key thread s).0.thread_id (some thread)).1
        (thread-bind_thread key thread s))
      (bound-Elsewhere key thread s)

routes-leave_thread :
    (previous : Option String) (thread : String) (s : Store)
    → ((leave_thread previous thread s).thread_recipient_routes ≡ s.thread_recipient_routes)
      × ((leave_thread previous thread s).pending_requests ≡ s.pending_requests)
unfolding leave_thread remove_terminal_deliveries_for_thread
routes-leave_thread previous thread s = ground arith

pending-get_binding :
    (key : Pair) (s : Store) → (get_binding key s).1.pending_requests ≡ s.pending_requests
unfolding get_binding set_binding
pending-get_binding key s = ground arith

-- After its two loops `bind_thread` changes no request any more.
pub pending-bind_thread :
    (key : Pair) (thread : String) (s : Store)
    → (bind_thread key thread s).1.pending_requests
      ≡ map_values (reroute key thread) s.pending_requests
unfolding bind_thread save set_route set_binding
pending-bind_thread key thread s =
    let loops = released_store key thread s in
    let (b, s') = get_binding key loops in
    (routes-leave_thread b.thread_id thread
      (set_route key thread (set_binding key (bind_thread key thread s).0 s'))).1
    ∙ pending-get_binding key loops

-- A later standalone delivery to the thread goes to the conversation too.
pub route-bind_thread :
    (key : Pair) (thread : String) (s : Store)
    → Dict.get (bind_thread key thread s).1.thread_recipient_routes thread ≡ some key
unfolding bind_thread save set_route
route-bind_thread key thread s =
    let loops = released_store key thread s in
    let (b, s') = get_binding key loops in
    let bound = set_binding key (bind_thread key thread s).0 s' in
    ap (λ (d : Dict String Pair). Dict.get d thread)
      (routes-leave_thread b.thread_id thread (set_route key thread bound)).0
    ∙ get-put_self bound.thread_recipient_routes thread key
