-- ===== src/Store/Bindings/Exclusive.antt =====
-- A native thread is bound to one conversation at most.
use imcodex.Prelude.{
  String, ◌≡◌, refl, Bool, true, false, Option, none, some, arith, ◌==◌, ◌&&◌, not, string_eq,
  pair_eq, ap, ◌∙◌, sym, ◌⊎◌, subst, option_eq, pair_beq_iff, option_beq_iff, if◌then◌else◌,
  Bool-cases, inl, inr,
}
use mathlib.Core.Option
use imcodex.Dict
use imcodex.Dict.{Dict, values}
use imcodex.Dict.Laws.{get-put, get-map_items}
use imcodex.Models.{Pair, ConversationBinding, new_binding}
use imcodex.Store.State.{Store, save}
use imcodex.Store.Registry.{set_binding, get_binding, on_thread}
use imcodex.Store.Deliveries.{remove_terminal_deliveries_for_thread}
use imcodex.Store.Bindings.{release, released_store, set_route, leave_thread, bind_thread}

-- What `get_binding` returns: the binding that is there, or a new one.
abbrev pub binding_or_new : Pair → Option ConversationBinding → ConversationBinding
binding_or_new key none = new_binding key
binding_or_new key (some binding) = binding

pub get_binding-value :
    (key : Pair) (s : Store) → (get_binding key s).0 ≡ binding_or_new key (Dict.get s.bindings key)
unfolding get_binding
get_binding-value key s = ground arith

-- Every method that changes one binding reads afterwards as this.
pub get-set-get_binding :
    (key : Pair) (b : ConversationBinding) (s : Store) (j : Pair)
    → Dict.get (set_binding key b (get_binding key s).1).bindings j
      ≡ (if key == j then some b else Dict.get s.bindings j)
unfolding get_binding set_binding
get-set-get_binding key b s j = ground (
  arith,
  get-put s.bindings key j b,
  get-put s.bindings key j (new_binding key),
  get-put (Dict.put s.bindings key (new_binding key)) key j b,
)

bindings-leave_thread :
    (previous : Option String) (thread : String) (s : Store)
    → (leave_thread previous thread s).bindings ≡ s.bindings
unfolding leave_thread remove_terminal_deliveries_for_thread
bindings-leave_thread previous thread s = ground arith

-- The bindings after `bind_thread`.
pub get-bind_thread :
    (key : Pair) (thread : String) (s : Store) (j : Pair)
    → Dict.get (bind_thread key thread s).1.bindings j ≡ (
        if key == j
        then some (bind_thread key thread s).0
        else Option.map (release key thread j) (Dict.get s.bindings j))
unfolding bind_thread save
get-bind_thread key thread s j =
    let loops = released_store key thread s in
    let b = (get_binding key loops).0 in
    let bound = (bind_thread key thread s).0 in
    let s' = set_binding key bound (get_binding key loops).1 in
    ap (λ (d : Dict Pair ConversationBinding). Dict.get d j)
      (bindings-leave_thread b.thread_id thread (set_route key thread s'))
    ∙ get-set-get_binding key bound loops j
    ∙ ap (λ (o : Option ConversationBinding). if key == j then some bound else o)
        (get-map_items (release key thread) s.bindings j)

-- No two conversations are bound to one thread.
pub record IsExclusive (s : Store) : Type 0 where
  pub at :
      (j k : Pair) (b c : ConversationBinding) (t : String)
      → Dict.get s.bindings j ≡ some b
      → Dict.get s.bindings k ≡ some c
      → b.thread_id ≡ some t
      → c.thread_id ≡ some t
      → j ≡ k

-- A binding that `bind_thread` has released is not on the thread, unless it is the one of `key`.
released-on :
    (key : Pair) (thread : String) (j : Pair) (o : Option ConversationBinding)
    (c : ConversationBinding) (t : String)
    → Option.map (release key thread j) o ≡ some c
    → c.thread_id ≡ some t
    → (b : ConversationBinding) × (o ≡ some b) × (b.thread_id ≡ some t) × ((t ≡ thread) → key ≡ j)
unfolding release
released-on key thread j none c t h k = absurd (ground arith)
released-on key thread j (some b) c t h k =
    elim (Bool-cases (not (j == key) && on_thread thread b)) [
      | inl gone ↦ absurd (ground arith)
      | inr kept ↦ (
        b,
        refl,
        ground arith,
        λ e. ground (arith, pair_beq_iff j key, option_beq_iff b.thread_id (some thread)),
      )
    ]

pub thread-bind_thread :
    (key : Pair) (thread : String) (s : Store)
    → (bind_thread key thread s).0.thread_id ≡ some thread
unfolding bind_thread
thread-bind_thread key thread s = refl

-- What a binding after `bind_thread` was before: the bound one, or one that kept its thread.
after_bind :
    (key : Pair) (thread : String) (s : Store) (j : Pair) (c : ConversationBinding) (t : String)
    → Dict.get (bind_thread key thread s).1.bindings j ≡ some c
    → c.thread_id ≡ some t
    → ((key ≡ j) × (t ≡ thread))
      ⊎ ((b : ConversationBinding) × (Dict.get s.bindings j ≡ some b)
          × (b.thread_id ≡ some t)
          × ((t ≡ thread) → key ≡ j))
after_bind key thread s j c t h k = go (key == j) refl (sym (get-bind_thread key thread s j) ∙ h)
  where
    go :
        (q : Bool)
        → (key == j) ≡ q
        → (if q
            then some (bind_thread key thread s).0
            else Option.map (release key thread j) (Dict.get s.bindings j))
          ≡ some c
        → ((key ≡ j) × (t ≡ thread))
          ⊎ ((b : ConversationBinding) × (Dict.get s.bindings j ≡ some b)
              × (b.thread_id ≡ some t)
              × ((t ≡ thread) → key ≡ j))
    go true e r = inl ((pair_beq_iff key j).0 e, cc (thread-bind_thread key thread s, r))
    go false e r = inr (released-on key thread j (Dict.get s.bindings j) c t r k)

pub bind_thread-IsExclusive :
    (key : Pair) (thread : String) (s : Store)
    → IsExclusive s
    → IsExclusive (bind_thread key thread s).1
bind_thread-IsExclusive key thread s x = record {
  at = λ j k b c t hj hk tj tk.
      join j k t (after_bind key thread s j b t hj tj) (after_bind key thread s k c t hk tk);
}
  where
    Before : Pair → String → Type 0
    Before j t =
        ((key ≡ j) × (t ≡ thread))
        ⊎ ((b : ConversationBinding) × (Dict.get s.bindings j ≡ some b)
            × (b.thread_id ≡ some t)
            × ((t ≡ thread) → key ≡ j))

    join : (j k : Pair) (t : String) → Before j t → Before k t → j ≡ k
    join j k t (inl p) (inl q) = sym p.0 ∙ q.0
    join j k t (inl p) (inr q) = sym p.0 ∙ q.3 p.1
    join j k t (inr p) (inl q) = sym (p.3 q.1) ∙ q.0
    join j k t (inr p) (inr q) = x.at j k p.0 q.0 t p.1 q.1 p.2 q.2

-- Every binding that is on a thread afterwards was on it before.
pub record OnlyLeaves (s s' : Store) : Type 0 where
  pub before :
      (j : Pair) (c : ConversationBinding) (t : String)
      → Dict.get s'.bindings j ≡ some c
      → c.thread_id ≡ some t
      → (b : ConversationBinding) × (Dict.get s.bindings j ≡ some b) × (b.thread_id ≡ some t)

pub OnlyLeaves-IsExclusive : {s s' : Store} → OnlyLeaves s s' → IsExclusive s → IsExclusive s'
OnlyLeaves-IsExclusive l x = record {
  at = λ j k b c t hj hk tj tk.
      let p = l.before j b t hj tj in
      let q = l.before k c t hk tk in x.at j k p.0 q.0 t p.1 q.1 p.2 q.2;
}

on_thread_before :
    (key : Pair) (o : Option ConversationBinding) (t : String)
    → (binding_or_new key o).thread_id ≡ some t
    → (b : ConversationBinding) × (o ≡ some b) × (b.thread_id ≡ some t)
on_thread_before key none t h = absurd (ground arith)
on_thread_before key (some b) t h = (b, refl, h)

-- A change of one binding that brings it to no new thread.
pub set_binding-OnlyLeaves :
    (key : Pair) (b : ConversationBinding) (s : Store)
    → ((t : String) → b.thread_id ≡ some t → (get_binding key s).0.thread_id ≡ some t)
    → OnlyLeaves s (set_binding key b (get_binding key s).1)
set_binding-OnlyLeaves key b s old = record {
  before = λ j c t h k. go j c t k (key == j) refl (sym (get-set-get_binding key b s j) ∙ h);
}
  where
    go :
        (j : Pair) (c : ConversationBinding) (t : String)
        → c.thread_id ≡ some t
        → (q : Bool) → (key == j) ≡ q
        → (if q then some b else Dict.get s.bindings j) ≡ some c
        → (b' : ConversationBinding) × (Dict.get s.bindings j ≡ some b') × (b'.thread_id ≡ some t)
    go j c t k false e r = (c, r, k)
    go j c t k true e r =
        subst
          (λ (i : Pair).
            (b' : ConversationBinding) × (Dict.get s.bindings i ≡ some b')
            × (b'.thread_id ≡ some t))
          ((pair_beq_iff key j).0 e)
          (on_thread_before key (Dict.get s.bindings key) t (
            subst (λ (x : ConversationBinding). x.thread_id ≡ some t) (get_binding-value key s)
              (old t (cc (r, k)))))
