-- ===== src/Store/Calls/Exclusive.antt =====
-- The binding of a thread to one conversation at most, under every call.
use imcodex.Prelude.{
  ℕ, beq_refl, is_empty, String, ◌≡◌, refl, ap, sym, ◌∙◌, subst, Bool, Option, none, some, List, [],
  ◌∷◌, arith, pair_eq, string_eq, truthy, Bool-cases, inl, inr,
}
use imcodex.Dict
use imcodex.Dict.{Dict}
use imcodex.Dict.Laws.{get-put_self, put-get}
use imcodex.Models.{new_binding, Items, Pair, ConversationBinding}
use imcodex.Persistence.{Io, Outcome, returned, raised}
use imcodex.Store.State.{Store, save}
use imcodex.Store.Registry.{set_binding, get_binding}
use imcodex.Store.Bindings
use imcodex.Store.Bindings.{forget_thread, saved}
use imcodex.Store.Bindings.Exclusive.{
  IsExclusive, OnlyLeaves, OnlyLeaves-IsExclusive, set_binding-OnlyLeaves, bind_thread-IsExclusive,
  get-bind_thread,
}
use imcodex.Store.Deliveries
use imcodex.Store.Deliveries.{remove_terminal_deliveries_for_thread}
use imcodex.Store.Requests
use imcodex.Store.Journal
use imcodex.Store.Turns
use imcodex.Store.Inbound
use imcodex.Store.Inbound.{Inbound as InboundMessage}
use imcodex.Store.Calls.{Call, step, run}

-- A store with the same bindings.
same_bindings : {s t u : Store} → u.bindings ≡ t.bindings → OnlyLeaves s t → OnlyLeaves s u
same_bindings e l = record {
  before = λ j c t h k.
      l.before j c t (sym (ap (λ (d : Dict Pair ConversationBinding). Dict.get d j) e) ∙ h) k;
}

OnlyLeaves-refl : (s : Store) → OnlyLeaves s s
OnlyLeaves-refl s = record { before = λ j c t h k. (c, h, k) }

unchanged : (s t : Store) → t.bindings ≡ s.bindings → OnlyLeaves s t
unchanged s t e = same_bindings e (OnlyLeaves-refl s)

pub saved-OnlyLeaves :
    (key : Pair) (b : ConversationBinding) (s : Store)
    → ((t : String) → b.thread_id ≡ some t → (get_binding key s).0.thread_id ≡ some t)
    → OnlyLeaves s (saved key b (get_binding key s).1).1
unfolding save
saved-OnlyLeaves key b s old = same_bindings refl (set_binding-OnlyLeaves key b s old)

bindings-remove_terminal_deliveries_for_thread :
    (t : String) (p : Bool) (s : Store)
    → (remove_terminal_deliveries_for_thread t p s).bindings ≡ s.bindings
unfolding remove_terminal_deliveries_for_thread
bindings-remove_terminal_deliveries_for_thread t p s = refl

bindings-forget_thread : (t : Option String) (s : Store) → (forget_thread t s).bindings ≡ s.bindings
unfolding forget_thread remove_terminal_deliveries_for_thread
bindings-forget_thread none s = refl
bindings-forget_thread (some t) s = refl

bindings-set_binding :
    (key : Pair) (b : ConversationBinding) (s t : Store)
    → t.bindings ≡ s.bindings
    → (set_binding key b t).bindings ≡ (set_binding key b s).bindings
unfolding set_binding
bindings-set_binding key b s t e = ap (λ (d : Dict Pair ConversationBinding). Dict.put d key b) e

-- The binding that `get_binding` returns is the one in the store.
pub get-get_binding :
    (key : Pair) (s : Store)
    → Dict.get (get_binding key s).1.bindings key ≡ some (get_binding key s).0
unfolding get_binding set_binding
get-get_binding key s = ground (arith, get-put_self s.bindings key (new_binding key))

get_binding-OnlyLeaves : (key : Pair) (s : Store) → OnlyLeaves s (get_binding key s).1
unfolding set_binding
get_binding-OnlyLeaves key s =
    let (b, s') = get_binding key s in
    same_bindings (sym (put-get s'.bindings key b (get-get_binding key s)))
      (set_binding-OnlyLeaves key b s (λ t h. h))

-- The methods of one binding.
set_bootstrap_cwd-OnlyLeaves :
    (key : Pair) (cwd : String) (s : Store) → OnlyLeaves s (Bindings.set_bootstrap_cwd key cwd s).1
unfolding Bindings.set_bootstrap_cwd
set_bootstrap_cwd-OnlyLeaves key cwd s = saved-OnlyLeaves key _ s (λ t h. absurd (ground arith))

clear_thread_binding-OnlyLeaves :
    (key : Pair) (s : Store) → OnlyLeaves s (Bindings.clear_thread_binding key s).1
unfolding Bindings.clear_thread_binding save
clear_thread_binding-OnlyLeaves key s =
    let (b, s') = get_binding key s in
    same_bindings
      (bindings-set_binding key (record b { thread_id = none }) s' (forget_thread b.thread_id s')
        (bindings-forget_thread b.thread_id s'))
      (set_binding-OnlyLeaves key (record b { thread_id = none }) s (λ t h. absurd (ground arith)))

set_visibility_profile-OnlyLeaves :
    (key : Pair) (p : String) (s : Store) → OnlyLeaves s (Bindings.set_visibility_profile key p s).1
unfolding Bindings.set_visibility_profile
set_visibility_profile-OnlyLeaves key p s = saved-OnlyLeaves key _ s (λ t h. h)

set_commentary_visibility-OnlyLeaves :
    (key : Pair) (b : Bool) (s : Store)
    → OnlyLeaves s (Bindings.set_commentary_visibility key b s).1
unfolding Bindings.set_commentary_visibility
set_commentary_visibility-OnlyLeaves key b s = saved-OnlyLeaves key _ s (λ t h. h)

set_toolcall_visibility-OnlyLeaves :
    (key : Pair) (b : Bool) (s : Store) → OnlyLeaves s (Bindings.set_toolcall_visibility key b s).1
unfolding Bindings.set_toolcall_visibility
set_toolcall_visibility-OnlyLeaves key b s = saved-OnlyLeaves key _ s (λ t h. h)

set_system_visibility-OnlyLeaves :
    (key : Pair) (b : Bool) (s : Store) → OnlyLeaves s (Bindings.set_system_visibility key b s).1
unfolding Bindings.set_system_visibility
set_system_visibility-OnlyLeaves key b s = saved-OnlyLeaves key _ s (λ t h. h)

current_cwd-OnlyLeaves : (key : Pair) (s : Store) → OnlyLeaves s (Bindings.current_cwd key s).1
unfolding Bindings.current_cwd
current_cwd-OnlyLeaves key s = get_binding-OnlyLeaves key s

note_inbound_message-OnlyLeaves :
    (key : Pair) (m : String) (u : Option String) (now : ℕ) (s : Store)
    → OnlyLeaves s (Inbound.note_inbound_message key m u now s)
unfolding Inbound.note_inbound_message
note_inbound_message-OnlyLeaves key m u now s = set_binding-OnlyLeaves key _ s (λ t h. h)

record-OnlyLeaves :
    (m : InboundMessage) (r : Option Items) (now : ℕ) (s : Store)
    → OnlyLeaves s (Inbound.record_inbound_message_processed m r now s)
unfolding Inbound.record_inbound_message_processed
record-OnlyLeaves m r now s = elim (Bool-cases (is_empty m.message_id)) [
  | inl e ↦ rw e (same_bindings refl (get_binding-OnlyLeaves m.conversation s))
  | inr e ↦ rw e (set_binding-OnlyLeaves m.conversation _ s (λ t h. h))
]

get_binding_there :
    (key : Pair) (b : ConversationBinding) (s : Store)
    → Dict.get s.bindings key ≡ some b
    → get_binding key s ≡ (b, s)
unfolding get_binding
get_binding_there key b s h = rw (h, get_binding)

-- A binding in the store is changed, and stays on its thread.
change-OnlyLeaves :
    (key : Pair) (b old : ConversationBinding) (s : Store)
    → Dict.get s.bindings key ≡ some old
    → b.thread_id ≡ old.thread_id
    → OnlyLeaves s (set_binding key b s)
change-OnlyLeaves key b old s h e =
    let there = get_binding_there key old s h in
    subst (λ (r : ConversationBinding × Store). OnlyLeaves s (set_binding key b r.1)) there
      (set_binding-OnlyLeaves key b s
        (λ t k. ap (λ (r : ConversationBinding × Store). r.0.thread_id) there ∙ (sym e ∙ k)))

get-bind_thread_self :
    (key : Pair) (thread : String) (s : Store)
    → Dict.get (Bindings.bind_thread key thread s).1.bindings key
      ≡ some (Bindings.bind_thread key thread s).0
get-bind_thread_self key thread s = rw (get-bind_thread key thread s key, beq_refl {A = Pair} key)

bind_thread_with_cwd-IsExclusive :
    (key : Pair) (thread : String) (cwd : Option String) (s : Store)
    → IsExclusive s
    → IsExclusive (Bindings.bind_thread_with_cwd key thread cwd s).1
unfolding Bindings.bind_thread_with_cwd save
bind_thread_with_cwd-IsExclusive key thread cwd s x =
    let (b, s') = Bindings.bind_thread key thread s in
    let y = bind_thread-IsExclusive key thread s x in
    elim (Bool-cases (truthy cwd)) [
      | inl e ↦ rw e (
          OnlyLeaves-IsExclusive
            (same_bindings refl (
              change-OnlyLeaves key (record b { bootstrap_cwd = cwd }) b s'
                (get-bind_thread_self key thread s) refl))
            y)
      | inr e ↦ rw e y
    ]

-- The turns, the deliveries, the requests and the journal leave the bindings alone.
bindings-watch :
    (t u : String) (now : ℕ) (s : Store)
    → (Deliveries.watch_terminal_delivery t u now s).bindings ≡ s.bindings
unfolding Deliveries.watch_terminal_delivery save
bindings-watch t u now s = ground arith

bindings-write_now : (io : Io) (s : Store) → (Inbound.write_now io s).0.bindings ≡ s.bindings
unfolding Inbound.write_now
bindings-write_now io s = refl

bindings-settle :
    (c : Pair × String) (r : Store × Outcome) → (Inbound.settle c r).0.bindings ≡ r.0.bindings
unfolding Inbound.settle
bindings-settle c (s, returned) = refl
bindings-settle c (s, raised) = refl

bindings-commit :
    (m : InboundMessage) (r : Option Items) (now : ℕ) (io : Io) (s : Store)
    → (Inbound.commit_inbound_message_processed m r now io s).0.bindings
      ≡ (Inbound.record_inbound_message_processed m r now s).bindings
unfolding Inbound.commit_inbound_message_processed
bindings-commit m r now io s = ground arith

commit-OnlyLeaves :
    (m : InboundMessage) (r : Option Items) (now : ℕ) (io : Io) (s : Store)
    → OnlyLeaves s (Inbound.commit_inbound_message_processed m r now io s).0
commit-OnlyLeaves m r now io s =
    same_bindings (bindings-commit m r now io s) (record-OnlyLeaves m r now s)

-- One call keeps every thread with one conversation at most.
pub step-IsExclusive : (call : Call) (s : Store) → IsExclusive s → IsExclusive (step call s)
unfolding step save Deliveries.watch_terminal_delivery Deliveries.stage_terminal_delivery
    Deliveries.update_terminal_delivery_message Deliveries.complete_terminal_delivery
    Deliveries.discard_terminal_watch Deliveries.retry_terminal_delivery_persistence
    Deliveries.retry_state_persistence Deliveries.prune_standalone_delivery_acknowledgements
    Bindings.note_thread_snapshot Requests.upsert_pending_request Requests.remove_pending_request
    Requests.remove_pending_requests_for_turn Requests.invalidate_pending_requests_for_connection
    Journal.append_native_appserver_event Journal.update_native_appserver_event
    Turns.note_active_turn Turns.complete_turn Turns.clear_active_turn Turns.suppress_turn
    Turns.update_thread_snapshot Turns.set_thread_browser_context Turns.get_thread_browser_context
    Turns.clear_thread_browser_context Inbound.ensure_inbound_message_durable
    Inbound.should_drop_duplicate_inbound_message Inbound.mark_inbound_message_processed
step-IsExclusive (Call.get_binding k) s x = OnlyLeaves-IsExclusive (get_binding-OnlyLeaves k s) x
step-IsExclusive (Call.set_bootstrap_cwd k cwd) s x =
    OnlyLeaves-IsExclusive (set_bootstrap_cwd-OnlyLeaves k cwd s) x
step-IsExclusive (Call.bind_thread k t) s x = bind_thread-IsExclusive k t s x
step-IsExclusive (Call.bind_thread_with_cwd k t cwd) s x =
    bind_thread_with_cwd-IsExclusive k t cwd s x
step-IsExclusive (Call.clear_thread_binding k) s x =
    OnlyLeaves-IsExclusive (clear_thread_binding-OnlyLeaves k s) x
step-IsExclusive (Call.set_visibility_profile k p) s x =
    OnlyLeaves-IsExclusive (set_visibility_profile-OnlyLeaves k p s) x
step-IsExclusive (Call.set_commentary_visibility k b) s x =
    OnlyLeaves-IsExclusive (set_commentary_visibility-OnlyLeaves k b s) x
step-IsExclusive (Call.set_toolcall_visibility k b) s x =
    OnlyLeaves-IsExclusive (set_toolcall_visibility-OnlyLeaves k b s) x
step-IsExclusive (Call.set_system_visibility k b) s x =
    OnlyLeaves-IsExclusive (set_system_visibility-OnlyLeaves k b s) x
step-IsExclusive (Call.current_cwd k) s x = OnlyLeaves-IsExclusive (current_cwd-OnlyLeaves k s) x
step-IsExclusive (Call.note_inbound_message k m u now) s x =
    OnlyLeaves-IsExclusive (note_inbound_message-OnlyLeaves k m u now s) x
step-IsExclusive (Call.mark_inbound_message_processed m r now) s x =
    OnlyLeaves-IsExclusive (same_bindings refl (record-OnlyLeaves m r now s)) x
step-IsExclusive (Call.commit_inbound_message_processed m r now io) s x =
    OnlyLeaves-IsExclusive (commit-OnlyLeaves m r now io s) x
step-IsExclusive call s x = OnlyLeaves-IsExclusive (unchanged s (step call s) (ground arith)) x

-- Whatever methods are called in whatever order, with whatever arguments, no two conversations are
-- ever bound to one native thread, if none were at the start.
pub run-IsExclusive : (calls : List Call) (s : Store) → IsExclusive s → IsExclusive (run calls s)
unfolding run
run-IsExclusive [] s x = x
run-IsExclusive (call ∷ calls) s x = run-IsExclusive calls (step call s) (step-IsExclusive call s x)
