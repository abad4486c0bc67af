-- ===== src/Store/Bindings.antt =====
-- store.py: which conversation is bound to which native thread, and what each binding shows. Each
-- method returns the binding and the new store. The proofs are in the modules below.
pub mod Exclusive
pub mod Routing
pub mod Leaving
pub mod Requests
mod Tests
use imcodex.Prelude.{
  ℕ, String, Bool, true, false, Option, none, some, ◌==◌, ◌&&◌, not, string_eq, pair_eq, option_eq,
  if◌then◌else◌, is_empty, truthy, List, [], ◌∷◌, keep,
}
use imcodex.Text.{strip}
use imcodex.Dict
use imcodex.Dict.{Dict, map_values, map_items}
use imcodex.Models.{Pair, ConversationBinding, PendingNativeRequestRoute, NativeThreadSnapshot}
use imcodex.Store.State.{Store, save}
use imcodex.Store.Registry.{set_binding, get_binding, on_thread}
use imcodex.Store.Deliveries.{remove_terminal_deliveries_for_thread}

-- The common tail of the methods: the binding is changed in place, and the state is saved.
abbrev pub saved : Pair → ConversationBinding → Store → ConversationBinding × Store
saved key binding s = (binding, save (set_binding key binding s))

unfoldable pub set_bootstrap_cwd : Pair → String → Store → ConversationBinding × Store
set_bootstrap_cwd key cwd s =
    let (binding, s') = get_binding key s in
    saved key (record binding { bootstrap_cwd = some cwd; thread_id = none }) s'

-- `bind_thread`, its first loop: no other binding keeps the thread.
unfoldable pub release : Pair → String → Pair → ConversationBinding → ConversationBinding
release key thread other binding =
    if not (other == key) && on_thread thread binding
    then record binding { thread_id = none }
    else binding

-- `bind_thread`, its second loop: requests that are pending on the thread follow it.
unfoldable pub reroute : Pair → String → PendingNativeRequestRoute → PendingNativeRequestRoute
reroute (channel, conversation) thread route =
    if route.thread_id == some thread
    then record route { channel_id = channel; conversation_id = conversation }
    else route

-- `bind_thread`, its last test: the deliveries of the thread that the binding leaves.
unfoldable pub leave_thread : Option String → String → Store → Store
leave_thread none thread s = s
leave_thread (some previous) thread s =
    if not (is_empty previous) && not (previous == thread)
    then remove_terminal_deliveries_for_thread previous true s
    else s

-- `bind_thread`, after its two loops
unfoldable pub released_store : Pair → String → Store → Store
released_store key thread s = record s {
  bindings = map_items (release key thread) s.bindings;
  pending_requests = map_values (reroute key thread) s.pending_requests;
}

-- `self._thread_recipient_routes[thread_id] = key`
unfoldable pub set_route : Pair → String → Store → Store
set_route key thread s = record s {
  thread_recipient_routes = Dict.put s.thread_recipient_routes thread key;
}

unfoldable pub bind_thread : Pair → String → Store → ConversationBinding × Store
unfolding leave_thread released_store set_route
bind_thread key thread s =
    let (binding, s') = get_binding key (released_store key thread s) in
    let bound = record binding { thread_id = some thread } in
    (
      bound,
      save
          (leave_thread binding.thread_id thread (set_route key thread (set_binding key bound s'))),
    )

unfoldable pub bind_thread_with_cwd :
    Pair → String → Option String → Store → ConversationBinding × Store
bind_thread_with_cwd key thread cwd s =
    let (binding, s') = bind_thread key thread s in
    if truthy cwd then saved key (record binding { bootstrap_cwd = cwd }) s' else (binding, s')

-- `clear_thread_binding`, its test: what the store knows of the thread is dropped.
unfoldable pub forget_thread : Option String → Store → Store
forget_thread none s = s
forget_thread (some thread) s =
    let removed = remove_terminal_deliveries_for_thread thread true s in
    record removed {
      active_turns = Dict.pop removed.active_turns thread;
      suppressed_turns = keep (λ turn. not (turn.0 == thread)) removed.suppressed_turns;
    }

unfoldable pub clear_thread_binding : Pair → Store → ConversationBinding × Store
unfolding forget_thread
clear_thread_binding key s =
    let (binding, s') = get_binding key s in
    saved key (record binding { thread_id = none }) (forget_thread binding.thread_id s')

-- The profile's switches for commentary, tool calls and system messages.
unfoldable pub profile_switches : String → Bool × Bool × Bool
profile_switches profile =
    if profile == "minimal"
    then (false, false, false)
    else if profile == "verbose"
    then (true, true, true)
    else (true, false, false)

unfoldable pub set_visibility_profile : Pair → String → Store → ConversationBinding × Store
unfolding profile_switches
set_visibility_profile key profile s =
    let (binding, s') = get_binding key s in
    let switches = profile_switches profile in
    saved key
      (record binding {
        visibility_profile = profile;
        show_commentary = switches.0;
        show_toolcalls = switches.1;
        show_system = switches.2;
      })
      s'

unfoldable pub set_commentary_visibility : Pair → Bool → Store → ConversationBinding × Store
set_commentary_visibility key enabled s =
    let (binding, s') = get_binding key s in
    saved key (record binding { show_commentary = enabled }) s'

unfoldable pub set_toolcall_visibility : Pair → Bool → Store → ConversationBinding × Store
set_toolcall_visibility key enabled s =
    let (binding, s') = get_binding key s in
    saved key (record binding { show_toolcalls = enabled }) s'

unfoldable pub set_system_visibility : Pair → Bool → Store → ConversationBinding × Store
set_system_visibility key enabled s =
    let (binding, s') = get_binding key s in saved key (record binding { show_system = enabled }) s'

-- The last IM recipient that selected the thread.
unfoldable pub find_recipient_route_by_thread_id : String → Store → Option Pair
find_recipient_route_by_thread_id thread s = Dict.get s.thread_recipient_routes (strip thread)

unfoldable pub note_thread_snapshot : NativeThreadSnapshot → Store → Store
note_thread_snapshot snapshot s = record s {
  thread_snapshots = Dict.put s.thread_snapshots snapshot.thread_id snapshot;
}

unfoldable pub get_thread_snapshot : String → Store → Option NativeThreadSnapshot
get_thread_snapshot thread s = Dict.get s.thread_snapshots thread

-- `if snapshot and snapshot.cwd`
abbrev snapshot_cwd : Option NativeThreadSnapshot → Option String → Option String
snapshot_cwd none otherwise = otherwise
snapshot_cwd (some snapshot) otherwise =
    if is_empty snapshot.cwd then otherwise else some snapshot.cwd

-- The result of `current_cwd`; `get_binding` has created a missing binding.
abbrev cwd_of : Option String → Option String → Store → Option String
cwd_of none bootstrap s = bootstrap
cwd_of (some thread) bootstrap s =
    if is_empty thread then bootstrap else snapshot_cwd (get_thread_snapshot thread s) bootstrap

unfoldable pub current_cwd : Pair → Store → Option String × Store
unfolding get_thread_snapshot
current_cwd key s =
    let (binding, s') = get_binding key s in (cwd_of binding.thread_id binding.bootstrap_cwd s', s')
