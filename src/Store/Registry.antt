-- ===== src/Store/Registry.antt =====
-- store.py: the lookups in `_bindings`.
use imcodex.Prelude.{
  String, Bool, Option, none, some, List, ◌==◌, string_eq, pair_eq, option_eq, find,
}
use imcodex.Dict
use imcodex.Dict.{values}
use imcodex.Models.{Pair, ConversationBinding, new_binding}
use imcodex.Store.State.{Store}

-- `self._bindings[key] = binding`, and every later change of that binding in place
unfoldable pub set_binding : Pair → ConversationBinding → Store → Store
set_binding key binding s = record s { bindings = Dict.put s.bindings key binding }

-- A missing binding is created.
unfoldable pub get_binding : Pair → Store → ConversationBinding × Store
unfolding set_binding
get_binding key s = elim (Dict.get s.bindings key) [
  | none ↦ (new_binding key, set_binding key (new_binding key) s)
  | some binding ↦ (binding, s)
]

unfoldable pub iter_bindings : Store → List ConversationBinding
iter_bindings s = values s.bindings

-- `binding.thread_id == thread_id`
abbrev pub on_thread : String → ConversationBinding → Bool
on_thread thread binding = binding.thread_id == some thread

unfoldable pub find_binding_by_thread_id : String → Store → Option ConversationBinding
find_binding_by_thread_id thread s = find (on_thread thread) (values s.bindings)
