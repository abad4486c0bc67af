-- ===== src/Bridge/Identity/Tests.antt =====
-- One answer, seen live and in the history, under functions that stand for the libraries'.
use Prim.Native.Char.{Char, code}
use text.Mathlib.TextEquality.{Char-path}
use imcodex.Prelude.{
  ℕ, String, ◌≡◌, refl, true, false, some, List, [], ◌∷◌, contains, string_eq, arith, All,
}
use imcodex.Text.{strip, lstrip, rstrip}
use imcodex.Models.{Fields, end, field, str, obj, arr, nil, cons, get_field, as_dict}
use imcodex.Bridge.Delivery.Payload.{text_field}
use imcodex.Bridge.Identity.{
  TerminalDeliveryIdentity, Event, item_values, event_terminal_identity, recovered_turn_identities,
  recovered_turn_final_items, is_final_answer, item_identity,
}
use imcodex.Bridge.Identity.Injective.{IsShort, hash_input-injective}
use imcodex.Bridge.Identity.Recovered.{IsAnswer, ids, live-recovered}

-- One number for each character, and a hash that is not one
abbrev codes : String → List ℕ
codes String.[] = []
codes (String.◌∷◌ c s) = code c ∷ codes s

string_cons : (c d : Char) (s t : String) → c ≡ d → s ≡ t → String.◌∷◌ c s ≡ String.◌∷◌ d t
string_cons c d s t h k = cc (h, k)

codes-injective : (s t : String) → codes s ≡ codes t → s ≡ t
codes-injective String.[] String.[] e = refl
codes-injective String.[] (String.◌∷◌ d t) e = absurd (ground (arith, e))
codes-injective (String.◌∷◌ c s) String.[] e = absurd (ground (arith, e))
codes-injective (String.◌∷◌ c s) (String.◌∷◌ d t) e =
    string_cons c d s t (Char-path c d (ground (arith, e)))
      (codes-injective s t (ground (arith, e)))

short : All (IsShort codes) (item_values "t1" "u1" "i1")
short = (omega arith, (omega arith, (omega arith, (omega arith, tt))))

hash_input-injective_example : item_values "t1" "u1" "i1" ≡ item_values "t1" "u1" "i1"
hash_input-injective_example =
    hash_input-injective codes codes-injective (item_values "t1" "u1" "i1")
      (item_values "t1" "u1" "i1") short short refl

abbrev answer : Fields
answer = field "id" (str "i1") (
    field "type" (str "agentMessage")
      (field "phase" (str "final_answer") (field "text" (str "done") end)))

abbrev turn : Fields
turn = field "id" (str "u1") (field "items" (arr (cons (obj answer) nil)) end)

abbrev event : Event
event = record {
  kind = "item_completed";
  thread_id = "t1";
  turn_id = "u1";
  payload = field "item" (obj answer) (field "itemId" (str "other") end);
}

abbrev digest : List ℕ → String
digest bytes = "#"

abbrev dumps : Fields → String
dumps item = ""

program : Unit {0}
unfolding text_field get_field as_dict recovered_turn_final_items strip lstrip rstrip
    is_final_answer
program = tt

event-IsAnswer : IsAnswer codes digest dumps event answer
unfolding program
event-IsAnswer = record {
  completed = refl;
  not_turn = refl;
  thread = refl;
  turn = refl;
  item_there = refl;
  final = refl;
}

live-recovered_example :
    (live : TerminalDeliveryIdentity) × (event_terminal_identity codes digest dumps event
      ≡ some live)
    × (contains (ids (item_identity codes digest dumps "t1" "u1" answer ∷ [])) live.delivery_id
        ≡ true)
unfolding program recovered_turn_identities
live-recovered_example =
    live-recovered codes digest dumps event answer turn [] [] false
      (item_identity codes digest dumps "t1" "u1" answer ∷ []) event-IsAnswer refl refl refl refl
