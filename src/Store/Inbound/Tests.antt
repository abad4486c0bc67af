-- ===== src/Store/Inbound/Tests.antt =====
-- Messages that a platform delivers twice.
use imcodex.Prelude.{◌-◌, String, ◌≡◌, refl, true, none, some, [], ◌∷◌, arith, leb}
use imcodex.Models.{nil, cons, str, Items, Pair}
use imcodex.Dict
use imcodex.Store.State.{Store, new_store}
use imcodex.Store.Inbound.{
  Inbound, inbound_dedup_window, record_inbound_message_processed,
  should_drop_duplicate_inbound_message,
}
use imcodex.Store.Inbound.Dedup.{drop-window}
use imcodex.Store.Inbound.Memory.{record_all, drop-record_all}

abbrev alice : Pair
alice = ("qq", "alice")

abbrev empty : Store
empty = new_store true true 50

abbrev numbered : String → Inbound
numbered id = record {
  conversation = alice;
  user_id = "alice";
  message_id = id;
  text_fingerprint = "hello";
}

abbrev reply : Items
reply = cons (str "hello back") nil

-- Two messages follow the first one.
drop-record_all_example :
    (should_drop_duplicate_inbound_message (numbered "m1") 99 (
      record_all
        ((numbered "m2", none) ∷ (numbered "m3", some reply) ∷ [])
        20
        (record_inbound_message_processed (numbered "m1") none 20 empty))).0
    ≡ true
drop-record_all_example =
    drop-record_all (numbered "m1") none ((numbered "m2", none) ∷ (numbered "m3", some reply) ∷ [])
      20 99 empty refl (refl, refl, (refl, refl, tt)) (omega arith)

drop-window_example :
    (should_drop_duplicate_inbound_message
      (numbered "")
      1500
      (record_inbound_message_processed (numbered "") none 1000 empty)).0
    ≡ leb (1500 - 1000) inbound_dedup_window
unfolding Dict.get
drop-window_example = drop-window (numbered "") none 1000 1500 empty refl tt
