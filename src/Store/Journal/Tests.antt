-- ===== src/Store/Journal/Tests.antt =====
-- A journal of two entries that receives a third.
use imcodex.Prelude.{
  ◌-◌, String, ◌≡◌, refl, true, not, ◌&&◌, none, some, arith, map, ltb, leb, length, is_none,
}
use imcodex.Models.{end, NativeAppServerJournalEntry}
use imcodex.Store.State.{Store, new_store}
use imcodex.Store.Journal.{
  append_native_appserver_event, update_native_appserver_event, update_last,
}
use imcodex.Store.Journal.Order.{IsJournal, updated, append-IsJournal, update-native}

abbrev event : String → NativeAppServerJournalEntry
event method = record {
  sequence = 0;
  seen_at = 5;
  direction = "server";
  method = method;
  category = "turn";
  kind = "turn";
  summary = end;
  thread_id = "t1";
  turn_id = "u1";
  item_id = "";
  request_id = none;
  outcome = none;
  note = none;
}

abbrev empty : Store
empty = new_store true true 2

abbrev two : Store
two =
    (append_native_appserver_event (event "turn/completed")
      (append_native_appserver_event (event "turn/started") empty).1).1

abbrev three : Store
three = (append_native_appserver_event (event "error") two).1

empty-IsJournal : IsJournal empty
empty-IsJournal = record {
  positive = omega arith;
  bounded = omega arith;
  counted = omega arith;
  ends = tt;
}

two-IsJournal : IsJournal two
two-IsJournal =
    append-IsJournal (event "turn/completed")
      (append_native_appserver_event (event "turn/started") empty).1
      (append-IsJournal (event "turn/started") empty empty-IsJournal)

-- The first entry has left the journal, and its number is not found.
dropped : (update_native_appserver_event 1 (some "rendered") none three).0 ≡ none
unfolding append_native_appserver_event update_native_appserver_event update_last
dropped = refl

append-IsJournal_example : IsJournal three
append-IsJournal_example = append-IsJournal (event "error") two two-IsJournal

update-native_example :
    ((update_native_appserver_event 2 (some "rendered") none two).1.journal
      ≡ map (updated 2 (some "rendered") none) two.journal)
    × (is_none (update_native_appserver_event 2 (some "rendered") none two).0
        ≡ not (ltb (two.journal_sequence - length two.journal) 2 && leb 2 two.journal_sequence))
update-native_example = update-native 2 (some "rendered") none two two-IsJournal
