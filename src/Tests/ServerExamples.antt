-- ===== src/Tests/ServerExamples.antt =====
-- The theorems on passes over the queued transactions, at a server with nothing stored and two
-- transactions in the queue.
use mile_explorer.Common.{ℕ, ◌≤◌, String, ◌≡◌, refl, subst, inr, none, [], arith}
use mile_explorer.Common.Lists.{All, length}
use mile_explorer.Common.Exec.{ok}
use mile_explorer.Json.Value.{str}
use mile_explorer.Db.Cursor
use mile_explorer.Db.Cursor.{get_data, sort, get, remove_id}
use mile_explorer.Db.Getters.{get_transaction_history_state}
use mile_explorer.Db.Table.{cursor, update, insert}
use mile_explorer.Db.Stream.{Pass, is_marker, transactions_rounds}
use mile_explorer.Db.Stream.Laws.{IsRow}
use mile_explorer.Db.Stream.Writes.{AreStored}
use mile_explorer.Db.Stream.Passes.{IsConsistent}
use mile_explorer.Db.Stream.Rounds.{IsQueue, transactions_rounds-IsConsistent}
use mile_explorer.Tests.Fixtures.{n, lib, db}
use mile_explorer.Tests.Server.{World, queued, queue, server, tables}

abbrev start : Pass World
start = record { world = record { rows = []; state = none }; prev_bid = 0; last_count = 0 }

abbrev six : IsRow (queued 6 "k:6:1") 6 "k:6:1"
six = record {
  number = n 6;
  name = str "k:6:1";
  type = str "Transfer";
  has_number = refl;
  number_is = refl;
  has_name = refl;
  name_is = refl;
  has_type = refl;
}

abbrev seven : IsRow (queued 7 "k:7:1") 7 "k:7:1"
seven = record {
  number = n 7;
  name = str "k:7:1";
  type = str "Transfer";
  has_number = refl;
  number_is = refl;
  has_name = refl;
  name_is = refl;
  has_type = refl;
}

empty : IsConsistent tables 0 start.world
empty = record {
  numbered = record {
    below = λ id row has. absurd (ground arith);
    once = λ id id' row row' k has has' serial serial'. absurd (ground arith);
    each = λ k less. absurd (omega arith);
  };
  counted = inr (refl, refl);
}

two_rows : IsQueue tables 2
unfolding get_data sort cursor
two_rows = record {
  readable = λ w w' items got.
      let same : queue ≡ items = ground arith in
      subst (λ j. All (λ item. (bid : ℕ) × (trxid : String) × IsRow item bid trxid) (lib.items j))
        same ((6, "k:6:1", six), ((7, "k:7:1", seven), tt));
  few = λ w w' items got.
      let same : queue ≡ items = ground arith in
      subst (λ j. length (lib.items j) ≤ 2) same (omega arith);
}

transactions_rounds-IsConsistent_example :
    (m : ℕ) × (s' : Pass World) × (transactions_rounds server 3 (λ i w. w) db start ≡ (ok tt, s'))
    × IsConsistent tables m s'.world
    × (m ≤ 6)
    × AreStored tables start.world s'.world
transactions_rounds-IsConsistent_example =
    transactions_rounds-IsConsistent tables 3 2 0 (λ i w. w) start two_rows
      (λ i w. record { rows = λ id. refl; count = refl }) (omega arith) empty

-- What three rounds leave: the rows of the two transactions, and the count.
two_numbered : (transactions_rounds server 3 (λ i w. w) db start).1.last_count ≡ 2
unfolding transactions_rounds get_data sort cursor get_transaction_history_state
    mile_explorer.Db.Cursor.field get update is_marker insert remove_id
two_numbered = refl
