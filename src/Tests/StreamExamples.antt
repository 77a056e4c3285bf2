-- ===== src/Tests/StreamExamples.antt =====
-- The theorems on the processing of transactions at concrete rows.
use mile_explorer.Common.{ℕ, ◌<◌, ◌^◌, String, ◌≡◌, refl, ◌⊎◌, true, false, arith, ltb, ◌&&◌}
use mile_explorer.Common.Exec.{ok}
use mile_explorer.Common.Float.{as_double}
use mile_explorer.Common.Text.{to_string}
use mile_explorer.Json.Value.{Value, nil, str, obj, field, end}
use mile_explorer.Db.Cursor.{get_data, get_number, get, max, remove_id}
use mile_explorer.Db.Cursor
use mile_explorer.Db.Table.{cursor}
use mile_explorer.Db.Transactions.{
  find_public_keys, public_key_rows, text_number, short_description, replace_keys, stream_row,
}
use mile_explorer.Db.Blocks.{get_prev_bid}
use mile_explorer.Db.Stream.{Pass, is_gap, process_item, take_off}
use mile_explorer.Db.Stream.Laws.{IsRow, marks, Numbers, process_item_round, process_item_after_gap}
use mile_explorer.Tests.Fixtures.{n, lib, answering, db}

-- What the examples compute with.
database : Unit {0}
unfolding to_string get_data get_number as_double get Cursor.field max cursor get_prev_bid
    find_public_keys stream_row public_key_rows text_number short_description replace_keys
database = tt

abbrev queued : ℕ → String → Value
queued bid id =
    obj (
      field "block-id" (n bid)
        (field "id" (str id) (field "transaction-type" (str "Transfer") end)))

abbrev is_row : (bid : ℕ) (id : String) → bid < 2 ^ 64 → IsRow (queued bid id) bid id
is_row bid id h = record {
  number = n bid;
  name = str id;
  type = str "Transfer";
  has_number = refl;
  number_is = lib.uint_number bid h;
  has_name = refl;
  name_is = refl;
  has_type = refl;
}

abbrev pass : Pass ℕ
pass = record { world = 0; prev_bid = 5; last_count = 2 }

process_item_round_example :
    ((marks (str "Transfer") ≡ true)
      × (process_item (answering nil) db (queued 7 "k:7:1") pass
          ≡ (ok true, record { world = 1; prev_bid = 7; last_count = 2 })))
    ⊎ (((marks (str "Transfer") ≡ false)
          × ((ltb 0 5 && is_gap 7 5) ≡ true)
          × (process_item (answering nil) db (queued 7 "k:7:1") pass
              ≡ (ok false, record { world = 0; prev_bid = 7; last_count = 2 })))
        ⊎ ((marks (str "Transfer") ≡ false)
            × ((ltb 0 5 && is_gap 7 5) ≡ false)
            × ((process_item (answering nil) db (queued 7 "k:7:1") pass).0 ≡ ok true)
            × Numbers
                (answering nil)
                db
                "k:7:1"
                7
                pass
                (process_item (answering nil) db (queued 7 "k:7:1") pass).1))
unfolding take_off remove_id cursor
process_item_round_example =
    process_item_round (answering nil) db (queued 7 "k:7:1") 7 "k:7:1" pass
      (is_row 7 "k:7:1" (omega arith))

process_item_after_gap_example :
    (process_item
      (answering nil)
      db
      (queued 7 "k:7:1")
      (process_item (answering nil) db (queued 7 "k:7:1") pass).1).0
    ≡ ok true
process_item_after_gap_example =
    process_item_after_gap (answering nil) db (queued 7 "k:7:1") 7 "k:7:1" pass
      (is_row 7 "k:7:1" (omega arith)) refl refl
