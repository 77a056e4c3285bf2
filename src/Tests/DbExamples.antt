-- ===== src/Tests/DbExamples.antt =====
-- The theorems on the database layer at concrete rows, and tests.
use mile_explorer.Common.{
  ℕ, ◌+◌, String, ◌≡◌, refl, inl, true, none, some, List, [], ◌∷◌, arith, ltb, if◌then◌else◌,
}
use mile_explorer.Common.Lists.{lookup}
use mile_explorer.Common.Exec.{json_error, out_of_range, ok, throw}
use mile_explorer.Common.Float.{as_double}
use mile_explorer.Common.Text.{to_string}
use mile_explorer.Json.Value.{Value, nil, str, obj, arr, done, item, field, end}
use mile_explorer.Driver.{requested, Node}
use mile_explorer.Db.Cursor.{get_data, get_number, get, max, remove_id}
use mile_explorer.Db.Cursor
use mile_explorer.Db.Table.{cursor}
use mile_explorer.Db.Jobs.{Queued, wallet_transactions, stream_transactions}
use mile_explorer.Db.Transactions.{
  find_public_keys, public_key_rows, text_number, short_description, replace_keys, stream_row,
}
use mile_explorer.Db.Transactions.Ids.{lookup-find_public_keys}
use mile_explorer.Db.Transactions.Rows.{stream_row-IsRow}
use mile_explorer.Db.Wallets.{wallet_state_loop}
use mile_explorer.Db.Wallets.Laws.{now, later, wallet_state_loop-Answers}
use mile_explorer.Db.Blocks.{get_prev_bid, process_block}
use mile_explorer.Db.Blocks.Laws.{IsBlock, process_block_jobs, process_block_no_transactions}
use mile_explorer.Db.Stream.Laws.{IsRow}
use mile_explorer.Tests.Fixtures.{n, lib, answering, sdk, db}

-- What the examples compute with.
database : Unit {0}
unfolding to_string get_data get_number as_double get Cursor.field max cursor get_prev_bid
    find_public_keys stream_row public_key_rows text_number short_description replace_keys
database = tt

abbrev transfer : Value
transfer = obj (
    field "from" (str "k")
      (field "transaction-id" (str "1") (field "transaction-name" (str "Transfer") end)))

abbrev transfer_keys : List (String × String)
transfer_keys = ("k", "k:5:1") ∷ []

lookup-find_public_keys_example : lookup "k" transfer_keys ≡ some "k:5:1"
unfolding database
lookup-find_public_keys_example =
    lookup-find_public_keys transfer (str "1") "5" "1" "k" transfer_keys refl refl refl

abbrev numbered : Value
numbered = obj (field "from" (str "k") (field "transaction-id" (n 1) end))

abbrev stream_of : Value
stream_of = obj (
    field "transaction-type" (str "Transfer") (
      field "transaction-id" (str "1") (
        field "timestamp" (n 9) (
          field "block-id" (n 5) (
            field "id" (str "k:5:1")
              (field "from" (str "k") (field "transaction-id" (str "1") end)))))))

stream_row-IsRow_example : (shape : IsRow stream_of 5 "k:5:1") × (shape.type ≡ str "Transfer")
unfolding database
stream_row-IsRow_example =
    stream_row-IsRow sdk "k:5:1" 5 9 transfer stream_of (str "Transfer") refl (omega arith)
      (inl refl) refl

-- A node that does not answer the first two requests.
abbrev node : Node Value ℕ
node = record {
  get_rpc = λ w. (ok true, w);
  get_wallet_state = λ key w. (ok (if ltb w 2 then none else some (obj end)), w + 1);
  get_current_block_id = λ w. (ok none, w);
  get_block = λ id w. (ok none, w);
  get_blockchain_info = λ w. (ok none, w);
  get_nodes = λ w. (ok none, w);
}

wallet_state_loop-Answers_example : (wallet_state_loop (answering nil) node 3 db "k" 0).0 ≡ ok true
unfolding requested
wallet_state_loop-Answers_example =
    wallet_state_loop-Answers (answering nil) node db "k" 3 0
      (later 1 refl (later 2 refl (now (obj end) 3 refl refl)))

abbrev row : Value
row = obj (field "id" (str "state") (field "count" (n 2) end))

abbrev block : Value
block = obj (
    field "block-id" (n 7)
      (field "timestamp" (n 9) (field "transactions" (arr (item transfer done)) end)))

abbrev empty_block : Value
empty_block = obj (field "block-id" (n 7) (field "timestamp" (n 9) end))

is_block : IsBlock block 7 9
is_block = record {
  number = n 7;
  stamp = n 9;
  has_number = refl;
  number_is = refl;
  has_stamp = refl;
  stamp_is = refl;
}

is_empty_block : IsBlock empty_block 7 9
is_empty_block = record {
  number = n 7;
  stamp = n 9;
  has_number = refl;
  number_is = refl;
  has_stamp = refl;
  stamp_is = refl;
}

abbrev idle : Queued Value ℕ
idle = record { world = 0; jobs = [] }

process_block_jobs_example :
    ((process_block (answering (n 6)) sdk db block idle).0 ≡ ok true)
    × ((process_block (answering (n 6)) sdk db block idle).1.jobs
        ≡ wallet_transactions (arr (item transfer done)) 7 9
          ∷ stream_transactions (arr (item transfer done)) 7 9
          ∷ [])
unfolding database as_double
process_block_jobs_example =
    process_block_jobs (answering (n 6)) sdk db block 7 9 idle is_block (arr (item transfer done))
      (λ (p, g). omega (arith, g)) refl refl

process_block_no_transactions_example :
    process_block (answering (n 6)) sdk db empty_block idle
    ≡ (throw (json_error out_of_range "key not found"), record { world = 2; jobs = [] })
unfolding database as_double
process_block_no_transactions_example =
    process_block_no_transactions (answering (n 6)) sdk db empty_block 7 9 idle is_empty_block
      (λ (p, g). omega (arith, g)) refl
