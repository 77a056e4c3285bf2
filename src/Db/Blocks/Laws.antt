-- ===== src/Db/Blocks/Laws.antt =====
-- Which queued blocks are stored, and when: common/src/db/blocks/processing.cpp.
use mile_explorer.Common.{
  ℕ, ◌+◌, ◌^◌, ◌<◌, ◌≡◌, ◌↔◌, inl, inr, true, false, none, some, [], ◌∷◌, ◌++◌, arith, Bool-cases,
}
use mathlib.Core.List.{append_assoc}
use mile_explorer.Common.Exec.{ok, throw, json_error, out_of_range}
use mile_explorer.Common.Text.{to_string}
use mile_explorer.Json.Laws.{at_found, index_found, object_found, uint64_found}
use mile_explorer.Json.{JsonLib, is_array}
use mile_explorer.Driver.{Driver, Sdk}
use mile_explorer.Db.{Db}
use mile_explorer.Db.Name
use mile_explorer.Db.Cursor.{get_data, get, field, max, remove_id}
use mile_explorer.Db.Getters.{table_cursor}
use mile_explorer.Db.Table.{open_table, cursor, insert}
use mile_explorer.Db.Total.{
  Returns, insert_total, remove_id_total, cursor_db, get_data_total, get_number_total,
}
use mile_explorer.Db.Jobs.{wallet_transactions, stream_transactions, Queued}
use mile_explorer.Db.Wallets.{add_transactions}
use mile_explorer.Db.Blocks.{get_prev_bid, is_forward, block_changes, store_block, process_block}

-- On 64-bit numbers the test for a block in a forward holds exactly if there are stored blocks and
-- the id leaves out at least one after the greatest.
pub is_forward_exact :
    (bid prev_bid : ℕ)
    → bid < 2 ^ 64
    → prev_bid < 2 ^ 64
    → (is_forward bid prev_bid ≡ true) ↔ ((0 < prev_bid) × (prev_bid + 1 < bid))
unfolding is_forward
is_forward_exact bid prev_bid h k = (λ g. (ground arith, ground arith), λ g. ground arith)

module _ {J : Type 0} ⦃lib : JsonLib J⦄ where
  -- A row of the queue of blocks, as `add_block` writes it.
  pub record IsBlock (item : J) (bid time : ℕ) : Type 0 where
    pub number : J
    pub stamp : J
    pub has_number : lib.find item "block-id" ≡ some number
    pub number_is : lib.uint number ≡ some bid
    pub has_stamp : lib.find item "timestamp" ≡ some stamp
    pub stamp_is : lib.uint stamp ≡ some time

module _ {J W : Type 0} ⦃lib : JsonLib J⦄ (driver : Driver J W) (sdk : Sdk) (db : Db) (item : J)
    (bid time : ℕ) (s : Queued J W) (block : IsBlock item bid time) where
  -- the greatest id among the stored blocks, or 0
  abbrev pub stored_bid : ℕ
  stored_bid = elim (get_prev_bid driver db s.world).0 [ ok n ↦ n | throw e ↦ 0 ]

  reads_prev_bid : ((get_prev_bid driver db s.world).0 ≡ ok stored_bid) × (stored_bid < 2 ^ 64)
  unfolding get_prev_bid
  reads_prev_bid =
      let newest =
        field (max (cursor driver (open_table db Name.blocks) false) "block-id") "block-id" in
      let (n, is_n, bounded) = get_number_total driver newest s.world in
      (ground (arith, is_n), ground (arith, is_n, bounded))

  not_forward : ¬ ((0 < stored_bid) × (stored_bid + 1 < bid)) → is_forward bid stored_bid ≡ false
  not_forward g =
      let bounded = lib.uint_range block.number bid block.number_is in
      elim (Bool-cases (is_forward bid stored_bid)) [
        | inl e ↦ absurd (g ((is_forward_exact bid stored_bid bounded reads_prev_bid.1).0 e))
        | inr e ↦ e
      ]

  changes_array :
      (transactions : J)
      → lib.find item "transactions" ≡ some transactions
      → is_array transactions ≡ true
      → (r : Queued J W)
      → block_changes driver sdk db item bid time r ≡ (
        ok tt,
        record r {
          jobs =
              r.jobs
              ++ (wallet_transactions transactions bid time
                  ∷ stream_transactions transactions bid time
                  ∷ []);
        },
      )
  unfolding block_changes add_transactions
  changes_array transactions found is_arr r = ground (
    arith,
    at_found item "transactions" transactions found,
    append_assoc r.jobs (wallet_transactions transactions bid time ∷ [])
        (stream_transactions transactions bid time ∷ []),
  )

  -- A queued block that is not ahead of a gap and has an array of transactions is processed
  -- without an exception, and exactly its two jobs, the wallets' first, join those that wait.
  pub process_block_jobs :
      (transactions : J)
      → ¬ ((0 < stored_bid) × (stored_bid + 1 < bid))
      → lib.find item "transactions" ≡ some transactions
      → is_array transactions ≡ true
      → ((process_block driver sdk db item s).0 ≡ ok true)
        × ((process_block driver sdk db item s).1.jobs
            ≡ s.jobs
              ++ wallet_transactions transactions bid time
                ∷ stream_transactions transactions bid time
                ∷ [])
  unfolding process_block store_block
  process_block_jobs transactions g found is_arr =
      let w = (get_prev_bid driver db s.world).1 in
      let row = get (table_cursor driver db Name.blocks) (to_string bid) in
      let got : Returns (get_data row) w = get_data_total driver row w in
      let w' = (get_data row w).1 in
      let queued = changes_array transactions found is_arr (record s { world = w' }) in
      let t = open_table db Name.blocks in
      let rows = table_cursor driver db Name.blocks_processing in
      let removed : (v : W) → Returns (remove_id rows (to_string bid)) v = λ v.
        remove_id_total driver rows db (to_string bid) v
          (cursor_db driver (open_table db Name.blocks_processing) true) in
      let stays = (removed w').1 in
      let inserted = (removed (insert driver t item w').1).1 in
      let number = index_found item "block-id" block.number block.has_number in
      let bid_is = uint64_found block.number bid block.number_is in
      let stamp = index_found item "timestamp" block.stamp block.has_stamp in
      let time_is = uint64_found block.stamp time block.stamp_is in
      let near = not_forward g in
      let prev_bid = reads_prev_bid.0 in
      (
        ground (arith, got.1, insert_total driver t item w'),
        ground (arith, got.1, insert_total driver t item w'),
      )

  -- A queued block with no transactions at all that is not ahead of a gap ends the pass by an
  -- exception, and nothing is stored or queued.
  pub process_block_no_transactions :
      ¬ ((0 < stored_bid) × (stored_bid + 1 < bid))
      → lib.find item "transactions" ≡ none
      → process_block driver sdk db item s ≡ (
        throw (json_error out_of_range (lib.what_at item "transactions")),
        record s {
          world =
              (get_data
                (get (table_cursor driver db Name.blocks) (to_string bid))
                (get_prev_bid driver db s.world).1).1;
        },
      )
  unfolding process_block store_block block_changes
  process_block_no_transactions g missing =
      let w = (get_prev_bid driver db s.world).1 in
      let row = get (table_cursor driver db Name.blocks) (to_string bid) in
      let got : Returns (get_data row) w = get_data_total driver row w in
      ground (
        arith,
        not_forward g,
        reads_prev_bid.0,
        got.1,
        object_found item "block-id" block.number block.has_number,
        index_found item "block-id" block.number block.has_number,
        uint64_found block.number bid block.number_is,
        index_found item "timestamp" block.stamp block.has_stamp,
        uint64_found block.stamp time block.stamp_is,
        lib.at_lem item "transactions",
      )
