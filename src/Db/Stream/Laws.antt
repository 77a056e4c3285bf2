-- ===== src/Db/Stream/Laws.antt =====
-- What a pass over the queued transactions does: common/src/db/transactions/processing.cpp.
use mile_explorer.Common.{
  ℕ, ◌+◌, ◌%◌, ◌^◌, ◌<◌, String, ◌≡◌, ◌↔◌, ◌⊎◌, inl, inr, Bool, true, false, none, some, arith, ltb,
  ◌&&◌, Bool-cases, is_some, str_eq,
}
use mile_explorer.Common.Exec.{ok}
use mile_explorer.Json.Laws.{
  at_found, index_found, object_found, string_found, uint64_found, assign_object, object_first,
  object_put, find_first, find_object,
}
use mile_explorer.Json.{JsonLib, is_object}
use mile_explorer.Driver.{Driver}
use mile_explorer.Db.{Db}
use mile_explorer.Db.Name
use mile_explorer.Db.Cursor.{get_data, get, remove_id}
use mile_explorer.Db.Getters.{table_cursor}
use mile_explorer.Db.Table.{open_table, insert}
use mile_explorer.Db.Total.{
  Returns, insert_total, remove_id_total, cursor_db, get_data_total, update_total,
}
use mile_explorer.Db.Stream.{
  Pass, is_gap, is_marker, state_row, update_state, take_off, number_transaction, process_item,
}

-- On 64-bit numbers, where the id before is not the greatest of them, the test for a gap between
-- transactions holds for an id that leaves out at least one, for every id below the one before it,
-- and for no other.
pub is_gap_exact :
    (bid prev_bid : ℕ)
    → bid < 2 ^ 64
    → prev_bid + 1 < 2 ^ 64
    → (is_gap bid prev_bid ≡ true) ↔ ((prev_bid + 1 < bid) ⊎ (bid < prev_bid))
is_gap_exact bid prev_bid h k = (λ g. ground arith, λ g. ground arith)

module _ {J : Type 0} ⦃lib : JsonLib J⦄ where
  -- A row that the processing can read: what `add_stream_transaction` and `add_transactions` write.
  pub record IsRow (item : J) (bid : ℕ) (trxid : String) : Type 0 where
    pub number : J
    pub name : J
    pub type : J
    pub has_number : lib.find item "block-id" ≡ some number
    pub number_is : lib.uint number ≡ some bid
    pub has_name : lib.find item "id" ≡ some name
    pub name_is : lib.text name ≡ some trxid
    pub has_type : lib.find item "transaction-type" ≡ some type

  -- Whether it is the row of a block with no transactions.
  abbrev pub marks : J → Bool
  marks type = elim (lib.text type) [ none ↦ false | some s ↦ str_eq s "__processing__" ]

module _ {J W : Type 0} ⦃lib : JsonLib J⦄ (driver : Driver J W) (db : Db) where
  take_off_total : (trxid : String) (w : W) → (take_off driver db trxid w).0 ≡ ok tt
  unfolding take_off
  take_off_total trxid w =
      let rows = table_cursor driver db Name.transactions_processing in
      let removed : Returns (remove_id rows trxid) w =
        remove_id_total driver rows db trxid w
          (cursor_db driver (open_table db Name.transactions_processing) true) in
      ground (arith, removed.1)

  update_state_total :
      (count block_id : ℕ) (w : W) → (update_state driver db count block_id w).0 ≡ ok tt
  unfolding update_state state_row
  update_state_total count block_id w =
      let id = lib.put lib.null_value "id" (lib.of_string "state") in
      let id_obj = object_first "id" (lib.of_string "state") in
      let counted = lib.put id "count" (lib.of_uint count) in
      let counted_obj = object_put id "count" (lib.of_uint count) id_obj in
      update_total driver (open_table db Name.transactions_state) (state_row count block_id)
        (lib.of_string "state") "state" w
        (ground (
          arith,
          find_object counted "block-id" (lib.of_uint block_id) "id" counted_obj,
          find_object id "count" (lib.of_uint count) "id" id_obj,
          find_first "id" (lib.of_string "state") "id",
        ))
        (lib.text_string "state")

  -- What a round that reaches the transaction leaves, by whether its row is in the table: a stored one
  -- is only taken off the queue, and another one raises the count by one.
  abbrev pub Numbers : String → ℕ → Pass W → Pass W → Type 0
  Numbers trxid bid s s' =
      (found : J) × (w : W) × (get_data (get (table_cursor driver db Name.transactions) trxid)
          s.world
        ≡ (ok found, w))
      × (((is_some (lib.find found "id") ≡ true)
            × (s' ≡ record s { prev_bid = bid; world = (take_off driver db trxid w).1 }))
          ⊎ ((is_some (lib.find found "id") ≡ false)
              × (s'.prev_bid ≡ bid)
              × (s'.last_count ≡ (s.last_count + 1) % 2 ^ 64)))

  number_transaction-Numbers :
      (item : J) (bid : ℕ) (trxid : String) (s : Pass W)
      → is_object item ≡ true
      → ((number_transaction driver db item bid trxid s).0 ≡ ok tt)
        × Numbers trxid bid s (number_transaction driver db item bid trxid s).1
  unfolding number_transaction
  number_transaction-Numbers item bid trxid s h =
      let stored = lib.put item "serial" (lib.of_uint s.last_count) in
      let rows = get (table_cursor driver db Name.transactions) trxid in
      let got : Returns (get_data rows) s.world = get_data_total driver rows s.world in
      let w = (get_data rows s.world).1 in
      let w' = (insert driver (open_table db Name.transactions) stored w).1 in
      let w'' = (update_state driver db ((s.last_count + 1) % 2 ^ 64) bid w').1 in
      elim (Bool-cases (is_some (lib.find got.0 "id"))) [
        | inl e ↦ (
          ground (arith, got.1, take_off_total trxid w),
          (got.0, w, ground (arith, got.1), inl (e, ground (arith, got.1))),
        )
        | inr e ↦ (
          ground (
            arith,
            got.1,
            assign_object item "serial" (lib.of_uint s.last_count) h,
            insert_total driver (open_table db Name.transactions) stored w,
            update_state_total ((s.last_count + 1) % 2 ^ 64) bid w',
            take_off_total trxid w'',
          ),
          (
            got.0,
            w,
            ground (arith, got.1),
            inr (
              e,
              ground (arith, got.1),
              ground (arith, got.1, assign_object item "serial" (lib.of_uint s.last_count) h),
            ),
          ),
        )
      ]

  -- A round with a row that can be read takes a marker off the table, ends the pass behind a gap
  -- with nothing done but that the row's block becomes the one before, and otherwise looks the
  -- transaction up and returns: if it is stored already, it is only taken off the table, and else
  -- the count is one more, modulo 2^64; the row's block becomes the one before.
  pub process_item_round :
      (item : J) (bid : ℕ) (trxid : String) (s : Pass W) (row : IsRow item bid trxid)
      → ((marks row.type ≡ true)
          × (process_item driver db item s ≡ (
            ok true,
            record s { prev_bid = bid; world = (take_off driver db trxid s.world).1 },
          )))
        ⊎ (((marks row.type ≡ false)
              × ((ltb 0 s.prev_bid && is_gap bid s.prev_bid) ≡ true)
              × (process_item driver db item s ≡ (ok false, record s { prev_bid = bid })))
            ⊎ ((marks row.type ≡ false)
                × ((ltb 0 s.prev_bid && is_gap bid s.prev_bid) ≡ false)
                × ((process_item driver db item s).0 ≡ ok true)
                × Numbers trxid bid s (process_item driver db item s).1))
  unfolding process_item is_marker
  process_item_round item bid trxid s row =
      let number = index_found item "block-id" row.number row.has_number in
      let bid_is = uint64_found row.number bid row.number_is in
      let name = index_found item "id" row.name row.has_name in
      let trxid_is = string_found row.name trxid row.name_is in
      let type = at_found item "transaction-type" row.type row.has_type in
      let counted =
        number_transaction-Numbers item bid trxid s
          (object_found item "id" row.name row.has_name) in
      elim (Bool-cases (marks row.type)) [
        | inl m ↦ inl (m, ground (arith, take_off_total trxid s.world))
        | inr m ↦ elim (Bool-cases (ltb 0 s.prev_bid && is_gap bid s.prev_bid)) [
          | inl g ↦ inr (inl (m, g, ground arith))
          | inr g ↦ inr (inr (m, g, ground arith, ground arith))
        ]
      ]

  -- A gap stops a row that can be read, and is no marker, for one pass only: the next round with
  -- it, in the state that is left, goes on.
  pub process_item_after_gap :
      (item : J) (bid : ℕ) (trxid : String) (s : Pass W) (row : IsRow item bid trxid)
      → marks row.type ≡ false
      → (ltb 0 s.prev_bid && is_gap bid s.prev_bid) ≡ true
      → (process_item driver db item (process_item driver db item s).1).0 ≡ ok true
  process_item_after_gap item bid trxid s row m g =
      let s' : Pass W = record s { prev_bid = bid } in
      let no_gap : (ltb 0 bid && is_gap bid bid) ≡ false = ground arith in
      ground
        (arith, process_item_round item bid trxid s row, process_item_round item bid trxid s' row)
