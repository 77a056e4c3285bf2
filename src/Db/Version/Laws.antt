-- ===== src/Db/Version/Laws.antt =====
-- What a start of the indexer takes off the queue: common/src/db/migration.cpp.
use mile_explorer.Common.{
  ℕ, ◌+◌, ◌%◌, ◌^◌, ◌<◌, ◌≡◌, refl, ◌⊎◌, inl, inr, true, ◌&&◌, none, some, String, arith,
  Bool-cases, ltb, if◌then◌else◌,
}
use mile_explorer.Common.Exec.{ok, pure}
use mile_explorer.Json.{JsonLib}
use mile_explorer.Driver.{Driver}
use mile_explorer.Db.{Db, catch_db_error}
use mile_explorer.Db.Getters.{table_cursor, get_last_processed_block_id}
use mile_explorer.Db.Name
use mile_explorer.Db.Cursor.{Cursor, between, remove, get_number, field, max, min, get}
use mile_explorer.Db.Table.{cursor, open_table}
use mile_explorer.Db.Total.{
  Returns, run-cases, get_number_total, catch_total, insert_total, cursor_db,
}
use mile_explorer.Db.Version.{
  flush_processed, get_version, clean_meta, m127, update_version, restart_number, meta_row,
  first_processing_id, migration,
}

module _ {J W : Type 0} ⦃lib : JsonLib J⦄ (driver : Driver J W) (db : Db) where
  -- The rows of the queue with block ids from the first up to the last, this one excluded.
  abbrev pub queued_rows : ℕ → ℕ → driver.Term
  queued_rows first last =
      driver.between
        (driver.order_by_index (driver.table db.name Name.transactions_processing true) "block-id")
        first last "block-id"

  -- If the queue begins at a positive block id below the last processed one, a start of the
  -- indexer deletes from the queue the ids from the first up to the sum of the two, excluded,
  -- modulo 2^64; otherwise it does nothing.
  pub flush_processed_range :
      (state_block_id processing_block_id : ℕ) (w : W)
      → ((0 < processing_block_id)
          × (processing_block_id < state_block_id)
          × (flush_processed driver db state_block_id processing_block_id w ≡ (
            ok tt,
            (driver.run db.host db.port
                (driver.delete (
                  queued_rows processing_block_id
                    ((processing_block_id + state_block_id) % 2 ^ 64)))
                w).1,
          )))
        ⊎ ((¬ ((0 < processing_block_id) × (processing_block_id < state_block_id)))
            × (flush_processed driver db state_block_id processing_block_id w ≡ (ok tt, w)))
  unfolding flush_processed between remove cursor
  flush_processed_range s p w = elim (Bool-cases (ltb p s && ltb 0 p)) [
    | inr e ↦ inr (λ (q, r). ground (arith, q, r), ground arith)
    | inl e ↦
        let query = driver.delete (queued_rows p ((p + s) % 2 ^ 64)) in
        inl (
          ground arith,
          ground arith,
          elim (run-cases driver db.host db.port query w) [
            | inl (j, h) ↦ ground arith
            | inr (message, h) ↦ ground arith
          ],
        )
  ]

module _ {J W : Type 0} ⦃lib : JsonLib J⦄ (driver : Driver J W) (db : Db) where
  number : (c : Cursor driver) (w : W) → Returns (get_number c) w
  number c w = let (k, is_k, bounded) = get_number_total driver c w in (k, is_k)

  -- A number that is read in a `try` block with a default.
  number_or_zero : (c : Cursor driver) (w : W) → Returns (catch_db_error (get_number c) (pure 0)) w
  number_or_zero c w = catch_total (get_number c) (pure 0) w (inl (number c w)) (0, refl)

  get_version_total : (w : W) → Returns (get_version driver db) w
  unfolding get_version
  get_version_total w =
      number_or_zero (field (max (table_cursor driver db Name.meta) "id") "version") w

  remove_total : (c : Cursor driver) (w : W) → c.db ≡ some db → Returns (remove c) w
  unfolding remove
  remove_total c w e = elim (run-cases driver db.host db.port (driver.delete c.term) w) [
    | inl (j, h) ↦ (c, ground arith)
    | inr (message, h) ↦ (record { db = none; term = driver.nil }, ground arith)
  ]

  get_db : (name id : String) → (get (table_cursor driver db name) id).db ≡ some db
  unfolding get
  get_db name id = cursor_db driver (open_table db name) true

  clean_meta_total : (w : W) → (clean_meta driver db w).0 ≡ ok tt
  unfolding clean_meta m127
  clean_meta_total w =
      let row = get (table_cursor driver db Name.meta) "version" in
      let old : Returns (get_number (field row "current")) w = number (field row "current") w in
      let w' = (get_number (field row "current") w).1 in
      let gone : Returns (remove row) w' = remove_total row w' (get_db Name.meta "version") in
      ground (arith, old.1, gone.1)

  update_version_total : (version : ℕ) (w : W) → (update_version driver db version w).0 ≡ ok tt
  unfolding update_version restart_number
  update_version_total version w =
      let last = field (max (table_cursor driver db Name.meta) "id") "id" in
      let restart : Returns (get_number last) w = number last w in
      let w' = (get_number last w).1 in
      let old : Returns (get_version driver db) w' = get_version_total w' in
      let w'' = (get_version driver db w').1 in
      let row = meta_row driver ((restart.0 + 1) % 2 ^ 32) version old.0 (driver.now w'') in
      ground (arith, restart.1, old.1, insert_total driver (open_table db Name.meta) row w'')

  first_processing_id_total : (w : W) → Returns (first_processing_id driver db) w
  unfolding first_processing_id
  first_processing_id_total w =
      number_or_zero
        (field (min (table_cursor driver db Name.transactions_processing) "block-id") "block-id") w

  last_processed_total : (w : W) → Returns (get_last_processed_block_id driver db) w
  unfolding get_last_processed_block_id
  last_processed_total w =
      number_or_zero
        (field (get (table_cursor driver db Name.transactions_state) "state") "block-id") w

  flush_total : (s p : ℕ) (w : W) → (flush_processed driver db s p w).0 ≡ ok tt
  flush_total s p w = elim (flush_processed_range driver db s p w) [
    | inl (a, b, e) ↦ ground (arith, e)
    | inr (a, e) ↦ ground (arith, e)
  ]

  pub migration_total : (v : ℕ) (w : W) → (migration driver db v w).0 ≡ ok tt
  unfolding migration
  migration_total v w =
      let first : Returns (get_version driver db) w = get_version_total w in
      let w1 = (get_version driver db w).1 in
      let cleaned = clean_meta_total w1 in
      let w2 = (clean_meta driver db w1).1 in
      let now : Returns (get_version driver db) w2 = get_version_total w2 in
      let w3 = (get_version driver db w2).1 in
      let updated = update_version_total v w3 in
      let w4 = if ltb now.0 v then (update_version driver db v w3).1 else w3 in
      let state : Returns (get_last_processed_block_id driver db) w4 = last_processed_total w4 in
      let w5 = (get_last_processed_block_id driver db w4).1 in
      let queue : Returns (first_processing_id driver db) w5 = first_processing_id_total w5 in
      let w6 = (first_processing_id driver db w5).1 in
      ground (arith, first.1, now.1, state.1, queue.1, flush_total state.0 queue.0 w6)
