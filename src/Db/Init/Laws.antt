-- ===== src/Db/Init/Laws.antt =====
-- A start of the indexer does not fail for errors of the database: common/src/db/db.cpp.
use mile_explorer.Common.{
  true, ℕ, String, ◌≡◌, refl, inl, inr, false, not, List, [], ◌∷◌, arith, if◌then◌else◌,
}
use mile_explorer.Common.Exec.{ok, Result-cases, pure}
use mile_explorer.Json.{JsonLib}
use mile_explorer.Driver.{Driver}
use mile_explorer.Db.{Db}
use mile_explorer.Db.Name
use mile_explorer.Db.Cursor.{get_number, field, max}
use mile_explorer.Db.Table.{Table, open_table, has_index, create_index, term_of}
use mile_explorer.Db.Getters.{table_cursor, get_last_block_id}
use mile_explorer.Db.Total.{Returns, run-cases, get_number_total, catch_total}
use mile_explorer.Db.Version.Laws.{migration_total}
use mile_explorer.Db.Init.{
  Handle, lists, has_table, create_table, create_missing, index_missing, read_last_block_id, init,
}

module _ {J W : Type 0} ⦃lib : JsonLib J⦄ (driver : Driver J W) (db : Db) where
  has_table_total : (name : String) (w : W) → Returns (has_table driver db name) w
  unfolding has_table
  has_table_total name w = elim (run-cases driver db.host db.port (driver.table_list db.name) w) [
    | inl (j, h) ↦ (lists (lib.items j) name, ground arith)
    | inr (message, h) ↦ (false, ground arith)
  ]

  create_table_total : (name : String) (w : W) → Returns (create_table driver db name) w
  unfolding create_table
  create_table_total name w =
      elim (run-cases driver db.host db.port (driver.table_create db.name name) w) [
        | inl (j, h) ↦ (open_table db name, ground arith)
        | inr (message, h) ↦ (open_table db name, ground arith)
      ]

  pub create_missing_total :
      (names : List String) (w : W) → (create_missing driver db names w).0 ≡ ok tt
  unfolding create_missing
  create_missing_total [] w = refl
  create_missing_total (name ∷ names) w =
      let found : Returns (has_table driver db name) w = has_table_total name w in
      let w' = (has_table driver db name w).1 in
      let created : Returns (create_table driver db name) w' = create_table_total name w' in
      let w'' = (create_table driver db name w').1 in
      ground
        (arith, found.1, created.1, create_missing_total names w', create_missing_total names w'')

  has_index_total : (t : Table) (name : String) (w : W) → Returns (has_index driver t name) w
  unfolding has_index
  has_index_total t name w =
      let query = driver.is_empty (driver.index_wait (term_of driver t) name) in
      elim (Result-cases (driver.run_flag t.db.host t.db.port query w).0) [
        | inl (b, h) ↦ (true, ground arith)
        | inr (e, h) ↦ (false, ground arith)
      ]

  create_index_total :
      (t : Table) (name : String) (w : W) → (create_index driver t name w).0 ≡ ok tt
  unfolding create_index
  create_index_total t name w =
      let query = driver.index_create (term_of driver t) name in
      elim (Result-cases (driver.run t.db.host t.db.port query w).0) [
        | inl (j, h) ↦ ground arith
        | inr (e, h) ↦ ground arith
      ]

  pub index_missing_total :
      (indices : List (String × String)) (w : W) → (index_missing driver db indices w).0 ≡ ok tt
  unfolding index_missing
  index_missing_total [] w = refl
  index_missing_total ((table, name) ∷ rest) w =
      let t = open_table db table in
      let found : Returns (has_index driver t name) w = has_index_total t name w in
      let w' = (has_index driver t name w).1 in
      let w'' = (create_index driver t name w').1 in
      ground (
        arith,
        found.1,
        create_index_total t name w',
        index_missing_total rest w',
        index_missing_total rest w'',
      )

module _ {J W : Type 0} ⦃lib : JsonLib J⦄ (driver : Driver J W) where
  pub last_block_id_total : (db : Db) (w : W) → Returns (get_last_block_id driver db) w
  unfolding get_last_block_id
  last_block_id_total db w =
      let last = field (max (table_cursor driver db Name.blocks) "block-id") "block-id" in
      let (n, is_n, bounded) = get_number_total driver last w in
      catch_total (get_number last) (pure 0) w (inl (n, is_n)) (0, refl)

  pub read_last_total : (s : Handle W) → (read_last_block_id driver s).0 ≡ ok tt
  unfolding read_last_block_id
  read_last_total s =
      let last : Returns (get_last_block_id driver s.db) s.world =
        last_block_id_total s.db s.world in
      ground (arith, last.1)

  -- init returns whether the database was missing, whatever errors the database reports while
  -- tables and indices are created, the last block is read and the migration runs.
  pub init_total : (v : ℕ) (s : Handle W) → (init driver v s).0 ≡ ok (not s.db.exists)
  unfolding init
  init_total v s =
      let db = s.db in
      let query = driver.db_create db.name in
      let w = if db.exists then s.world else (driver.run db.host db.port query s.world).1 in
      let w' = (create_missing driver db Name.get_names w).1 in
      let w'' = (index_missing driver db Name.get_indices w').1 in
      let tables = create_missing_total driver db Name.get_names w in
      let indices = index_missing_total driver db Name.get_indices w' in
      let handle : Handle W = record { world = w''; db = db } in
      let last = read_last_total handle in
      let migrated = migration_total driver db v (read_last_block_id driver handle).1.world in
      elim (run-cases driver db.host db.port query s.world) [
        | inl (j, h) ↦ ground arith
        | inr (message, h) ↦ ground arith
      ]
