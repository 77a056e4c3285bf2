-- ===== src/Db/Init/Keeps.antt =====
-- What `init` leaves of the handle: common/src/db/db.cpp.
use mile_explorer.Common.{ℕ, String, ◌≡◌, inl, inr, some, arith, if◌then◌else◌}
use mile_explorer.Common.Exec.{Result-cases, ok}
use mile_explorer.Json.{JsonLib}
use mile_explorer.Driver.{Driver}
use mile_explorer.Db.{Db}
use mile_explorer.Db.Name
use mile_explorer.Db.Getters.{get_last_block_id}
use mile_explorer.Db.Total.{Returns, run-cases}
use mile_explorer.Db.Version.Laws.{migration_total}
use mile_explorer.Db.Init.{Handle, open_db, create_missing, index_missing, read_last_block_id, init}
use mile_explorer.Db.Init.Laws.{
  create_missing_total, index_missing_total, last_block_id_total, read_last_total,
}

-- Two handles of one database.
pub record IsSame (a b : Db) : Type 0 where
  pub name : a.name ≡ b.name
  pub host : a.host ≡ b.host
  pub port : a.port ≡ b.port

module _ {J W : Type 0} ⦃lib : JsonLib J⦄ (driver : Driver J W) where
  read_last-IsSame : (s : Handle W) → IsSame (read_last_block_id driver s).1.db s.db
  unfolding read_last_block_id
  read_last-IsSame s =
      let last : Returns (get_last_block_id driver s.db) s.world =
        last_block_id_total driver s.db s.world in
      record {
        name = ground (arith, last.1);
        host = ground (arith, last.1);
        port = ground (arith, last.1);
      }

  pub init-IsSame : (v : ℕ) (s : Handle W) → IsSame (init driver v s).1.db s.db
  unfolding init
  init-IsSame v s =
      let db = s.db in
      let query = driver.db_create db.name in
      let w = if db.exists then s.world else (driver.run db.host db.port query s.world).1 in
      let w' = (create_missing driver db Name.get_names w).1 in
      let w'' = (index_missing driver db Name.get_indices w').1 in
      let tables = create_missing_total driver db Name.get_names w in
      let indices = index_missing_total driver db Name.get_indices w' in
      let handle : Handle W = record { world = w''; db = db } in
      let last = read_last_total driver handle in
      let same = read_last-IsSame handle in
      let migrated = migration_total driver db v (read_last_block_id driver handle).1.world in
      elim (run-cases driver db.host db.port query s.world) [
        | inl (j, h) ↦ record { name = ground arith; host = ground arith; port = ground arith }
        | inr (message, h) ↦ record {
          name = ground arith;
          host = ground arith;
          port = ground arith;
        }
      ]

  pub open_db-named :
      (name host : String) (port : ℕ) (w : W) (db : Db)
      → (open_db driver name host port w).0 ≡ ok (some db)
      → (db.name ≡ name) × (db.host ≡ host) × (db.port ≡ port)
  unfolding open_db
  open_db-named name host port w db h =
      elim (Result-cases (driver.run host port driver.db_list w).0) [
        | inr (x, e) ↦ ground (arith, driver.run_throws host port driver.db_list w x)
        | inl (j, e) ↦ ground arith
      ]
