-- ===== src/Db/Version.antt =====
-- The migration version of the database: `get_version` and `update_version` of
-- common/src/db/db.cpp, and common/src/db/migration.cpp with migrations/m127.cpp.
pub mod Laws
use mile_explorer.Common.{ℕ, ◌+◌, ◌&&◌, ltb, leb, if◌then◌else◌, ◌%◌, ◌^◌}
use mile_explorer.Common.Exec.{Exec, pure, gets, ◌>>=◌, ◌>>◌}
use mile_explorer.Json.{JsonLib}
use mile_explorer.Driver.{Driver}
use mile_explorer.Db.{Db, catch_db_error}
use mile_explorer.Db.Cursor.{get_number, max, min, get, field, between, remove}
use mile_explorer.Db.Table.{open_table, insert}
use mile_explorer.Db.Getters.{table_cursor, get_last_processed_block_id}
use mile_explorer.Db.Name

module _ {J W : Type 0} ⦃lib : JsonLib J⦄ (driver : Driver J W) where
  unfoldable pub get_version : Db → Exec W ℕ
  get_version db =
      catch_db_error (get_number (field (max (table_cursor driver db Name.meta) "id") "version"))
        (pure 0)

  -- The number of this restart; the inner block goes on with 0 after an error.
  restart_number : Db → Exec W ℕ
  restart_number db =
      catch_db_error
        (do
          id ← get_number (field (max (table_cursor driver db Name.meta) "id") "id")
          pure ((id + 1) % 2 ^ 32))
        (pure 0)

  meta_row : ℕ → ℕ → ℕ → ℕ → J
  meta_row restart version previous time =
      lib.put
        (lib.put
          (lib.put (lib.put lib.null_value "id" (lib.of_uint restart)) "version"
            (lib.of_uint version))
          "previous_version" (lib.of_uint previous))
        "timestamp" (lib.of_uint time)

  unfoldable pub update_version : Db → ℕ → Exec W Unit
  unfolding restart_number get_version meta_row
  update_version db version =
      catch_db_error
        (do
          restart ← restart_number db
          previous ← get_version db
          time ← gets driver.now
          insert driver (open_table db Name.meta) (meta_row restart version previous time))
        (pure tt)

  -- Logs only.
  m127 : Db → Exec W Unit
  m127 db = pure tt

  -- The clean-up of the version row of the first releases.
  clean_meta : Db → Exec W Unit
  unfolding m127
  clean_meta db =
      catch_db_error
        (do
          old ← get_number (field (get (table_cursor driver db Name.meta) "version") "current")
          (if leb old 122
              then (do remove (get (table_cursor driver db Name.meta) "version"); pure tt)
              else pure tt)
          if ltb old 127 then m127 db else pure tt)
        (pure tt)

  first_processing_id : Db → Exec W ℕ
  first_processing_id db =
      catch_db_error
        (get_number
          (field (min (table_cursor driver db Name.transactions_processing) "block-id") "block-id"))
        (pure 0)

  -- The second argument of `between` is a number of ids.
  unfoldable pub flush_processed : Db → ℕ → ℕ → Exec W Unit
  flush_processed db state_block_id processing_block_id =
      if ltb processing_block_id state_block_id && ltb 0 processing_block_id
      then (do
        remove (
            between (table_cursor driver db Name.transactions_processing) processing_block_id
              state_block_id "block-id")
        pure tt)
      else pure tt

  unfoldable pub migration : Db → ℕ → Exec W Unit
  unfolding clean_meta update_version first_processing_id flush_processed
  migration db v = do
    get_version db
    clean_meta db
    dbv ← get_version db
    (if ltb dbv v then update_version db v else pure tt)
    state_block_id ← get_last_processed_block_id driver db
    processing_block_id ← first_processing_id db
    flush_processed db state_block_id processing_block_id
