-- ===== src/Db/Init.antt =====
-- common/src/db/db.cpp: how the database is opened and initialised. The threads that `init` starts
-- are Db.Blocks, Db.Stream and the statistics.
pub mod Laws
pub mod Keeps
use mile_explorer.Common.{
  ℕ, String, Bool, true, false, not, ◌||◌, Option, none, some, List, [], ◌∷◌, if◌then◌else◌, str_eq,
}
use mile_explorer.Common.Exec.{Exec, Exception, Result, ok, throw, pure, gets, modify, ◌>>=◌, ◌>>◌}
use mile_explorer.Json.{JsonLib}
use mile_explorer.Driver.{Driver}
use mile_explorer.Db.{Db, catch_db_error}
use mile_explorer.Db.Name
use mile_explorer.Db.Table.{Table, open_table, has_index, create_index}
use mile_explorer.Db.Getters.{get_last_block_id}
use mile_explorer.Db.Version.{migration}

-- The handle that `init` writes to.
pub record Handle (W : Type 0) : Type 0 where
  pub world : W
  pub db : Db

module _ {W : Type 0} where
  abbrev pub on_world : {A : Type 0} → Exec W A → Exec (Handle W) A
  on_world m s = let (r, w) = m s.world in (r, record s { world = w })

module _ {J : Type 0} ⦃lib : JsonLib J⦄ where
  abbrev lists : List J → String → Bool
  lists [] name = false
  lists (item ∷ items) name =
      elim (lib.text item) [ none ↦ false | some s ↦ str_eq s name ] || lists items name

module _ {J W : Type 0} ⦃lib : JsonLib J⦄ (driver : Driver J W) where
  abbrev run_on : Db → driver.Term → Exec W J
  run_on db t = driver.run db.host db.port t

  -- `none` if there is no connection, which the driver's error stands for, or another error.
  unfoldable pub open_db : String → String → ℕ → Exec W (Option Db)
  open_db db_name host port =
      catch_db_error
        (do
          databases ← driver.run host port driver.db_list
          let exists = lists (lib.items databases) db_name
          pure (
              some (record {
                name = db_name;
                host = host;
                port = port;
                last_block_id = 0;
                exists = exists;
              })))
        (pure none)

  unfoldable pub has_table : Db → String → Exec W Bool
  has_table db name =
      catch_db_error (do v ← run_on db (driver.table_list db.name); pure (lists (lib.items v) name))
        (pure false)

  unfoldable pub create_table : Db → String → Exec W Table
  create_table db name =
      catch_db_error (do run_on db (driver.table_create db.name name); pure (open_table db name))
        (pure (open_table db name))

  unfoldable pub delete_table : Db → String → Exec W Unit
  delete_table db name =
      catch_db_error (do run_on db (driver.table_drop db.name name); pure tt) (pure tt)

  unfoldable pub create_missing : Db → List String → Exec W Unit
  unfolding has_table create_table
  create_missing db [] = pure tt
  create_missing db (name ∷ names) = do
    found ← has_table db name
    (if found then pure tt else (do create_table db name; pure tt))
    create_missing db names

  unfoldable pub index_missing : Db → List (String × String) → Exec W Unit
  index_missing db [] = pure tt
  index_missing db ((table, name) ∷ rest) = do
    found ← has_index driver (open_table db table) name
    (if found then pure tt else create_index driver (open_table db table) name)
    index_missing db rest

  -- `if (is_exist()) last_block_id_ = get_last_block_id();` in its own `try` block.
  unfoldable pub read_last_block_id : Exec (Handle W) Unit
  read_last_block_id = do
    db ← gets (λ (s : Handle W). s.db)
    if db.exists
        then catch_db_error
            (do
              last ← on_world (get_last_block_id driver db)
              modify (λ (s : Handle W). record s { db = record s.db { last_block_id = last } }))
            (pure tt)
        else pure tt

  -- `v` is `indexerVersion()`.
  unfoldable pub init : ℕ → Exec (Handle W) Bool
  init v = do
    db ← gets (λ (s : Handle W). s.db)
    catch_db_error
        (do
          (if db.exists
              then pure tt
              else on_world (do run_on db (driver.db_create db.name); pure tt))
          on_world (create_missing db Name.get_names)
          on_world (index_missing db Name.get_indices)
          read_last_block_id
          on_world (migration driver db v))
        (pure tt)
    pure (not db.exists)
