-- ===== src/Db/Table.antt =====
-- common/include/table.hpp and common/src/db/table.cpp: a table of a database.
use mile_explorer.Common.{String, Bool, true, false, List, [], ◌∷◌, some, if◌then◌else◌}
use mile_explorer.Common.Exec.{Exec, pure, lift, catch, ◌>>=◌, ◌>>◌}
use mile_explorer.Json.{JsonLib}
use mile_explorer.Driver.{Driver}
use mile_explorer.Db.{Db, catch_db_error}
use mile_explorer.Db.Cursor.{Cursor}

pub record Table : Type 0 where
  pub db : Db
  pub name : String

-- `Db::open_table`, that is `Table::Open(*this, name)`.
abbrev pub open_table : Db → String → Table
open_table db name = record { db = db; name = name }

module _ {W A : Type 0} where
  -- `catch (...) { return a; }`
  abbrev catch_all : Exec W A → A → Exec W A
  catch_all m a = catch m (λ e. pure a)

module _ {J W : Type 0} (driver : Driver J W) where
  -- `query().table(name_)`
  abbrev pub term_of : Table → driver.Term
  term_of t = driver.table t.db.name t.name false

  abbrev run_term : Table → driver.Term → Exec W J
  run_term t q = driver.run t.db.host t.db.port q

  unfoldable pub cursor : Table → Bool → Cursor driver
  cursor t outdated =
      if outdated
      then record { db = some t.db; term = driver.table t.db.name t.name true }
      else record { db = some t.db; term = term_of t }

  -- `get_boolean` gives a pointer, which converts to true for every Boolean datum; without the index
  -- `index_wait` is an error.
  unfoldable pub has_index : Table → String → Exec W Bool
  has_index t index_name =
      catch_all
        (do
          driver.run_flag t.db.host t.db.port
              (driver.is_empty (driver.index_wait (term_of t) index_name))
          pure true)
        false

  unfoldable pub create_index : Table → String → Exec W Unit
  create_index t name = catch_all (do run_term t (driver.index_create (term_of t) name); pure tt) tt

  unfoldable pub create_indices : Table → List String → Exec W Unit
  create_indices t [] = pure tt
  create_indices t (name ∷ names) = do
    run_term t (driver.index_create (term_of t) name)
    create_indices t names

  -- `get_all(id, R"({"index":"id"})")`
  abbrev pub rows_with_id : Table → String → driver.Term
  rows_with_id t id = driver.get_all (term_of t) id "{\"index\":\"id\"}"

  unfoldable pub insert : Table → J → Exec W Unit
  insert t row = catch_db_error (do run_term t (driver.insert (term_of t) row); pure tt) (pure tt)

  unfoldable pub insert_with_replace : Table → J → Exec W Unit
  insert_with_replace t row =
      catch_db_error (do run_term t (driver.insert_replacing (term_of t) row); pure tt) (pure tt)

module _ {J : Type 0} ⦃lib : JsonLib J⦄ where
  put_entries : J → List (String × J) → J
  put_entries query [] = query
  put_entries query ((key, value) ∷ rest) = put_entries (lib.put query key value) rest

module _ {J W : Type 0} ⦃lib : JsonLib J⦄ (driver : Driver J W) where
  -- A row is inserted if none has its id, and merged into that one otherwise; the key erased is the
  -- one that is spelled like the id.
  unfoldable pub update : Table → J → Exec W Unit
  update t row =
      catch_db_error
        (do
          key ← lift (lib.at row "id")
          id ← lift (lib.get_string key)
          status ← driver.run_flag t.db.host t.db.port (driver.is_empty (rows_with_id driver t id))
          if status
              then (do run_term driver t (driver.insert (term_of driver t) row); pure tt)
              else (do
                run_term driver t
                    (driver.update (driver.get (term_of driver t) id) (lib.erase row id))
                pure tt))
        (pure tt)

  unite_entries : Table → String → List (String × J) → Exec W Unit
  unite_entries t id [] = pure tt
  unite_entries t id ((key, value) ∷ rest) = do
    run_term driver t (driver.update_union (driver.get (term_of driver t) id) key value)
    unite_entries t id rest

  -- The overload that collects arrays under an id.
  unfoldable pub update_arrays : Table → String → List (String × J) → Exec W Unit
  unfolding put_entries unite_entries
  update_arrays t id row =
      catch_db_error
        (do
          status ← driver.run_flag t.db.host t.db.port (driver.is_empty (rows_with_id driver t id))
          if status
              then (do
                run_term driver t (
                    driver.insert (term_of driver t)
                      (put_entries (lib.put lib.null_value "id" (lib.of_string id)) row))
                pure tt)
              else unite_entries t id row)
        (pure tt)
