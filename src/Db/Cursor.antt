-- ===== src/Db/Cursor.antt =====
-- common/include/cursor.hpp and common/src/db/cursor.cpp: a cursor is a term and the database that
-- will run it, or no database after an error. Building a term throws nothing, so the handlers round
-- the builders are not reached; a call through an absent database is undefined in C++, and throws
-- `unknown` here.
use mile_explorer.Common.{ℕ, ◌+◌, ◌%◌, ◌^◌, String, Option, none, some, if◌then◌else◌}
use mile_explorer.Common.Exec.{Exec, throw, unknown, pure, ◌>>=◌, ◌>>◌}
use mile_explorer.Common.Float.{as_double}
use mile_explorer.Json.{JsonLib, is_null}
use mile_explorer.Driver.{Driver}
use mile_explorer.Db.{Db, catch_db_error}

pub record Cursor {J W : Type 0} (driver : Driver J W) : Type 0 where
  pub db : Option Db
  pub term : driver.Term

module _ {J W : Type 0} {driver : Driver J W} where
  -- The default constructor.
  abbrev pub no_cursor : Cursor driver
  no_cursor = record { db = none; term = driver.nil }

  abbrev pub with_term : Cursor driver → driver.Term → Cursor driver
  with_term c t = record c { term = t }

  unfoldable pub max : Cursor driver → String → Cursor driver
  max c id = with_term c (driver.max c.term id)

  unfoldable pub min : Cursor driver → String → Cursor driver
  min c id = with_term c (driver.min c.term id)

  unfoldable pub get : Cursor driver → String → Cursor driver
  get c id = with_term c (driver.get c.term id)

  -- `get` with an index
  unfoldable pub get_by : Cursor driver → String → String → Cursor driver
  get_by c id index = with_term c (driver.get_all c.term id index)

  unfoldable pub count : Cursor driver → Cursor driver
  count c = with_term c (driver.count c.term)

  unfoldable pub field : Cursor driver → String → Cursor driver
  field c name = with_term c (driver.get_field c.term name)

  -- The server's `slice` takes the two ends.
  unfoldable pub slice : Cursor driver → ℕ → ℕ → Cursor driver
  slice c first_id limit = with_term c (driver.slice c.term first_id ((first_id + limit) % 2 ^ 64))

  unfoldable pub between : Cursor driver → ℕ → ℕ → String → Cursor driver
  between c first_id limit id =
      with_term c
        (driver.between (driver.order_by_index c.term id) first_id ((first_id + limit) % 2 ^ 64) id)

  unfoldable pub sort : Cursor driver → String → Cursor driver
  sort c index = with_term c (driver.order_by_index c.term index)

  unfoldable pub sort_field : Cursor driver → String → Cursor driver
  sort_field c index = with_term c (driver.order_by c.term index)

  unfoldable pub filter : Cursor driver → driver.Term → Cursor driver
  filter c t = with_term c (driver.filter c.term t)

  unfoldable pub order_by : Cursor driver → driver.Term → Cursor driver
  order_by c t = with_term c (driver.order_by_term c.term t)

  unfoldable pub group : Cursor driver → String → Cursor driver
  group c name = with_term c (driver.group c.term name)

  unfoldable pub limit_func : Cursor driver → ℕ → Cursor driver
  limit_func c amount = with_term c (driver.limit c.term amount)

  unfoldable pub concat_map : Cursor driver → driver.Term → Cursor driver
  concat_map c t = with_term c (driver.concat_map c.term t)

  unfoldable pub ungroup : Cursor driver → Cursor driver
  ungroup c = with_term c (driver.ungroup c.term)

  unfoldable pub fold : Cursor driver → driver.Term → driver.Term → Cursor driver
  fold c base reduce = with_term c (driver.fold c.term base reduce)

  -- `cursor_.get(id).delete_().run(…)`
  unfoldable pub remove_id : Cursor driver → String → Exec W (Cursor driver)
  remove_id c id = elim c.db [
    | none ↦ λ w. (throw unknown, w)
    | some db ↦
        catch_db_error
          (do
            driver.run db.host db.port (driver.delete (driver.get c.term id))
            pure (with_term c (driver.get c.term id)))
          (pure no_cursor)
  ]

  unfoldable pub remove : Cursor driver → Exec W (Cursor driver)
  remove c = elim c.db [
    | none ↦ λ w. (throw unknown, w)
    | some db ↦
        catch_db_error (do driver.run db.host db.port (driver.delete c.term); pure c)
          (pure no_cursor)
  ]

module _ {J W : Type 0} ⦃lib : JsonLib J⦄ {driver : Driver J W} where
  unfoldable pub get_data : Cursor driver → Exec W J
  get_data c = elim c.db [
    | none ↦ pure lib.empty_array
    | some db ↦
        catch_db_error
          (do
            object ← driver.run db.host db.port c.term
            pure (if is_null object then lib.empty_array else object))
          (pure lib.empty_array)
  ]

  -- A `double` that is converted to an unsigned number, and what is no number reads as 0. The
  -- conversion of 2^64 is undefined in C++, and gives 0 here.
  unfoldable pub get_number : Cursor driver → Exec W ℕ
  get_number c = elim c.db [
    | none ↦ pure 0
    | some db ↦
        catch_db_error
          (do
            object ← driver.run db.host db.port c.term
            pure (elim (lib.uint object) [ none ↦ 0 | some n ↦ as_double n % 2 ^ 64 ]))
          (pure 0)
  ]
