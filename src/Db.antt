-- ===== src/Db.antt =====
-- The database layer (common/include/db.hpp, common/src/db): the handle that every component holds.
pub mod Name
pub mod Cursor
pub mod Table
pub mod Total
pub mod Getters
pub mod Version
pub mod Init
pub mod Jobs
pub mod Transactions
pub mod Wallets
pub mod Blocks
pub mod Stream
pub mod Network
pub mod Statistics
use mile_explorer.Common.{ℕ, String, Bool}
use mile_explorer.Common.Exec.{Exec, Exception, db_error, throw, catch}

-- `last_block_id` and `exists` are written when the database is opened and initialised.
pub record Db : Type 0 where
  pub name : String
  pub host : String
  pub port : ℕ
  pub last_block_id : ℕ
  pub exists : Bool

module _ {W A : Type 0} where
  -- `catch (db::Error &e) { log }`, then what follows the block; any other exception goes on.
  abbrev pub fallback : Exec W A → Exception → Exec W A
  fallback m (db_error message) w = m w
  fallback m e w = (throw e, w)

  abbrev pub catch_db_error : Exec W A → Exec W A → Exec W A
  catch_db_error body rest = catch body (fallback rest)
