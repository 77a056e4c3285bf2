-- ===== src/Db/Blocks.antt =====
-- common/src/db/blocks/blocks.cpp and processing.cpp, with `add_transactions`: how a fetched block
-- goes from the queue table to the table of blocks.
pub mod Laws
use mile_explorer.Common.{
  ℕ, ◌+◌, ◌-◌, ◌%◌, ◌^◌, String, Bool, true, false, ◌&&◌, Option, none, some, List, [], ◌∷◌,
  if◌then◌else◌, is_some, ltb,
}
use mile_explorer.Common.Exec.{
  Exec, Exception, Result, ok, throw, json_error, db_error, std_error, unknown, and_then, pure,
  lift, gets, catch, ◌>>=◌, ◌>>◌,
}
use mile_explorer.Common.Text.{stoull, to_string}
use mile_explorer.Json.{JsonLib, is_array}
use mile_explorer.Driver.{Driver, Sdk}
use mile_explorer.Db.{Db, catch_db_error}
use mile_explorer.Db.Name
use mile_explorer.Db.Cursor.{get_data, get_number, get, field, max, sort, remove_id}
use mile_explorer.Db.Getters.{table_cursor}
use mile_explorer.Db.Table.{open_table, cursor, insert}
use mile_explorer.Db.Jobs.{Queued, on_world}
use mile_explorer.Db.Wallets.{add_transactions}

-- The test of the loop, on 64-bit numbers: there is a gap between the two blocks.
unfoldable pub is_forward : ℕ → ℕ → Bool
is_forward bid prev_bid =
    ltb 0 prev_bid && ltb 1 ((bid + 2 ^ 64 - prev_bid) % 2 ^ 64) && ltb prev_bid bid

module _ {J W : Type 0} ⦃lib : JsonLib J⦄ (driver : Driver J W) where
  -- The greatest block id in the table of blocks, not read from an outdated copy.
  unfoldable pub get_prev_bid : Db → Exec W ℕ
  get_prev_bid db =
      get_number
        (field (max (cursor driver (open_table db Name.blocks) false) "block-id") "block-id")

module _ {J W : Type 0} ⦃lib : JsonLib J⦄ (driver : Driver J W) (sdk : Sdk) where
  -- The time of a block is a text, and is now if the block has none. `get_epoch_time` is
  -- `getEpochTime` of common/src/utils.cpp.
  stamped : (String → Result ℕ) → J → ℕ → ℕ → Result J
  stamped get_epoch_time block block_id now =
      and_then (lib.assign block "block-id" (lib.of_uint block_id)) (λ numbered.
        and_then
          (elim (lib.find numbered "timestamp") [
            | none ↦ ok now
            | some text ↦ and_then (lib.get_string text) get_epoch_time
          ])
          (λ time. ok (
            lib.put (lib.put numbered "timestamp" (lib.of_uint time)) "index-timestamp"
              (lib.of_uint now))))

  -- Every `std::exception` is caught and logged.
  absorb : Exception → Exec W Unit
  absorb unknown w = (throw unknown, w)
  absorb e w = (ok tt, w)

  unfoldable pub add_block : (String → Result ℕ) → Db → J → ℕ → Exec W Unit
  unfolding stamped absorb
  add_block get_epoch_time db block block_id =
      catch
        (do
          let id = sdk.uint256_to_dec_string block_id
          row ← get_data (get (table_cursor driver db Name.blocks_processing) id)
          if is_some (lib.find row "id") then pure tt else do
            n ← lift (stoull id)
            now ← gets driver.now
            stored ← lift (stamped get_epoch_time block n now)
            insert driver (open_table db Name.blocks_processing) stored)
        absorb

  -- Only errors of the database are caught: a block with no transactions throws.
  unfoldable pub block_changes : Db → J → ℕ → ℕ → Exec (Queued J W) Unit
  block_changes db block id t =
      catch_db_error
        (do trx ← lift (lib.at block "transactions"); add_transactions driver sdk db trx id t)
        (pure tt)

  -- The rest of a round, for a block that is not in a forward.
  unfoldable pub store_block : Db → J → ℕ → Exec (Queued J W) Unit
  unfolding block_changes
  store_block db item bid = do
    let id = to_string bid
    row ← on_world (get_data (get (table_cursor driver db Name.blocks) id))
    time ← lift (lib.index item "timestamp")
    t ← lift (lib.get_uint64 time)
    block_changes db item bid t
    (if is_some (lib.find row "id")
        then pure tt
        else on_world (insert driver (open_table db Name.blocks) item))
    on_world (remove_id (table_cursor driver db Name.blocks_processing) id)
    pure tt

  -- One round of the loop over the items: true goes on, false is its `break`.
  unfoldable pub process_block : Db → J → Exec (Queued J W) Bool
  unfolding store_block is_forward get_prev_bid
  process_block db item = do
    number ← lift (lib.index item "block-id")
    bid ← lift (lib.get_uint64 number)
    prev_bid ← on_world (get_prev_bid driver db)
    if is_forward bid prev_bid then pure false else do store_block db item bid; pure true

  unfoldable pub process_blocks : Db → List J → Exec (Queued J W) Unit
  unfolding process_block
  process_blocks db [] = pure tt
  process_blocks db (item ∷ items) = do
    more ← process_block db item
    elim more [ true ↦ process_blocks db items | false ↦ pure tt ]

  -- One round of `blocks_processing`: whatever is thrown is logged, and the next round begins.
  unfoldable pub blocks_pass : Db → Exec (Queued J W) Unit
  unfolding process_blocks
  blocks_pass db =
      catch
        (do
          items ←
              on_world (get_data (sort (table_cursor driver db Name.blocks_processing) "block-id"))
          process_blocks db (lib.items items))
        (λ e. pure tt)
