-- ===== src/Db/Stream.antt =====
-- common/src/db/transactions/processing.cpp: how the queued transactions get their serial numbers.
pub mod Laws
pub mod Tables
pub mod Numbered
pub mod Writes
pub mod Serials
pub mod Items
pub mod Passes
pub mod Rounds
use mile_explorer.Common.{
  ℕ, zero, suc, ◌+◌, ◌-◌, ◌%◌, ◌^◌, String, Bool, true, false, not, ◌&&◌, Option, none, some, List,
  [], ◌∷◌, if◌then◌else◌, is_some, ltb, str_eq,
}
use mile_explorer.Common.Exec.{
  Exec, Exception, Result, ok, throw, pure, lift, gets, modify, catch, and_then, ◌>>=◌, ◌>>◌,
}
use mile_explorer.Json.{JsonLib}
use mile_explorer.Driver.{Driver}
use mile_explorer.Db.{Db}
use mile_explorer.Db.Name
use mile_explorer.Db.Cursor.{get_data, get, sort, remove_id}
use mile_explorer.Db.Getters.{table_cursor, get_transaction_history_state}
use mile_explorer.Db.Table.{open_table, insert, update}

-- The variables of the loops: `prev_bid` lives as long as the program, `last_count` for one pass.
pub record Pass (W : Type 0) : Type 0 where
  pub world : W
  pub prev_bid : ℕ
  pub last_count : ℕ

module _ {W : Type 0} where
  abbrev pub on_world : {A : Type 0} → Exec W A → Exec (Pass W) A
  on_world m s = let (r, w) = m s.world in (r, record s { world = w })

  abbrev pub set_prev_bid : ℕ → Exec (Pass W) Unit
  set_prev_bid bid s = (ok tt, record s { prev_bid = bid })

-- `(bid-prev_bid)>1` on 64-bit numbers
abbrev pub is_gap : ℕ → ℕ → Bool
is_gap bid prev_bid = ltb 1 ((bid + 2 ^ 64 - prev_bid) % 2 ^ 64)

module _ {J : Type 0} ⦃lib : JsonLib J⦄ where
  -- `item.at("transaction-type") == "__processing__"`
  unfoldable pub is_marker : J → Result Bool
  is_marker item =
      and_then (lib.at item "transaction-type")
        (λ type. ok (elim (lib.text type) [ none ↦ false | some s ↦ str_eq s "__processing__" ]))

  unfoldable pub state_row : ℕ → ℕ → J
  state_row count block_id =
      lib.put
        (lib.put (lib.put lib.null_value "id" (lib.of_string "state")) "count" (lib.of_uint count))
        "block-id" (lib.of_uint block_id)

module _ {J W : Type 0} ⦃lib : JsonLib J⦄ (driver : Driver J W) where
  unfoldable pub update_state : Db → ℕ → ℕ → Exec W Unit
  unfolding state_row
  update_state db count block_id =
      update driver (open_table db Name.transactions_state) (state_row count block_id)

  -- `open_table(transactions_processing)->cursor().remove(trxid)`
  unfoldable pub take_off : Db → String → Exec W Unit
  take_off db trxid = do
    remove_id (table_cursor driver db Name.transactions_processing) trxid
    pure tt

  -- The rest of a round, for a transaction that is neither a marker nor behind a gap.
  unfoldable pub number_transaction : Db → J → ℕ → String → Exec (Pass W) Unit
  unfolding update_state take_off
  number_transaction db item bid trxid = do
    set_prev_bid bid
    row ← on_world (get_data (get (table_cursor driver db Name.transactions) trxid))
    if is_some (lib.find row "id") then on_world (take_off db trxid) else do
      serial ← gets (λ (s : Pass W). s.last_count)
      modify (λ (s : Pass W). record s { last_count = (serial + 1) % 2 ^ 64 })
      stored ← lift (lib.assign item "serial" (lib.of_uint serial))
      on_world (insert driver (open_table db Name.transactions) stored)
      on_world (update_state db ((serial + 1) % 2 ^ 64) bid)
      on_world (take_off db trxid)

  -- One round: true goes on with the next item, false is the `break`.
  unfoldable pub process_item : Db → J → Exec (Pass W) Bool
  unfolding number_transaction take_off
  process_item db item = do
    number ← lift (lib.index item "block-id")
    bid ← lift (lib.get_uint64 number)
    name ← lift (lib.index item "id")
    trxid ← lift (lib.get_string name)
    prev_bid ← gets (λ (s : Pass W). s.prev_bid)
    marker ← lift (is_marker item)
    if marker
        then (do set_prev_bid bid; on_world (take_off db trxid); pure true)
        else if ltb 0 prev_bid && is_gap bid prev_bid
        then (do set_prev_bid bid; pure false)
        else (do number_transaction db item bid trxid; pure true)

  unfoldable pub process_items : Db → List J → Exec (Pass W) Unit
  unfolding process_item
  process_items db [] = pure tt
  process_items db (item ∷ items) = do
    more ← process_item db item
    elim more [ true ↦ process_items db items | false ↦ pure tt ]

  -- The count that the state holds; without a state one is written.
  unfoldable pub read_count : Db → Exec W ℕ
  unfolding update_state
  read_count db =
      catch (get_transaction_history_state driver db) (λ e. do update_state db 0 0; pure 0)

  -- One round of `transactions_processing` between two sleeps.
  unfoldable pub transactions_pass : Db → Exec (Pass W) Unit
  unfolding process_items read_count
  transactions_pass db =
      catch
        (do
          items ←
              on_world
                (get_data (sort (table_cursor driver db Name.transactions_processing) "block-id"))
          last_count ← on_world (read_count db)
          modify (λ (s : Pass W). record s { last_count = last_count })
          process_items db (lib.items items))
        (λ e. pure tt)

  -- The loop of the thread for a number of rounds, with what the other threads have done to the world
  -- before each.
  unfoldable pub transactions_rounds : ℕ → (ℕ → W → W) → Db → Exec (Pass W) Unit
  unfolding transactions_pass
  transactions_rounds zero others db = pure tt
  transactions_rounds (suc k) others db = do
    transactions_rounds k others db
    modify (λ (s : Pass W). record s { world = others k s.world })
    transactions_pass db
