-- ===== src/Db/Getters.antt =====
-- common/src/db/getters.cpp: what the API and the pipeline read.
use mile_explorer.Common.{ℕ, String, true}
use mile_explorer.Common.Exec.{Exec, pure, lift, catch, ◌>>=◌}
use mile_explorer.Json.{JsonLib}
use mile_explorer.Driver.{Driver, Sdk}
use mile_explorer.Db.{Db, catch_db_error}
use mile_explorer.Db.Cursor.{
  Cursor, get_data, get_number, max, get, get_by, field, count, slice, between, sort_field,
}
use mile_explorer.Db.Table.{open_table, cursor}
use mile_explorer.Db.Name

module _ {J W : Type 0} ⦃lib : JsonLib J⦄ (driver : Driver J W) where
  -- `open_table(name)->cursor()`
  abbrev pub table_cursor : Db → String → Cursor driver
  table_cursor db name = cursor driver (open_table db name) true

  unfoldable pub get_last_processed_block_id : Db → Exec W ℕ
  get_last_processed_block_id db =
      catch_db_error
        (get_number (field (get (table_cursor db Name.transactions_state) "state") "block-id"))
        (pure 0)

  unfoldable pub get_last_block_id : Db → Exec W ℕ
  get_last_block_id db =
      catch_db_error (get_number (field (max (table_cursor db Name.blocks) "block-id") "block-id"))
        (pure 0)

  unfoldable pub get_network_state : Db → Exec W J
  get_network_state db = get_data (max (table_cursor db Name.node_states) "id")

  unfoldable pub get_blockchain_info : Db → Exec W J
  get_blockchain_info db = get_data (max (table_cursor db Name.blockchain_info) "id")

  unfoldable pub get_nodes : Db → ℕ → ℕ → Exec W J
  get_nodes db first_id limit =
      get_data (slice (field (max (table_cursor db Name.node_states) "id") "nodes") first_id limit)

  unfoldable pub get_wallet_node : Db → String → Exec W J
  get_wallet_node db public_key = get_data (get (table_cursor db Name.node_wallets) public_key)

  unfoldable pub get_block_history_state : Db → Exec W J
  get_block_history_state db = get_data (max (table_cursor db Name.blocks) "block-id")

  unfoldable pub get_block_history : Db → ℕ → ℕ → Exec W J
  get_block_history db first_id limit =
      get_data (between (table_cursor db Name.blocks) first_id limit "block-id")

  unfoldable pub get_block_by_id : Sdk → Db → ℕ → Exec W J
  get_block_by_id sdk db block_id =
      get_data (get (table_cursor db Name.blocks) (sdk.uint256_to_dec_string block_id))

  -- The two counts are converted to numbers; any exception gives zeros.
  unfoldable pub get_wallet_history_state : Db → String → Exec W (ℕ × ℕ)
  get_wallet_history_state db public_key =
      catch
        (do
          block ← get_data (count (field (get (table_cursor db Name.wallets) public_key) "blocks"))
          trx ←
              get_data
                (count (field (get (table_cursor db Name.wallets) public_key) "transactions"))
          blocks ← lift (lib.get_uint64 block)
          transactions ← lift (lib.get_uint64 trx)
          pure (blocks, transactions))
        (λ e. pure (0, 0))

  unfoldable pub get_wallet_history_blocks : Db → String → ℕ → ℕ → Exec W J
  get_wallet_history_blocks db public_key first_id limit =
      let transactions = field (get (table_cursor db Name.wallets) public_key) "transactions" in
      get_data (slice (field (sort_field transactions "block-id") "block-id") first_id limit)

  unfoldable pub get_wallet_history_transactions : Db → String → ℕ → ℕ → Exec W J
  get_wallet_history_transactions db public_key first_id limit =
      get_data (
        slice (field (get (table_cursor db Name.wallets) public_key) "transactions") first_id limit)

  -- The conversion to a number throws if the state has no count.
  unfoldable pub get_transaction_history_state : Db → Exec W ℕ
  get_transaction_history_state db = do
    count ← get_data (field (get (table_cursor db Name.transactions_state) "state") "count")
    lift (lib.get_uint64 count)

  unfoldable pub get_transaction_history : Db → ℕ → ℕ → Exec W J
  get_transaction_history db first_id limit =
      get_data (between (table_cursor db Name.transactions) first_id limit "serial")

  unfoldable pub get_transaction_by_id : Db → String → Exec W J
  get_transaction_by_id db id = get_data (get (table_cursor db Name.transactions) id)

  unfoldable pub get_transaction_by_digest : Db → String → Exec W J
  get_transaction_by_digest db id =
      get_data (get_by (table_cursor db Name.transactions) id "digest")
