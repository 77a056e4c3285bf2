-- ===== src/Db/Wallets.antt =====
-- `add_wallet_transaction` and `add_transactions` of common/src/db/transactions/transactions.cpp, and
-- common/src/db/blocks/wallets_state.cpp. A wallet's state is fetched by a job of its own.
pub mod Laws
use mile_explorer.Common.{
  ℕ, zero, suc, String, Bool, true, false, Option, none, some, List, [], ◌∷◌, if◌then◌else◌,
  is_some,
}
use mile_explorer.Common.Exec.{
  Exception, throw, unknown, Exec, Exception, Result, ok, throw, and_then, pure, lift, gets, catch,
  ◌>>=◌, ◌>>◌,
}
use mile_explorer.Common.Text.{stoull}
use mile_explorer.Json.{JsonLib, is_array}
use mile_explorer.Driver.{requested, Driver, Sdk, Node}
use mile_explorer.Db.{Db}
use mile_explorer.Db.Name
use mile_explorer.Db.Cursor.{get_data, get, field}
use mile_explorer.Db.Getters.{table_cursor}
use mile_explorer.Db.Table.{open_table, insert, update, update_arrays}
use mile_explorer.Db.Jobs.{
  Job, wallet_transactions, stream_transactions, wallet_state, Queued, on_world, async,
}
use mile_explorer.Db.Transactions.{find_public_keys, marker_row, stream_job}

module _ {J W : Type 0} ⦃lib : JsonLib J⦄ (driver : Driver J W) (node : Node J W) where
  -- The row of a wallet's state; `erase` drops what changes with every transaction.
  unfoldable pub wallet_state_row : String → ℕ → J → Result J
  wallet_state_row public_key time state =
      and_then (lib.assign state "timestamp" (lib.of_uint time)) (λ timed.
        ok (lib.put (lib.erase timed "preferred-transaction-id") "id" (lib.of_string public_key)))

  -- A `std::exception` in the inner block is logged, and the loop goes on.
  abbrev retry : Exception → Exec W Bool
  retry unknown w = (throw unknown, w)
  retry e w = (ok false, w)

  -- One round of the loop, which asks another node: true ends it.
  unfoldable pub fetch_wallet_state : Db → String → Exec W Bool
  unfolding wallet_state_row
  fetch_wallet_state db public_key = do
    state ← requested node (node.get_wallet_state public_key)
    elim state [
      | none ↦ pure false
      | some found ↦
          catch
            (do
              time ← gets driver.now
              row ← lift (wallet_state_row public_key time found)
              update driver (open_table db Name.wallets_state) row
              pure true)
            retry
    ]

  -- The loop goes on until a node answers; with fuel for the rounds, `false` if it runs out.
  unfoldable pub wallet_state_loop : ℕ → Db → String → Exec W Bool
  unfolding fetch_wallet_state
  wallet_state_loop zero db public_key = pure false
  wallet_state_loop (suc rounds) db public_key = do
    done ← fetch_wallet_state db public_key
    elim done [ true ↦ pure true | false ↦ wallet_state_loop rounds db public_key ]

  -- The job catches whatever is thrown.
  unfoldable pub wallet_state_job : ℕ → Db → String → Exec W Unit
  unfolding wallet_state_loop
  wallet_state_job rounds db public_key =
      catch (do wallet_state_loop rounds db public_key; pure tt) (λ e. pure tt)

module _ {J W : Type 0} where
  unfoldable pub update_wallet_state : String → Exec (Queued J W) Unit
  update_wallet_state public_key = async (wallet_state public_key)

module _ {J W : Type 0} ⦃lib : JsonLib J⦄ where
  update_all : List J → Exec (Queued J W) Unit
  unfolding update_wallet_state
  update_all [] = pure tt
  update_all (item ∷ items) = do
    id ← lift (lib.get_string item)
    update_wallet_state id
    update_all items

module _ {J W : Type 0} ⦃lib : JsonLib J⦄ (driver : Driver J W) (sdk : Sdk) where
  unfoldable pub update_wallets_state : Db → Exec (Queued J W) Unit
  unfolding update_all
  update_wallets_state db = do
    items ← on_world (get_data (field (table_cursor driver db Name.wallets) "id"))
    update_all (lib.items items)

  -- A missing key of a const document is read with `at`.
  wallet_row : J → String → ℕ → ℕ → Result (List (String × J))
  wallet_row trx uniq_id block_id t = and_then (lib.at trx "digest") (λ digest.
      and_then (lib.at trx "transaction-type") (λ type.
        let row =
          lib.put
            (lib.put
              (lib.put
                (lib.put (lib.put lib.null_value "id" (lib.of_string uniq_id)) "block-id"
                  (lib.of_uint block_id))
                "digest" digest)
              "transaction-type" type)
            "timestamp" (lib.of_uint t) in
        ok (
          ("blocks", lib.push_back lib.null_value (lib.of_uint block_id))
          ∷ ("transactions", lib.push_back lib.null_value row)
          ∷ [])))

  add_receiver : Db → J → List (String × J) → Exec (Queued J W) Unit
  unfolding update_wallet_state
  add_receiver db trx query = elim (lib.find trx "to") [
    | none ↦ pure tt
    | some to ↦ do
      k ← lift (lib.get_string to)
      on_world (update_arrays driver (open_table db Name.wallets) k query)
      update_wallet_state k
  ]

  wallet_rows : Db → J → ℕ → ℕ → List (String × String) → Exec (Queued J W) Unit
  unfolding wallet_row add_receiver update_wallet_state
  wallet_rows db trx block_id t [] = pure tt
  wallet_rows db trx block_id t ((address, uniq_id) ∷ rest) = do
    query ← lift (wallet_row trx uniq_id block_id t)
    on_world (update_arrays driver (open_table db Name.wallets) address query)
    update_wallet_state address
    add_receiver db trx query
    wallet_rows db trx block_id t rest

  unfoldable pub add_wallet_transaction : Db → J → ℕ → ℕ → Exec (Queued J W) Unit
  unfolding find_public_keys wallet_rows
  add_wallet_transaction db trx block_id t = do
    let id = sdk.uint256_to_dec_string block_id
    n ← lift (stoull id)
    keys ← lift (find_public_keys trx id)
    wallet_rows db trx n t keys

  -- The first job of `add_transactions`.
  unfoldable pub wallets_job : Db → List J → ℕ → ℕ → Exec (Queued J W) Unit
  unfolding add_wallet_transaction
  wallets_job db [] block_id t = pure tt
  wallets_job db (trx ∷ rest) block_id t = do
    add_wallet_transaction db trx block_id t
    wallets_job db rest block_id t

  unfoldable pub add_transactions : Db → J → ℕ → ℕ → Exec (Queued J W) Unit
  unfolding marker_row
  add_transactions db transactions block_id t =
      if is_array transactions
      then (do
        async (wallet_transactions transactions block_id t)
        async (stream_transactions transactions block_id t))
      else (do
        row ← lift (marker_row sdk block_id t)
        on_world (insert driver (open_table db Name.transactions_processing) row))

module _ {J W : Type 0} ⦃lib : JsonLib J⦄ (driver : Driver J W) (node : Node J W) (sdk : Sdk) where
  -- What a thread does with a job that it takes off its queue; `rounds` bounds the rounds in which it
  -- asks for the state of a wallet.
  unfoldable pub run_job : ℕ → Db → Job J → Exec (Queued J W) Unit
  unfolding wallets_job stream_job wallet_state_job
  run_job rounds db (wallet_transactions transactions block_id t) =
      wallets_job driver sdk db (lib.items transactions) block_id t
  run_job rounds db (stream_transactions transactions block_id t) =
      on_world (stream_job driver sdk db transactions block_id t)
  run_job rounds db (wallet_state public_key) =
      on_world (wallet_state_job driver node rounds db public_key)
