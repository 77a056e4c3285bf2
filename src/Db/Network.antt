-- ===== src/Db/Network.antt =====
-- common/src/db/network.cpp, and `update_genesis` of common/src/db/blocks/processing.cpp.
pub mod Laws
use Prim.Native.String.{◌++◌}
use mile_explorer.Common.{ℕ, ◌+◌, String, none, some, List, [], ◌∷◌, if◌then◌else◌, str_eq}
use mile_explorer.Common.Exec.{Exec, Result, ok, pure, lift, gets, and_then, ◌>>=◌, ◌>>◌}
use mile_explorer.Json.{JsonLib, is_array}
use mile_explorer.Driver.{Driver, Sdk}
use mile_explorer.Db.{Db}
use mile_explorer.Db.Name
use mile_explorer.Db.Jobs.{Queued, on_world}
use mile_explorer.Db.Table.{open_table, insert, update, update_arrays}
use mile_explorer.Db.Wallets.{add_wallet_transaction, update_wallets_state}

module _ {J : Type 0} ⦃lib : JsonLib J⦄ where
  -- The two assets of the chain get their names.
  named_asset : J → Result J
  named_asset asset = elim (lib.find asset "code") [
    | none ↦ ok asset
    | some code ↦ and_then (lib.get_string code) (λ text.
        if str_eq "0" text
        then ok (lib.put asset "ticker-name" (lib.of_string "XDR"))
        else if str_eq "1" text
        then ok (lib.put asset "ticker-name" (lib.of_string "MILE"))
        else ok asset)
  ]

  named_assets : List J → J → Result J
  unfolding named_asset
  named_assets [] done = ok done
  named_assets (asset ∷ assets) done =
      and_then (named_asset asset) (λ named. named_assets assets (lib.push_back done named))

  unfoldable pub info_row : J → Result J
  unfolding named_assets
  info_row blockchain_info = and_then (lib.at blockchain_info "supported-assets") (λ assets.
      and_then
        (if is_array assets then named_assets (lib.items assets) lib.empty_array else ok assets)
        (λ named.
          let info = lib.put blockchain_info "supported-assets" named in
          and_then (lib.index info "version")
            (λ version. ok (lib.put (lib.put lib.null_value "info" info) "id" version))))

  -- The id of a genesis transaction: `trx` is not const, so a missing key reads as null
  -- and fails to convert.
  genesis_id : J → Result String
  genesis_id trx = and_then (lib.index trx "public-key") (λ key.
      and_then (lib.get_string key) (λ public_key.
        and_then (lib.index trx "transaction-id") (λ number.
          and_then (lib.get_string number)
            (λ trx_id. ok ((((public_key ++ ":") ++ "0") ++ ":") ++ trx_id)))))

module _ {J W : Type 0} ⦃lib : JsonLib J⦄ (driver : Driver J W) where
  unfoldable pub update_info : Db → J → Exec W Unit
  unfolding info_row
  update_info db blockchain_info = do
    info ← lift (info_row blockchain_info)
    update driver (open_table db Name.blockchain_info) info

module _ {J W : Type 0} ⦃lib : JsonLib J⦄ (driver : Driver J W) (sdk : Sdk) where
  -- The items of a const array; a missing key is read with `at`.
  node_row : String → ℕ → J → Result J
  node_row id time item = and_then (lib.at item "public-key") (λ key.
      and_then (lib.get_string key) (λ pid. and_then (lib.at item "address") (λ address.
        and_then (lib.at item "node-id") (λ node_id. ok (
          lib.put
            (lib.put
              (lib.put (lib.put (lib.put lib.null_value "address" address) "node-id" node_id)
                "timestamp" (lib.of_uint time))
              "block-id" (lib.of_string id))
            "id" (lib.of_string pid))))))

  add_nodes : Db → String → List J → Exec W Unit
  unfolding node_row
  add_nodes db id [] = pure tt
  add_nodes db id (item ∷ items) = do
    time ← gets driver.now
    node ← lift (node_row id time item)
    update driver (open_table db Name.node_wallets) node
    add_nodes db id items

  unfoldable pub add_node_states : Db → J → ℕ → Exec W Unit
  unfolding add_nodes
  add_node_states db nodes_state block_id = do
    let id = sdk.uint256_to_dec_string block_id
    insert driver (open_table db Name.node_states)
        (lib.put (lib.put lib.null_value "nodes" nodes_state) "id" (lib.of_string id))
    add_nodes db id (lib.values nodes_state)

  -- `entries` are the pairs of an object.
  genesis_rows : (J → List (String × J)) → Db → List J → ℕ → Exec (Queued J W) Unit
  unfolding genesis_id
  genesis_rows entries db [] count = pure tt
  genesis_rows entries db (trx ∷ rest) count = do
    add_wallet_transaction driver sdk db trx 0 0
    id ← lift (genesis_id trx)
    row ← lift (lib.assign trx "serial" (lib.of_uint count))
    on_world (update_arrays driver (open_table db Name.genesis_transactions) id (entries row))
    genesis_rows entries db rest (count + 1)

  unfoldable pub update_genesis : (J → List (String × J)) → Db → J → Exec (Queued J W) Unit
  unfolding genesis_rows
  update_genesis entries db genesis = do
    genesis_rows entries db (lib.items genesis) 0
    update_wallets_state driver sdk db
