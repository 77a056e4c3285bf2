-- ===== src/Api/Methods.antt =====
-- backend/api/*.cpp: the methods that read one thing from the database.
use mile_explorer.Common.{ℕ, ◌+◌, ◌%◌, ◌^◌, String, true, not, ◌==◌, if◌then◌else◌}
use mile_explorer.Common.Exec.{Exec, pure, lift, ◌>>=◌, ◌>>◌}
use mile_explorer.Json.{JsonLib}
use mile_explorer.Driver.{Driver, Sdk}
use mile_explorer.Db.Getters
use mile_explorer.Db.Version.{get_version}
use mile_explorer.Rpc.Router.{Call, Method, on_ctx}
use mile_explorer.Api.Params.{
  no_block, check, check_limit, get_block_id, get_transaction_id, param_string, param_uint64,
}

module _ {J W : Type 0} where
  -- A call of the database leaves the context alone.
  abbrev pub in_world : {A : Type 0} → Exec W A → Exec (Call J W) A
  in_world m c = let (r, w) = m c.world in (r, record c { world = w })

  abbrev pub set_result : J → Exec (Call J W) Unit
  set_result value =
      on_ctx (λ ctx. record ctx { response = record ctx.response { result = value } })

module _ {J W : Type 0} ⦃lib : JsonLib J⦄ where
  -- `ctx.response.result[key] = value`
  abbrev pub put_result : String → J → Exec (Call J W) Unit
  put_result key value = on_ctx (λ ctx. record ctx {
    response = record ctx.response { result = lib.put ctx.response.result key value };
  })

module _ {J W : Type 0} ⦃lib : JsonLib J⦄ (driver : Driver J W) (sdk : Sdk) where
  unfoldable pub ping : Method J W
  ping db = set_result (lib.of_bool true)

  unfoldable pub help : J → Method J W
  help params db = set_result params

  unfoldable pub get_version_method : Method J W
  get_version_method db = do
    state ← in_world (get_version driver db)
    set_result (lib.of_uint state)

  unfoldable pub get_blockchain_info : Method J W
  get_blockchain_info db = do
    state ← in_world (Getters.get_blockchain_info driver db)
    set_result state

  unfoldable pub get_network_state : Method J W
  get_network_state db = do
    state ← in_world (Getters.get_network_state driver db)
    nodes ← lift (lib.index state "nodes")
    put_result "nodes" (
        lib.put (lib.put lib.null_value "count" (lib.of_uint (lib.size nodes))) "first"
          (lib.of_uint 0))

  unfoldable pub get_block : Method J W
  get_block db = do
    block_id ← get_block_id sdk "id"
    if block_id == no_block
        then pure tt
        else do block ← in_world (Getters.get_block_by_id driver sdk db block_id); set_result block

  unfoldable pub get_block_history : Method J W
  get_block_history db = do
    valid ← check_limit sdk
    if not valid then pure tt else do
      limit ← param_uint64 "limit"
      block_id ← get_block_id sdk "first"
      if block_id == no_block then pure tt else do
        history ←
            in_world (Getters.get_block_history driver db (sdk.uint256_to_uint64 block_id) limit)
        set_result history

  -- The state of an empty table is an empty array, which has no members.
  unfoldable pub get_block_history_state : Method J W
  get_block_history_state db = do
    state ← in_world (Getters.get_block_history_state driver db)
    id ← lift (lib.index state "block-id")
    n ← lift (lib.get_uint64 id)
    put_result "count" (lib.of_uint ((n + 1) % 2 ^ 64))
    timestamp ← lift (lib.index state "timestamp")
    put_result "timestamp" timestamp
    put_result "first" (lib.of_uint 0)

  unfoldable pub get_nodes : Method J W
  get_nodes db = do
    valid ← check_limit sdk
    if not valid then pure tt else do
      first_id ← param_uint64 "first"
      limit ← param_uint64 "limit"
      nodes ← in_world (Getters.get_nodes driver db first_id limit)
      set_result nodes

  unfoldable pub get_transaction_history : Method J W
  get_transaction_history db = do
    valid ← check_limit sdk
    if not valid then pure tt else do
      first_id ← get_transaction_id "first"
      limit ← param_uint64 "limit"
      history ← in_world (Getters.get_transaction_history driver db first_id limit)
      set_result history

  unfoldable pub get_transaction_history_state : Method J W
  get_transaction_history_state db = do
    state ← in_world (Getters.get_transaction_history_state driver db)
    put_result "count" (lib.of_uint state)
    put_result "first" (lib.of_uint 0)

  unfoldable pub get_wallet_node : Method J W
  get_wallet_node db = do
    found ← check sdk "public-key"
    if not found then pure tt else do
      public_key ← param_string "public-key"
      node ← in_world (Getters.get_wallet_node driver db public_key)
      set_result node

  abbrev range_from_zero : ℕ → J
  range_from_zero n =
      lib.put (lib.put lib.null_value "count" (lib.of_uint n)) "first" (lib.of_uint 0)

  unfoldable pub get_wallet_history_state : Method J W
  get_wallet_history_state db = do
    found ← check sdk "public-key"
    if not found then pure tt else do
      public_key ← param_string "public-key"
      state ← in_world (Getters.get_wallet_history_state driver db public_key)
      put_result "block" (range_from_zero state.0)
      put_result "transaction" (range_from_zero state.1)

  unfoldable pub get_wallet_history_blocks : Method J W
  get_wallet_history_blocks db = do
    found ← check sdk "public-key"
    if not found then pure tt else do
      valid ← check_limit sdk
      if not valid then pure tt else do
        public_key ← param_string "public-key"
        limit ← param_uint64 "limit"
        block_id ← get_block_id sdk "first"
        if block_id == no_block then pure tt else do
          blocks ← in_world (
              Getters.get_wallet_history_blocks driver db public_key
                (sdk.uint256_to_uint64 block_id) limit)
          set_result blocks

  unfoldable pub get_wallet_history_transactions : Method J W
  get_wallet_history_transactions db = do
    found ← check sdk "public-key"
    if not found then pure tt else do
      valid ← check_limit sdk
      if not valid then pure tt else do
        public_key ← param_string "public-key"
        limit ← param_uint64 "limit"
        first_id ← get_transaction_id "first"
        transactions ←
            in_world (Getters.get_wallet_history_transactions driver db public_key first_id limit)
        set_result transactions
