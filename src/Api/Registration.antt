-- ===== src/Api/Registration.antt =====
-- The registrations at the end of the API files (MILECSA_JSONRPC_REGESTRY_METHOD), and what
-- backend/main.cpp makes of them.
use mile_explorer.Common.{String, ◌≡◌, List, [], ◌∷◌, Option, none, some, arith, eq_iff}
use mile_explorer.Common.Lists.{lookup}
use mile_explorer.Json.{JsonLib}
use mile_explorer.Driver.{Driver, Sdk}
use mile_explorer.Db.{Db}
use mile_explorer.Rpc.Container.{Container}
use mile_explorer.Rpc.Router.{Method, RpcBase, Registry, create, register, set_router}
use mile_explorer.Rpc.Router.Laws.{method_of, method_of-set_router, path-set_router}
use mile_explorer.Api.Methods
use mile_explorer.Api.Transaction.{get_transaction}
use mile_explorer.Api.Statistics.{get_statistics, get_statistics_list}

pub record Registration (J W : Type 0) : Type 0 where
  pub name : String
  pub method : Method J W
  pub help : String

module _ {J W : Type 0} where
  abbrev entry : String → Method J W → String → Registration J W
  entry name method help = record { name = name; method = method; help = help }

  -- What the registrations say of a name: the first that has it.
  abbrev pub registered : String → List (Registration J W) → Option (Method J W)
  registered name [] = none
  registered name (r ∷ rest) = elim (lookup name ((r.name, r.method) ∷ [])) [
    | none ↦ registered name rest
    | some f ↦ some f
  ]

module _ {J W : Type 0} ⦃lib : JsonLib J⦄ (driver : Driver J W) (sdk : Sdk) where
  -- `params` is the help that the registry has gathered when it is asked for, and `empty_object` the
  -- value of the literal `{}`.
  unfoldable pub api_methods : J → J → List (Registration J W)
  api_methods params empty_object =
      entry "get-block" (Methods.get_block driver sdk) "{id:0} or {id:0}"
      ∷ entry "get-block-history" (Methods.get_block_history driver sdk) "{first:0, limit:42}"
      ∷ entry "get-block-history-state" (Methods.get_block_history_state driver sdk) "{}"
      ∷ entry "get-blockchain-info" (Methods.get_blockchain_info driver sdk) "{}"
      ∷ entry "get-network-state" (Methods.get_network_state driver sdk) "{}"
      ∷ entry "get-nodes" (Methods.get_nodes driver sdk) "{first: 0, limit:42}"
      ∷ entry "get-statistics" (get_statistics driver sdk) "{name:<method-name>}"
      ∷ entry "get-statistics-list" (get_statistics_list empty_object) "{}"
      ∷ entry "get-transaction" (get_transaction driver sdk)
          "{'digest': <digest>} or {id: '<public-key>:<block-id>:<transaction-id>'} or {id:<transaction-id>, block-id:<block-id>, public-key: '<public-key>'}  or {id:'<block-id>:<transaction-id>', public-key: '<public-key>'}"
      ∷ entry "get-transaction-history" (Methods.get_transaction_history driver sdk)
          "{first:0, limit:42}"
      ∷ entry "get-transaction-history-state" (Methods.get_transaction_history_state driver sdk)
          "{}"
      ∷ entry "get-version" (Methods.get_version_method driver sdk) "{}"
      ∷ entry "get-wallet-history-blocks" (Methods.get_wallet_history_blocks driver sdk)
          "{public-key:'xxxxx0000xxxxx', first:0, limit:42}"
      ∷ entry "get-wallet-history-state" (Methods.get_wallet_history_state driver sdk)
          "{public-key:'xxxxx0000xxxxx'}"
      ∷ entry "get-wallet-history-transactions" (Methods.get_wallet_history_transactions driver sdk)
          "{public-key:'xxxxx0000xxxxx', first:0, limit:42}"
      ∷ entry "get-wallet-node" (Methods.get_wallet_node driver sdk) "{public-key: 'xxxxxx'}"
      ∷ entry "help" (Methods.help driver sdk params) "{}"
      ∷ entry "ping" (Methods.ping driver sdk) "{}"
      ∷ []

module _ {J W M : Type 0} ⦃container : Container M (Method J W)⦄
    (emplace_json : J → String → String → J) where
  -- The static initialisers, in one of their orders.
  unfoldable pub register_all : List (Registration J W) → Registry J W M → Registry J W M
  unfolding register
  register_all [] r = r
  register_all (e ∷ rest) r = register_all rest (register emplace_json e.name e.method e.help r)

  -- `main`: the server's router, filled from the registry.
  unfoldable pub main_router : Db → J → List (Registration J W) → RpcBase J W M
  unfolding create
  main_router db no_params entries =
      set_router (register_all entries (record { params = no_params; storage = container.empty }))
        (create db "v1" "api")

  find-register_all :
      (entries : List (Registration J W)) (r : Registry J W M) (name : String)
      → container.find name (register_all entries r).storage
        ≡ elim (container.find name r.storage) [ some f ↦ some f | none ↦ registered name entries ]
  unfolding register_all
  find-register_all [] r name = ground arith
  find-register_all (e ∷ rest) r name = ground (
    arith,
    find-register_all rest (register emplace_json e.name e.method e.help r) name,
    container.find_emplace e.name name e.method r.storage,
    eq_iff e.name name,
  )

module _ {J W : Type 0} (M : Type 0) ⦃container : Container M (Method J W)⦄
    (emplace_json : J → String → String → J) (db : Db) (no_params : J)
    (entries : List (Registration J W)) where
  abbrev running : RpcBase J W M
  running = main_router emplace_json db no_params entries

  -- The running server answers under /v1/api, and knows for each name the method of the first
  -- registration with that name, and none for any other name.
  pub method_of-main_router :
      (name : String)
      → (running.path ≡ "/v1/api") × (method_of running name ≡ registered name entries)
  unfolding main_router create
  method_of-main_router name =
      let empty : Registry J W M = record { params = no_params; storage = container.empty } in
      let filled = register_all emplace_json entries empty in
      let router : RpcBase J W M = create db "v1" "api" in
      (
        path-set_router filled router,
        ground (
          arith,
          method_of-set_router filled router name,
          find-register_all emplace_json entries empty name,
          container.find_empty name,
        ),
      )
