-- ===== src/Api/Pages.antt =====
-- What the methods that return pages, and `get-block`, ask of the database.
use mile_explorer.Common.{
  ℕ, ◌≤◌, String, ◌≡◌, ◌⊎◌, inl, inr, true, false, some, arith, ◌==◌, Bool-cases,
}
use mile_explorer.Common.Exec.{Exec, ok, Result-cases}
use mile_explorer.Json.{JsonLib, is_number, is_string}
use mile_explorer.Driver.{Driver, Sdk}
use mile_explorer.Db.{Db}
use mile_explorer.Db.Getters
use mile_explorer.Rpc.Router.{Call}
use mile_explorer.Api.Params.{check, get_block_id, get_transaction_id, param_uint64, no_block}
use mile_explorer.Api.Params.Laws.{
  check_limit-cases, world-check_limit, world-get_block_id, world-get_transaction_id,
}
use mile_explorer.Api.Methods

module _ {J : Type 0} ⦃lib : JsonLib J⦄ where
  number_or_text : (param : J) → is_string param ≡ true → is_number param ≡ false
  number_or_text param h = ground arith

-- Nothing is asked, or one page of at most 1000 entries.
abbrev pub AsksForPage : {J W : Type 0} → (ℕ → ℕ → Exec W J) → W → W → Type 0
AsksForPage query w w' =
    (w' ≡ w) ⊎ ((first limit : ℕ) × (limit ≤ 1000) × (w' ≡ (query first limit w).1))

module _ {J W : Type 0} ⦃lib : JsonLib J⦄ (driver : Driver J W) (sdk : Sdk) (db : Db)
    (c : Call J W) where
  get_block_history_page :
      AsksForPage
        (Getters.get_block_history driver db)
        c.world
        (Methods.get_block_history driver sdk db c).1.world
  unfolding Methods.get_block_history
  get_block_history_page = elim (check_limit-cases sdk c) [
    | inl (limit, k) ↦ elim (Result-cases (get_block_id sdk "first" c).0) [
      | inl (id, e) ↦ elim (Bool-cases (id == no_block)) [
        | inl f ↦ inl (ground (arith, world-get_block_id sdk c "first"))
        | inr f ↦ inr (
          sdk.uint256_to_uint64 id,
          limit,
          k.bounded,
          ground (arith, world-get_block_id sdk c "first"),
        )
      ]
      | inr (x, e) ↦ inl (ground (arith, world-get_block_id sdk c "first"))
    ]
    | inr h ↦ inl (ground (arith, world-check_limit sdk c))
  ]

  get_nodes_page :
      AsksForPage (Getters.get_nodes driver db) c.world (Methods.get_nodes driver sdk db c).1.world
  unfolding Methods.get_nodes
  get_nodes_page = elim (check_limit-cases sdk c) [
    | inl (limit, k) ↦ elim (Result-cases (param_uint64 "first" c).0) [
      | inl (id, e) ↦ inr (id, limit, k.bounded, ground arith)
      | inr (x, e) ↦ inl (ground arith)
    ]
    | inr h ↦ inl (ground (arith, world-check_limit sdk c))
  ]

  get_transaction_history_page :
      AsksForPage
        (Getters.get_transaction_history driver db)
        c.world
        (Methods.get_transaction_history driver sdk db c).1.world
  unfolding Methods.get_transaction_history
  get_transaction_history_page = elim (check_limit-cases sdk c) [
    | inl (limit, k) ↦ elim (Result-cases (get_transaction_id {J = J} {W = W} "first" c).0) [
      | inl (id, e) ↦
          inr (id, limit, k.bounded, ground (arith, world-get_transaction_id sdk c "first"))
      | inr (x, e) ↦ inl (ground (arith, world-get_transaction_id sdk c "first"))
    ]
    | inr h ↦ inl (ground (arith, world-check_limit sdk c))
  ]

  -- The methods that list blocks, nodes and transactions ask the database for one page of at most
  -- 1000 entries, or for nothing.
  pub page_methods :
      AsksForPage
        (Getters.get_block_history driver db)
        c.world
        (Methods.get_block_history driver sdk db c).1.world
      × AsksForPage
          (Getters.get_nodes driver db)
          c.world
          (Methods.get_nodes driver sdk db c).1.world
      × AsksForPage
          (Getters.get_transaction_history driver db)
          c.world
          (Methods.get_transaction_history driver sdk db c).1.world
  page_methods = (get_block_history_page, get_nodes_page, get_transaction_history_page)

  -- get-block returns with neither a result nor an error for a text that stands for the greatest
  -- 256-bit number.
  pub get_block_greatest :
      (param : J) (id : String)
      → lib.find c.ctx.request.params "id" ≡ some param
      → lib.text param ≡ some id
      → sdk.string_to_uint256 id ≡ some no_block
      → Methods.get_block driver sdk db c ≡ (ok tt, c)
  unfolding Methods.get_block get_block_id check
  get_block_greatest param id found text greatest = ground (
    arith,
    lib.find_kind c.ctx.request.params "id",
    lib.at_lem c.ctx.request.params "id",
    lib.get_string_lem param,
    lib.text_kind param,
    number_or_text param,
  )
