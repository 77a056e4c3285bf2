-- ===== src/Db/Network/Laws.antt =====
-- What update_genesis needs of the transactions: common/src/db/blocks/processing.cpp.
use mile_explorer.Common.{ℕ, ◌+◌, String, ◌≡◌, ◌≢◌, List, [], ◌∷◌, arith, inl, inr}
use mile_explorer.Common.Lists.{All}
use mile_explorer.Common.Exec.{ok, Result-cases}
use mile_explorer.Json.{JsonLib}
use mile_explorer.Driver.{Driver, Sdk}
use mile_explorer.Db.{Db}
use mile_explorer.Db.Jobs.{Queued, on_world}
use mile_explorer.Db.Name
use mile_explorer.Db.Table.{open_table, update_arrays}
use mile_explorer.Db.Wallets.{add_wallet_transaction}
use mile_explorer.Db.Network.{genesis_id, genesis_rows, update_genesis}

module _ {J : Type 0} ⦃lib : JsonLib J⦄ where
  -- A null has no id: its members read as null, which is no text.
  genesis_id-null : (trx : J) (id : String) → trx ≡ lib.null_value → genesis_id trx ≢ ok id
  unfolding genesis_id
  genesis_id-null trx id null e = ground (
    arith,
    lib.index_lem lib.null_value "public-key",
    lib.kind_null,
    lib.get_string_lem lib.null_value,
    lib.text_kind lib.null_value,
  )

module _ {J W : Type 0} ⦃lib : JsonLib J⦄ (driver : Driver J W) (sdk : Sdk)
    (entries : J → List (String × J)) (db : Db) where
  genesis_rows-ok :
      (rows : List J) (count : ℕ) (s : Queued J W)
      → (genesis_rows driver sdk entries db rows count s).0 ≡ ok tt
      → All (λ trx. trx ≢ lib.null_value) rows
  unfolding genesis_rows
  genesis_rows-ok [] count s returns = tt
  genesis_rows-ok (trx ∷ rest) count s returns =
      let added = add_wallet_transaction driver sdk db trx 0 0 s in
      elim (Result-cases added.0) [
        | inr (x, e) ↦ absurd (ground arith)
        | inl (t, e) ↦ elim (Result-cases (genesis_id trx)) [
          | inr (x, f) ↦ absurd (ground arith)
          | inl (id, f) ↦ elim (Result-cases (lib.assign trx "serial" (lib.of_uint count))) [
            | inr (x, g) ↦ absurd (ground arith)
            | inl (row, g) ↦
                let table = open_table db Name.genesis_transactions in
                let stored = on_world (update_arrays driver table id (entries row)) added.1 in
                elim (Result-cases stored.0) [
                  | inr (x, h) ↦ absurd (ground arith)
                  | inl (u, h) ↦ (
                    λ null. genesis_id-null trx id null f,
                    genesis_rows-ok rest (count + 1) stored.1 (ground arith),
                  )
                ]
          ]
        ]
      ]

  -- An update that returns has no null among the transactions.
  pub update_genesis-ok :
      (genesis : J) (s : Queued J W)
      → (update_genesis driver sdk entries db genesis s).0 ≡ ok tt
      → All (λ trx. trx ≢ lib.null_value) (lib.items genesis)
  unfolding update_genesis
  update_genesis-ok genesis s returns =
      elim (Result-cases (genesis_rows driver sdk entries db (lib.items genesis) 0 s).0) [
        | inr (x, e) ↦ absurd (ground arith)
        | inl (t, e) ↦ genesis_rows-ok (lib.items genesis) 0 s e
      ]
