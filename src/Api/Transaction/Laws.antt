-- ===== src/Api/Transaction/Laws.antt =====
-- Which transaction `get-transaction` asks the database for: backend/api/get_transaction.cpp.

use mile_explorer.Common.{ℕ, String, ◌≡◌, ◌⊎◌, inl, inr, true, false, none, some, arith}
use mile_explorer.Common.Exec.{ok}
use mile_explorer.Common.Text.{to_string}
use mile_explorer.Json.Laws.{at_found, string_found, uint64_found}
use mile_explorer.Json.{JsonLib, is_number}
use mile_explorer.Driver.{Driver, Sdk}
use mile_explorer.Db.{Db}
use mile_explorer.Db.Getters
use mile_explorer.Db.Transactions.{row_id}
use mile_explorer.Rpc.Router.{Call}
use mile_explorer.Api.Params.{check}
use mile_explorer.Api.Transaction.{
  number_or_string, get_block_id, number_id, text_id, transaction_key, get_transaction,
}

module _ {J : Type 0} ⦃lib : JsonLib J⦄ where
  -- A parameter that is a number, or a text: what the id is built from.
  abbrev pub Spells : J → String → Type 0
  Spells param s =
      ((n : ℕ) × (lib.uint param ≡ some n) × (s ≡ to_string n)) ⊎ (lib.text param ≡ some s)

  number_kind : (j : J) (n : ℕ) → lib.uint j ≡ some n → is_number j ≡ true
  number_kind j n h = ground (arith, lib.uint_kind j)

  text_no_number : (j : J) (s : String) → lib.text j ≡ some s → is_number j ≡ false
  text_no_number j s h = ground (arith, lib.text_kind j)

module _ {J W : Type 0} ⦃lib : JsonLib J⦄ (c : Call J W) where
  reads-Spells : (param : J) (s : String) → Spells param s → number_or_string param c ≡ (ok s, c)
  reads-Spells param s (inl (n, is_n, e)) =
      ground (arith, number_kind param n is_n, uint64_found param n is_n)
  reads-Spells param s (inr t) = ground (arith, text_no_number param s t, string_found param s t)

module _ {J W : Type 0} ⦃lib : JsonLib J⦄ (sdk : Sdk) (c : Call J W) where
  block_text_of :
      (block : J) (s : String)
      → lib.find c.ctx.request.params "block-id" ≡ some block
      → Spells block s
      → get_block_id c ≡ (ok (some s), c)
  unfolding get_block_id
  block_text_of block s found is =
      ground
        (arith, at_found c.ctx.request.params "block-id" block found, reads-Spells c block s is)

  key_is :
      (pk id block : J) (key id_text block_text : String)
      → lib.find c.ctx.request.params "public-key" ≡ some pk
      → lib.text pk ≡ some key
      → lib.find c.ctx.request.params "block-id" ≡ some block
      → Spells block block_text
      → lib.find c.ctx.request.params "id" ≡ some id
      → Spells id id_text
      → transaction_key sdk c ≡ (ok (some (row_id key block_text id_text)), c)
  unfolding transaction_key number_id text_id check
  key_is pk id block key id_text block_text has_pk is_key has_block is_block has_id is_id =
      let pk_at = at_found c.ctx.request.params "public-key" pk has_pk in
      let key_read = string_found pk key is_key in
      let id_at = at_found c.ctx.request.params "id" id has_id in
      let block_read = block_text_of block block_text has_block is_block in
      elim is_id [
        | inl (n, is_n, e) ↦ ground (arith, number_kind id n is_n, uint64_found id n is_n)
        | inr t ↦ ground (arith, text_no_number id id_text t, reads-Spells c id id_text (inr t))
      ]

module _ {J W : Type 0} ⦃lib : JsonLib J⦄ (driver : Driver J W) (sdk : Sdk) (db : Db)
    (c : Call J W) where
  -- Without a digest, and with a key that is a text and a block id and an id that are texts or
  -- numbers, get-transaction asks the database for the row under the id that find_public_keys
  -- makes of these three, and what the database answers becomes the result.
  pub get_transaction_row :
      (pk id block found : J) (key id_text block_text : String) (w : W)
      → lib.find c.ctx.request.params "digest" ≡ none
      → lib.find c.ctx.request.params "public-key" ≡ some pk
      → lib.text pk ≡ some key
      → lib.find c.ctx.request.params "block-id" ≡ some block
      → Spells block block_text
      → lib.find c.ctx.request.params "id" ≡ some id
      → Spells id id_text
      → Getters.get_transaction_by_id driver db (row_id key block_text id_text) c.world
        ≡ (ok found, w)
      → get_transaction driver sdk db c ≡ (
        ok tt,
        record {
          ctx = record c.ctx { response = record c.ctx.response { result = found } };
          world = w;
        },
      )
  unfolding get_transaction
  get_transaction_row pk id block found key id_text block_text w no_digest has_pk is_key has_block
        is_block has_id is_id answer =
      ground (
        arith,
        key_is sdk c pk id block key id_text block_text has_pk is_key has_block is_block has_id
            is_id,
      )
