-- ===== src/Db/Transactions.antt =====
-- common/src/db/transactions/transactions.cpp: the rows that are made of a transaction. `at` stands
-- for `operator[]` on a const document, whose behaviour is undefined where the key is missing.
pub mod Ids
pub mod Rows
use Prim.Native.String.{◌++◌, compare}
use Prim.Native.Nat.{Ordering, min}
use mile_explorer.Common.{
  ℕ, zero, suc, ◌+◌, String, Bool, true, false, not, ◌||◌, Option, none, some, List, [], ◌∷◌,
  if◌then◌else◌, is_some,
}
use mile_explorer.Common.Exec.{Exec, Result, ok, throw, and_then, pure, lift, ◌>>=◌, ◌>>◌}
use mile_explorer.Common.Text.{codes, stoull, substr}
use mile_explorer.Common.Lists.{length}
use mile_explorer.Json.{JsonLib, is_string, is_number, is_array}
use mile_explorer.Driver.{Driver, Sdk}
use mile_explorer.Db.{Db}
use mile_explorer.Db.Name
use mile_explorer.Db.Cursor.{get_data, get}
use mile_explorer.Db.Getters.{table_cursor}
use mile_explorer.Db.Table.{open_table, insert, update_arrays}

-- `std::map` with text keys: sorted, and an assignment replaces.
abbrev pub put_sorted : String → String → List (String × String) → List (String × String)
put_sorted k v [] = (k, v) ∷ []
put_sorted k v ((j, w) ∷ rest) = elim (compare k j) [
  | Ordering.lt ↦ (k, v) ∷ (j, w) ∷ rest
  | Ordering.eq ↦ (k, v) ∷ rest
  | Ordering.gt ↦ (j, w) ∷ put_sorted k v rest
]

-- The id of a transaction's row: the key, the block and the number, with colons between.
abbrev pub row_id : String → String → String → String
row_id address block_id trx_id = (((address ++ ":") ++ block_id) ++ ":") ++ trx_id

module _ {J : Type 0} ⦃lib : JsonLib J⦄ where
  unfoldable pub replace_keys : String → String → J → J
  replace_keys key_from key_to trx = elim (lib.find trx key_from) [
    | none ↦ trx
    | some v ↦ lib.erase (lib.put trx key_to v) key_from
  ]

  abbrev pub replace_all : List (String × String) → J → J
  replace_all [] trx = trx
  replace_all ((from, to) ∷ rest) trx = replace_all rest (replace_keys from to trx)

  unfoldable pub public_key_rows :
      J → String → List String → List (String × String) → Result (List (String × String))
  public_key_rows trx block_id [] ret = ok ret
  public_key_rows trx block_id (address_name ∷ names) ret =
      let skip = public_key_rows trx block_id names ret in
      elim (lib.find trx address_name) [
        | none ↦ skip
        | some v ↦ and_then (lib.get_string v) (λ address.
            and_then (lib.at trx "transaction-id") (λ number.
              and_then (lib.get_string number) (λ trx_id.
                public_key_rows trx block_id names
                  (put_sorted address (row_id address block_id trx_id) ret))))
      ]

  unfoldable pub find_public_keys : J → String → Result (List (String × String))
  unfolding public_key_rows
  find_public_keys trx block_id = public_key_rows trx block_id ("from" ∷ "public-key" ∷ []) []

  -- A number is printed; what is neither a text nor a number stays.
  unfoldable pub text_number : J → Result J
  text_number trx = and_then (lib.index trx "transaction-id") (λ number.
      if is_string number
      then and_then (lib.get_string number)
          (λ s. ok (lib.put trx "transaction-id" (lib.of_string s)))
      else if is_number number
      then ok (lib.put trx "transaction-id" (lib.of_string (lib.print number)))
      else ok (lib.put trx "transaction-id" number))

  unfoldable pub short_description : Sdk → J → Result J
  short_description sdk trx = elim (lib.find trx "description") [
    | none ↦ ok trx
    | some description ↦ and_then (lib.get_string description) (λ desc. ok (
        lib.put trx "description"
          (lib.of_string (substr desc (min (length (codes desc)) sdk.description_max_length)))))
  ]

  -- What the loop of `add_stream_transaction` writes into its copy of the transaction.
  unfoldable pub stream_row : Sdk → String → ℕ → ℕ → J → Result J
  unfolding text_number replace_keys short_description
  stream_row sdk uniq_id block_id t trx =
      let placed =
        lib.put (lib.put trx "id" (lib.of_string uniq_id)) "block-id" (lib.of_uint block_id) in
      and_then (text_number (lib.put placed "timestamp" (lib.of_uint t)))
        (λ numbered. short_description sdk (replace_all Name.get_replacement_keys numbered))

module _ {J : Type 0} ⦃lib : JsonLib J⦄ (sdk : Sdk) where
  -- The row that stands for a block with no transactions.
  unfoldable pub marker_row : ℕ → ℕ → Result J
  marker_row block_id t =
      let id = sdk.uint256_to_dec_string block_id in
      and_then (stoull id) (λ n. ok (
        lib.put
          (lib.put
            (lib.put (lib.put lib.null_value "id" (lib.of_string id)) "block-id" (lib.of_uint n))
            "transaction-type" (lib.of_string "__processing__"))
          "timestamp" (lib.of_uint t)))

module _ {J W : Type 0} ⦃lib : JsonLib J⦄ (driver : Driver J W) (sdk : Sdk) where
  -- The rows go to the end of `output_trx`. The row that is looked up is the one under the block's
  -- id, for each of the keys.
  stream_rows : Db → String → ℕ → List (String × String) → J → J → ℕ → Exec W (J × ℕ)
  unfolding stream_row
  stream_rows db id t [] trx output_trx count = pure (output_trx, count)
  stream_rows db id t ((address, uniq_id) ∷ rest) trx output_trx count = do
    row ← get_data (get (table_cursor driver db Name.transactions_processing) id)
    if is_some (lib.find row "id") then stream_rows db id t rest trx output_trx count else do
      block_id ← lift (stoull id)
      trx' ← lift (stream_row sdk uniq_id block_id t trx)
      stream_rows db id t rest trx' (lib.push_back output_trx trx') (count + 1)

  unfoldable pub add_stream_transaction : Db → J → ℕ → ℕ → J → Exec W (J × ℕ)
  unfolding find_public_keys stream_rows
  add_stream_transaction db input_trx block_id t output_trx = do
    let id = sdk.uint256_to_dec_string block_id
    keys ← lift (find_public_keys input_trx id)
    stream_rows db id t keys input_trx output_trx 0

  -- The second job of `add_transactions`: the rows of all transactions of the block.
  stream_all : Db → ℕ → ℕ → List J → J → Exec W J
  unfolding add_stream_transaction
  stream_all db block_id t [] stream = pure stream
  stream_all db block_id t (trx ∷ rest) stream = do
    added ← add_stream_transaction db trx block_id t stream
    stream_all db block_id t rest added.0

  unfoldable pub stream_job : Db → J → ℕ → ℕ → Exec W Unit
  unfolding stream_all
  stream_job db transactions block_id t = do
    stream ← stream_all db block_id t (lib.items transactions) lib.null_value
    insert driver (open_table db Name.transactions_processing) stream
