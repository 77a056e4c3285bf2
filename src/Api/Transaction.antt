-- ===== src/Api/Transaction.antt =====
-- backend/api/get_transaction.cpp: a transaction by its digest, or by an id that is built from the
-- parameters.
pub mod Laws
use Prim.Native.String.{◌++◌}
use mile_explorer.Common.{
  ℕ, String, Bool, true, false, not, Option, none, some, if◌then◌else◌, is_some,
}
use mile_explorer.Common.Exec.{Exec, Result, ok, throw, pure, lift, gets, modify, ◌>>=◌, ◌>>◌}
use mile_explorer.Common.Text.{to_string}
use mile_explorer.Json.{JsonLib, is_number}
use mile_explorer.Driver.{Driver, Sdk}
use mile_explorer.Db.{Db}
use mile_explorer.Db.Getters
use mile_explorer.Rpc.Router.{Call, Method}
use mile_explorer.Api.Params.{check, error, param_at, param_string}
use mile_explorer.Api.Methods.{in_world, set_result}

module _ {J W : Type 0} ⦃lib : JsonLib J⦄ where
  -- `ctx.request.params.count(name)`
  abbrev has_param : String → Exec (Call J W) Bool
  has_param name = gets (λ (c : Call J W). is_some (lib.find c.ctx.request.params name))

  -- A number is printed, anything else is read as a text.
  abbrev number_or_string : J → Exec (Call J W) String
  number_or_string param =
      if is_number param
      then (do n ← lift (lib.get_uint64 param); pure (to_string n))
      else lift (lib.get_string param)

  unfoldable pub get_block_id : Exec (Call J W) (Option String)
  get_block_id = do
    found ← has_param "block-id"
    if not found then pure none else do
      block_id_param ← param_at "block-id"
      block_id ← number_or_string block_id_param
      pure (some block_id)

module _ {J W : Type 0} ⦃lib : JsonLib J⦄ (sdk : Sdk) where
  -- The id of a transaction that is given by its number: the key and the block id must be there too.
  -- `none` means that an error has been written and the method returns.
  number_id : J → Exec (Call J W) (Option String)
  unfolding get_block_id check error
  number_id param = do
    found ← check sdk "public-key"
    if not found then pure none else do
      public_key ← param_string "public-key"
      block_id ← get_block_id
      elim block_id [
        | none ↦ do error sdk "block-id"; pure none
        | some block ↦ do
          n ← lift (lib.get_uint64 param)
          pure (some ((((public_key ++ ":") ++ block) ++ ":") ++ to_string n))
      ]

  -- A text id is completed by the key and the block id that are there. Its two tests for a number
  -- are made where it is known to be none.
  text_id : J → Exec (Call J W) (Option String)
  unfolding get_block_id error
  text_id param = do
    keyed ← has_param "public-key"
    if not keyed then (do id ← lift (lib.get_string param); pure (some id)) else do
      public_key ← param_string "public-key"
      block_id ← get_block_id
      elim block_id [
        | none ↦
            if is_number param
            then (do error sdk "block-id"; pure none)
            else do id ← lift (lib.get_string param); pure (some ((public_key ++ ":") ++ id))
        | some block ↦ do
          id ← number_or_string param
          pure (some ((((public_key ++ ":") ++ block) ++ ":") ++ id))
      ]

  transaction_key : Exec (Call J W) (Option String)
  unfolding number_id text_id check
  transaction_key = do
    found ← check sdk "id"
    if not found
        then pure none
        else do param ← param_at "id"; if is_number param then number_id param else text_id param

module _ {J W : Type 0} ⦃lib : JsonLib J⦄ (driver : Driver J W) (sdk : Sdk) where
  unfoldable pub get_transaction : Method J W
  unfolding transaction_key
  get_transaction db = do
    by_digest ← has_param "digest"
    if by_digest
        then (do
          digest ← param_string "digest"
          transaction ← in_world (Getters.get_transaction_by_digest driver db digest)
          set_result transaction)
        else (do
          key ← transaction_key sdk
          elim key [
            | none ↦ pure tt
            | some id ↦ do
              transaction ← in_world (Getters.get_transaction_by_id driver db id)
              set_result transaction
          ])
