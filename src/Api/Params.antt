-- ===== src/Api/Params.antt =====
-- backend/api/params.hpp: the parameters of a request. Each check writes its error into the context.
pub mod Laws
use mile_explorer.Common.{
  ℕ, ◌-◌, ◌^◌, ◌%◌, String, Bool, true, false, Option, none, some, ltb, if◌then◌else◌, is_some, not,
}
use mile_explorer.Common.Exec.{Exec, Result, ok, throw, pure, lift, gets, modify, ◌>>=◌, ◌>>◌}
use mile_explorer.Common.Text.{stoull}
use mile_explorer.Json.{JsonLib, is_number}
use mile_explorer.Driver.{Sdk}
use mile_explorer.Rpc.Context.{Context, make_response_parse_error}
use mile_explorer.Rpc.Router.{Call, on_ctx}

-- `uint256_t(-1)`, by which `get_block_id` says that it failed.
abbrev pub no_block : ℕ
no_block = 2 ^ 256 - 1

module _ {J W : Type 0} ⦃lib : JsonLib J⦄ (sdk : Sdk) where
  unfoldable pub error : String → Exec (Call J W) Unit
  unfolding make_response_parse_error
  error param = on_ctx (make_response_parse_error (sdk.error_format "param %s has not found" param))

  unfoldable pub check : String → Exec (Call J W) Bool
  unfolding error
  check param = do
    params ← gets (λ (c : Call J W). c.ctx.request.params)
    if is_some (lib.find params param) then pure true else do error param; pure false

module _ {J W : Type 0} ⦃lib : JsonLib J⦄ where
  -- `ctx.request.params.at(name)` and what is read of it
  abbrev pub param_at : String → Exec (Call J W) J
  param_at name = do
    params ← gets (λ (c : Call J W). c.ctx.request.params)
    lift (lib.at params name)

  abbrev pub param_string : String → Exec (Call J W) String
  param_string name = do param ← param_at name; lift (lib.get_string param)

  abbrev pub param_uint64 : String → Exec (Call J W) ℕ
  param_uint64 name = do param ← param_at name; lift (lib.get_uint64 param)

module _ {J W : Type 0} ⦃lib : JsonLib J⦄ (sdk : Sdk) where
  unfoldable pub check_limit : Exec (Call J W) Bool
  unfolding check make_response_parse_error
  check_limit = do
    has_first ← check sdk "first"
    if not has_first then pure false else do
      has_limit ← check sdk "limit"
      if not has_limit then pure false else do
        limit ← param_uint64 "limit"
        if ltb 1000 limit
            then (do
              on_ctx (make_response_parse_error "limit params must be less then 1000")
              pure false)
            else pure true

  unfoldable pub get_block_id : String → Exec (Call J W) ℕ
  unfolding check make_response_parse_error
  get_block_id param_name = do
    found ← check sdk param_name
    if not found then pure no_block else do
      param ← param_at param_name
      if is_number param then lift (lib.get_uint64 param) else do
        id ← lift (lib.get_string param)
        elim (sdk.string_to_uint256 id) [
          | none ↦ do
            on_ctx (make_response_parse_error "block couldn't be converted to uint256")
            pure no_block
          | some block_id ↦ pure block_id
        ]

module _ {J W : Type 0} ⦃lib : JsonLib J⦄ where
  unfoldable pub get_transaction_id : String → Exec (Call J W) ℕ
  unfolding stoull
  get_transaction_id param_name = do
    param ← param_at param_name
    if is_number param
        then lift (lib.get_uint64 param)
        else do id ← lift (lib.get_string param); lift (stoull id)
