-- ===== src/Api/Statistics.antt =====
-- backend/api/get_statistics.cpp, get_statistics_list.cpp: the statistics that the indexer keeps.
use mile_explorer.Common.{◌%◌, ◌^◌, not, ◌&&◌, ◌==◌, if◌then◌else◌, str_eq}
use mile_explorer.Common.Exec.{Exec, pure, ◌>>=◌, ◌>>◌}
use mile_explorer.Json.{JsonLib}
use mile_explorer.Driver.{Driver, Sdk}
use mile_explorer.Db.{Db}
use mile_explorer.Db.Name
use mile_explorer.Db.Cursor.{get_data, get, between, filter}
use mile_explorer.Db.Getters.{table_cursor}
use mile_explorer.Rpc.Context.{make_response_parse_error}
use mile_explorer.Rpc.Router.{Call, Method, on_ctx}
use mile_explorer.Api.Params.{check, param_string, param_uint64}
use mile_explorer.Api.Methods.{in_world, set_result, put_result}

module _ {J W : Type 0} ⦃lib : JsonLib J⦄ (driver : Driver J W) (sdk : Sdk) where
  -- The code is read as an `unsigned short`. The lambda's results are dropped by the router.
  wallets_top : Db → Exec (Call J W) Unit
  unfolding check make_response_parse_error
  wallets_top db = do
    has_code ← check sdk "asset-code"
    if not has_code then pure tt else do
      has_limit ← check sdk "limit"
      if not has_limit then pure tt else do
        code ← param_uint64 "asset-code"
        limit ← param_uint64 "limit"
        let asset = sdk.token_from_code (code % 2 ^ 16)
        if not (asset == sdk.xdr_code) && not (asset == sdk.mile_code)
            then on_ctx (make_response_parse_error "token not found")
            else (do
              top ← in_world (
                  get_data (
                    filter (between (table_cursor driver db "wallets_top") 0 limit "position")
                      (driver.field_eq "asset-code" asset)))
              set_result top)

  unfoldable pub get_statistics : Method J W
  unfolding check wallets_top make_response_parse_error
  get_statistics db = do
    found ← check sdk "name"
    if not found then pure tt else do
      name ← param_string "name"
      if str_eq name "turnover-24"
          then (do
            turnover ←
                in_world (get_data (get (table_cursor driver db Name.turnovers) "turnovers-24"))
            set_result turnover)
          else if str_eq name "transaction-turnover"
          then (do
            turnover ← in_world (get_data (table_cursor driver db Name.transaction_turnover))
            set_result turnover)
          else if str_eq name "wallets-top"
          then wallets_top db
          else on_ctx (make_response_parse_error "statistics not found")

module _ {J : Type 0} ⦃lib : JsonLib J⦄ where
  -- `{"params": …}`
  abbrev with_params : J → J
  with_params params = lib.put lib.null_value "params" params

module _ {J W : Type 0} ⦃lib : JsonLib J⦄ where
  -- The empty object is an argument: the program reads it with the library's literal operator.
  unfoldable pub get_statistics_list : J → Method J W
  get_statistics_list empty_object db = do
    put_result "turnover-24" (with_params empty_object)
    put_result "transaction-turnover" (with_params empty_object)
    put_result "wallets-top" (
        with_params
          (lib.put (lib.put lib.null_value "asset-code" (lib.of_uint 0)) "limit" (lib.of_uint 10)))
