-- ===== src/Rpc/Context.antt =====
-- backend/jsonrpc/context.hpp and context.cpp: a request and the response that it gets.
pub mod Parsing
pub mod RoundTrip
use mile_explorer.Common.{String, Bool, true, false, not, none, some, if◌then◌else◌, str_eq}
use mile_explorer.Common.Exec.{
  Result, Exec, Exception, JsonError, ok, throw, json_error, pure, lift, modify, catch, ◌>>=◌, ◌>>◌,
}
use mile_explorer.Json.{JsonLib}
use mile_explorer.Rpc.Message.{
  RequestMessage, ResponseMessage, ErrorCode, response_error, is_valid_version, is_jsonrpc,
  is_notify, parse_request,
}
use mile_explorer.Rpc.Message.Serialize.{serialize_response}

pub record Context (J : Type 0) : Type 0 where
  pub request : RequestMessage J
  pub response : ResponseMessage J

module _ {J : Type 0} ⦃lib : JsonLib J⦄ where
  -- The default constructor.
  abbrev pub fresh : Context J
  fresh = record {
    request = record { id = lib.null_value; method = ""; params = lib.null_value };
    response = record { id = lib.null_value; result = lib.null_value; error = none };
  }

  pub set_error : ErrorCode → String → Context J → Context J
  unfolding response_error
  set_error c text ctx = record ctx {
    response = record ctx.response { error = some (response_error c text) };
  }

  unfoldable pub make_response_parse_error : String → Context J → Context J
  unfolding set_error
  make_response_parse_error text ctx =
      if str_eq text ""
      then set_error ErrorCode.parse_error "ParseError" ctx
      else set_error ErrorCode.parse_error text ctx

  unfoldable pub make_response_internal_error : Context J → Context J
  unfolding set_error
  make_response_internal_error = set_error ErrorCode.internal_error "InternalError"

  unfoldable pub make_response_error_non_method : Context J → Context J
  unfolding set_error
  make_response_error_non_method = set_error ErrorCode.method_not_found "MethodNotFound"

  unfoldable pub make_response_invalid_request : Context J → Context J
  unfolding set_error
  make_response_invalid_request = set_error ErrorCode.invalid_request "InvalidRequest"

  -- `parse` takes the request of the context by reference.
  abbrev in_request : {A : Type 0} → Exec (RequestMessage J) A → Exec (Context J) A
  in_request m ctx = let (r, request) = m ctx.request in (r, record ctx { request = request })

  -- The body of the `try` block of `from_string`.
  read_message : String → Exec (Context J) Unit
  unfolding is_valid_version parse_request is_jsonrpc is_notify make_response_parse_error
      make_response_invalid_request
  read_message name = do
    json ← lift (lib.parse name)
    valid ← lift (is_valid_version json)
    if not valid
        then (do
          id ← lift (lib.at json "id")
          modify (λ ctx. record ctx { request = record ctx.request { id = id } })
          modify (make_response_parse_error "WrongVersion"))
        else (do
          parsed ← in_request (parse_request json)
          if not parsed then modify make_response_invalid_request else do
            modify (λ ctx. record ctx { response = record ctx.response { id = ctx.request.id } })
            if not (is_jsonrpc json)
                then modify make_response_invalid_request
                else if is_notify json
                then modify make_response_invalid_request
                else pure tt)

  recover : Exception → Exec (Context J) Unit
  unfolding make_response_parse_error
  recover (json_error JsonError.parse_error what) = modify (make_response_parse_error what)
  recover _ = modify (make_response_parse_error "json-rpc: unknown parse error")

  unfoldable pub from_string : String → Exec (Context J) Unit
  unfolding read_message recover
  from_string name = catch (read_message name) recover

  unfoldable pub to_json : Context J → Result String
  unfolding serialize_response
  to_json ctx = serialize_response ctx.response
