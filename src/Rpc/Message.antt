-- ===== src/Rpc/Message.antt =====
-- backend/jsonrpc/message.hpp: the messages, their tests, and what is serialized. `boost::optional`
-- is `Option`; the overloads that differ only in how they convert an argument are one function.
pub mod Serialize
pub mod Laws
use mile_explorer.Common.{
  String, Bool, true, false, not, ◌&&◌, Option, if◌then◌else◌, is_some, str_eq,
}
use mile_explorer.Common.Int.{ℤ, negsuc}
use mile_explorer.Common.Exec.{Result, Exec, ok, and_then, pure, lift, modify, ◌>>=◌, ◌>>◌}
use mile_explorer.Json.{JsonLib, is_object, is_string}

pub record RequestMessage (J : Type 0) : Type 0 where
  pub id : J
  pub method : String
  pub params : J

-- The constructor of `response_error` leaves `data` null.
pub record ResponseError (J : Type 0) : Type 0 where
  pub code : ℤ
  pub message : String
  pub extra : J

pub record ResponseMessage (J : Type 0) : Type 0 where
  pub id : J
  pub result : J
  pub error : Option (ResponseError J)

pub record NotifyMessage (J : Type 0) : Type 0 where
  pub method : String
  pub params : J

pub data ErrorCode : Type 0 where
  parse_error invalid_request method_not_found invalid_params internal_error : ErrorCode
  server_error_start server_error_end server_not_initialized unknown_error_code : ErrorCode

-- An enumerator with no value is one above the enumerator before it.
abbrev pub code_value : ErrorCode → ℤ
code_value parse_error = negsuc 32699
code_value invalid_request = negsuc 32599
code_value method_not_found = negsuc 32600
code_value invalid_params = negsuc 32601
code_value internal_error = negsuc 32602
code_value server_error_start = negsuc 32098
code_value server_error_end = negsuc 31999
code_value server_not_initialized = negsuc 31998
code_value unknown_error_code = negsuc 32000

module _ {J : Type 0} ⦃lib : JsonLib J⦄ where
  unfoldable pub response_error : ErrorCode → String → ResponseError J
  response_error c message = record {
    code = code_value c;
    message = message;
    extra = lib.null_value;
  }

  abbrev pub contains : J → String → Bool
  contains msg key = is_some (lib.find msg key)

  unfoldable pub is_notify : J → Bool
  is_notify msg = is_object msg && not (contains msg "id")

  unfoldable pub is_jsonrpc : J → Bool
  is_jsonrpc msg = is_object msg && contains msg "jsonrpc"

  -- `&&` reads the version only of an object that has the key.
  unfoldable pub is_valid_version : J → Result Bool
  is_valid_version msg =
      if is_object msg && contains msg "jsonrpc"
      then and_then (lib.at msg "jsonrpc")
          (λ v. and_then (lib.get_string v) (λ s. ok (str_eq s "2.0")))
      else ok false

  unfoldable pub is_request : J → Result Bool
  is_request msg =
      if is_object msg && contains msg "method"
      then and_then (lib.at msg "method") (λ m. ok (is_string m))
      else ok false

  unfoldable pub is_response : J → Bool
  is_response msg = is_object msg && not (contains msg "method") && contains msg "id"

  -- The first of the two spellings of the parameters that is there; "params" is read with `at`.
  read_params : J → Result J
  read_params msg = if contains msg "param" then lib.at msg "param" else lib.at msg "params"

  -- The id is written before the message is known to be a request.
  unfoldable pub parse_request : J → Exec (RequestMessage J) Bool
  unfolding is_request read_params
  parse_request msg = do
    id ← lift (lib.at msg "id")
    modify (λ r. record r { id = id })
    valid ← lift (is_request msg)
    if not valid then pure false else do
      m ← lift (lib.at msg "method")
      method ← lift (lib.get_string m)
      modify (λ r. record r { method = method })
      params ← lift (read_params msg)
      modify (λ r. record r { params = params })
      pure true
