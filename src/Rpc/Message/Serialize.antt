-- ===== src/Rpc/Message/Serialize.antt =====
-- backend/jsonrpc/message.hpp: the objects that `serialize` prints, and the readers of a message.
use mile_explorer.Common.{
  ℕ, String, Bool, true, false, not, ◌||◌, Option, none, some, if◌then◌else◌,
}
use mile_explorer.Json.{JsonLib, is_object, is_string, is_null}
use mile_explorer.Common.Exec.{Exec, Result, ok, pure, lift, modify, ◌>>=◌, ◌>>◌}
use mile_explorer.Rpc.Message.{
  RequestMessage, ResponseMessage, ResponseError, NotifyMessage, contains, is_notify, is_response,
}

abbrev pub pretty_indent : ℕ
pretty_indent = 4

module _ {J : Type 0} ⦃lib : JsonLib J⦄ where
  -- `if (!value.is_null()) obj[key] = value;`
  unfoldable pub put_present : J → String → J → J
  put_present o key v = if not (is_null v) then lib.put o key v else o

  unfoldable pub request_object : RequestMessage J → J
  unfolding put_present
  request_object msg =
      let o = lib.put lib.null_value "jsonrpc" (lib.of_string "2.0") in
      let o' = lib.put o "method" (lib.of_string msg.method) in
      lib.put (put_present o' "params" msg.params) "id" msg.id

  unfoldable pub error_object : ResponseError J → J
  unfolding put_present
  error_object e =
      let o = lib.put lib.null_value "code" (lib.of_int e.code) in
      put_present (lib.put o "message" (lib.of_string e.message)) "data" e.extra

  -- `if (msg.error) obj["error"] = …;`
  unfoldable pub put_error : J → Option (ResponseError J) → J
  unfolding error_object
  put_error o none = o
  put_error o (some e) = lib.put o "error" (error_object e)

  unfoldable pub response_object : ResponseMessage J → J
  unfolding put_present put_error
  response_object msg =
      let o = lib.put lib.null_value "jsonrpc" (lib.of_string "2.0") in
      lib.put (put_error (put_present o "result" msg.result) msg.error) "id" msg.id

  unfoldable pub notify_object : NotifyMessage J → J
  unfolding put_present
  notify_object msg =
      let o = lib.put lib.null_value "jsonrpc" (lib.of_string "2.0") in
      put_present (lib.put o "method" (lib.of_string msg.method)) "params" msg.params

  unfoldable pub serialize_request : RequestMessage J → Result String
  unfolding request_object
  serialize_request msg = lib.dump pretty_indent (request_object msg)

  unfoldable pub serialize_response : ResponseMessage J → Result String
  unfolding response_object
  serialize_response msg = lib.dump pretty_indent (response_object msg)

  unfoldable pub serialize_notify : NotifyMessage J → Result String
  unfolding notify_object
  serialize_notify msg = lib.dump pretty_indent (notify_object msg)

  -- `namespace request`: no version is written.
  unfoldable pub bare_request_object : J → String → J → J
  unfolding put_present
  bare_request_object id method param =
      lib.put (put_present (lib.put lib.null_value "method" (lib.of_string method)) "params" param)
        "id" id

  -- `namespace notify`
  unfoldable pub bare_notify_object : String → J → J
  unfolding put_present
  bare_notify_object method param =
      put_present (lib.put lib.null_value "method" (lib.of_string method)) "params" param

  -- `namespace responce`
  unfoldable pub bare_response_object : J → J → Bool → J
  bare_response_object id result error =
      lib.put (lib.put lib.null_value (if error then "error" else "result") result) "id" id

  read_member : J → String → J
  read_member msg key = elim (lib.find msg key) [ none ↦ lib.null_value | some v ↦ v ]

  -- A message with no such member gives the static null.
  unfoldable pub get_param : J → J
  unfolding read_member
  get_param msg =
      if not (is_object msg) || not (contains msg "params")
      then lib.null_value
      else read_member msg "params"

  unfoldable pub get_id : J → J
  unfolding read_member
  get_id msg =
      if not (is_object msg) || not (contains msg "id")
      then lib.null_value
      else read_member msg "id"

  -- `get_method` returns its static buffer, so the method of an earlier message comes back when the
  -- message has none: the buffer is an argument and part of the result.
  unfoldable pub get_method : J → Exec String String
  get_method msg = do
    if not (is_object msg) || not (contains msg "method")
        then (λ buffer. (ok buffer, buffer))
        else do
          method ← lift (lib.at msg "method")
          if not (is_string method)
              then (λ buffer. (ok buffer, buffer))
              else do text ← lift (lib.get_string method); modify (λ _. text); pure text

  -- The overloads of `parse` for notifications and responses.
  unfoldable pub parse_notify : J → Exec (NotifyMessage J) Bool
  parse_notify msg = if not (is_notify msg) then pure false else do
    m ← lift (lib.at msg "method")
    method ← lift (lib.get_string m)
    modify (λ n. record n { method = method })
    params ← lift (if contains msg "param" then lib.at msg "param" else lib.at msg "params")
    modify (λ n. record n { params = params })
    pure true

  unfoldable pub parse_response : J → Exec (ResponseMessage J) Bool
  parse_response msg = if not (is_response msg) then pure false else do
    id ← lift (lib.at msg "id")
    modify (λ r. record r { id = id })
    result ← lift (lib.at msg "result")
    modify (λ r. record r { result = result })
    pure true
