-- ===== src/Rpc/Message/Laws.antt =====
-- backend/jsonrpc/message.hpp: what the serialized objects hold, and that `parse` reads them back.
use mile_explorer.Common.{
  String, ◌≡◌, refl, true, false, not, ◌&&◌, Option, none, some, arith, is_some, if◌then◌else◌,
  str_eq,
}
use mile_explorer.Common.Exec.{ok}
use mile_explorer.Json.{JsonLib, is_null, is_object}
use mile_explorer.Json.Laws.{object_put, object_first, find_object, find_first}
use mile_explorer.Rpc.Message.{
  RequestMessage, ResponseMessage, ResponseError, is_request, parse_request, is_response,
}
use mile_explorer.Rpc.Message.Serialize.{
  put_present, put_error, error_object, request_object, response_object, parse_response,
}

module _ {J : Type 0} ⦃lib : JsonLib J⦄ where
  -- What an object has after `put_present`.
  find_present :
      (j : J) (k : String) (v : J) (k' : String)
      → is_object j ≡ true
      → lib.find (put_present j k v) k'
        ≡ (if is_null v then lib.find j k' else if str_eq k k' then some v else lib.find j k')
  unfolding put_present
  find_present j k v k' h = ground (arith, find_object j k v k')

  object_present :
      (j : J) (k : String) (v : J) → is_object j ≡ true → is_object (put_present j k v) ≡ true
  unfolding put_present
  object_present j k v h = ground (arith, object_put j k v)

  find_error :
      (j : J) (e : Option (ResponseError J)) (k : String)
      → is_object j ≡ true
      → lib.find (put_error j e) k ≡ elim e [
        | none ↦ lib.find j k
        | some error ↦ if str_eq "error" k then some (error_object error) else lib.find j k
      ]
  unfolding put_error
  find_error j none k h = refl
  find_error j (some e) k h = find_object j "error" (error_object e) k h

  object_error :
      (j : J) (e : Option (ResponseError J)) → is_object j ≡ true → is_object (put_error j e) ≡ true
  unfolding put_error
  object_error j none h = h
  object_error j (some e) h = object_put j "error" (error_object e) h

  -- The members of a serialized response, by name.
  abbrev pub response_member : ResponseMessage J → String → Option J
  response_member msg k =
      if str_eq "id" k
      then some msg.id
      else if is_some msg.error && str_eq "error" k
      then elim msg.error [ none ↦ none | some e ↦ some (error_object e) ]
      else if not (is_null msg.result) && str_eq "result" k
      then some msg.result
      else if str_eq "jsonrpc" k
      then some (lib.of_string "2.0")
      else none

  -- A serialized response is an object with the version 2.0 and the id, "error" exactly if the
  -- message has one, "result" exactly if that is not null, and no other member.
  pub find-response_object :
      (msg : ResponseMessage J) (k : String)
      → (is_object (response_object msg) ≡ true)
        × (lib.find (response_object msg) k ≡ response_member msg k)
  unfolding response_object
  find-response_object msg k =
      let o = lib.put lib.null_value "jsonrpc" (lib.of_string "2.0") in
      let o_obj = object_first "jsonrpc" (lib.of_string "2.0") in
      let r = put_present o "result" msg.result in
      let r_obj = object_present o "result" msg.result o_obj in
      let e = put_error r msg.error in
      let e_obj = object_error r msg.error r_obj in
      (
        object_put e "id" msg.id e_obj,
        ground (
          arith,
          find_object e "id" msg.id k e_obj,
          find_error r msg.error k r_obj,
          find_present o "result" msg.result k o_obj,
          find_first "jsonrpc" (lib.of_string "2.0") k,
        ),
      )

  -- The members of a serialized request, by name.
  abbrev pub request_member : RequestMessage J → String → Option J
  request_member msg k =
      if str_eq "id" k
      then some msg.id
      else if not (is_null msg.params) && str_eq "params" k
      then some msg.params
      else if str_eq "method" k
      then some (lib.of_string msg.method)
      else if str_eq "jsonrpc" k
      then some (lib.of_string "2.0")
      else none

  pub find-request_object :
      (msg : RequestMessage J) (k : String)
      → (is_object (request_object msg) ≡ true)
        × (lib.find (request_object msg) k ≡ request_member msg k)
  unfolding request_object
  find-request_object msg k =
      let o = lib.put lib.null_value "jsonrpc" (lib.of_string "2.0") in
      let o_obj = object_first "jsonrpc" (lib.of_string "2.0") in
      let m = lib.put o "method" (lib.of_string msg.method) in
      let m_obj = object_put o "method" (lib.of_string msg.method) o_obj in
      let p = put_present m "params" msg.params in
      let p_obj = object_present m "params" msg.params m_obj in
      (
        object_put p "id" msg.id p_obj,
        ground (
          arith,
          find_object p "id" msg.id k p_obj,
          find_present m "params" msg.params k m_obj,
          find_object o "method" (lib.of_string msg.method) k o_obj,
          find_first "jsonrpc" (lib.of_string "2.0") k,
        ),
      )

  -- parse reads a serialized request back, whatever it writes into, if the parameters are not
  -- null.
  pub parse_request-request_object :
      (msg r : RequestMessage J)
      → is_null msg.params ≡ false
      → parse_request (request_object msg) r ≡ (ok true, msg)
  unfolding parse_request is_request
  parse_request-request_object msg r h =
      let j = request_object msg in
      let an_object = (find-request_object msg "id").0 in
      let member = λ (k : String). (find-request_object msg k).1 in
      ground (
        arith,
        an_object,
        member "id",
        member "method",
        member "param",
        member "params",
        lib.at_lem j "id",
        lib.at_lem j "method",
        lib.at_lem j "params",
        lib.text_kind (lib.of_string msg.method),
        lib.text_string msg.method,
        lib.get_string_lem (lib.of_string msg.method),
      )

  -- The overload of parse for responses reads back the id and the result of a serialized response
  -- whose result is not null, and leaves the error as it was.
  pub parse_response-response_object :
      (msg r : ResponseMessage J)
      → is_null msg.result ≡ false
      → parse_response (response_object msg) r ≡ (ok true, record msg { error = r.error })
  unfolding parse_response is_response
  parse_response-response_object msg r h =
      let j = response_object msg in
      let an_object = (find-response_object msg "id").0 in
      let member = λ (k : String). (find-response_object msg k).1 in
      ground (
        arith,
        an_object,
        member "id",
        member "method",
        member "result",
        lib.at_lem j "id",
        lib.at_lem j "result",
      )
