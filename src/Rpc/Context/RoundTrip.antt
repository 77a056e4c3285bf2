-- ===== src/Rpc/Context/RoundTrip.antt =====
-- What the server makes of a request that the client functions of message.hpp serialize.
use mile_explorer.Common.{String, ◌≡◌, false, none, some, arith, inr}
use mile_explorer.Common.Exec.{ok}
use mile_explorer.Json.{JsonLib, is_null}
use mile_explorer.Rpc.Message.{RequestMessage}
use mile_explorer.Rpc.Message.Serialize.{request_object, serialize_request}
use mile_explorer.Rpc.Message.Laws.{find-request_object}
use mile_explorer.Rpc.Context.{fresh, from_string}
use mile_explorer.Rpc.Context.Parsing.{IsRequest, from_string-IsRequest}

module _ {J : Type 0} ⦃lib : JsonLib J⦄ where
  serialized-IsRequest :
      (msg : RequestMessage J) (text : String)
      → is_null msg.params ≡ false
      → lib.parsed text ≡ some (request_object msg)
      → IsRequest text msg.id msg.method msg.params
  serialized-IsRequest msg text h printed =
      let an_object = (find-request_object msg "id").0 in
      let member = λ (k : String). (find-request_object msg k).1 in
      record {
        json = request_object msg;
        version = lib.of_string "2.0";
        name_of = lib.of_string msg.method;
        parses = printed;
        an_object = an_object;
        has_version = ground (arith, member "jsonrpc");
        is_two = lib.text_string "2.0";
        has_id = ground (arith, member "id");
        has_method = ground (arith, member "method");
        method_text = lib.text_string msg.method;
        has_params = inr (ground (arith, member "param"), ground (arith, member "params"));
      }

  -- If the JSON library prints a request whose parameters are not null, and parses that text to
  -- what it printed, from_string reads the serialized request back into a new context, with no
  -- error and the response under its id.
  pub from_string-serialize_request :
      (msg : RequestMessage J) (text : String)
      → is_null msg.params ≡ false
      → serialize_request msg ≡ ok text
      → lib.parsed text ≡ some (request_object msg)
      → from_string text fresh ≡ (
        ok tt,
        record {
          request = msg;
          response = record { id = msg.id; result = lib.null_value; error = none };
        },
      )
  from_string-serialize_request msg text h serialized printed =
      from_string-IsRequest text msg.id msg.method msg.params
        (serialized-IsRequest msg text h printed)
