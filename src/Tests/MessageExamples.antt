-- ===== src/Tests/MessageExamples.antt =====
-- The theorems on JSON-RPC messages at concrete messages.
use mile_explorer.Common.{◌≡◌, refl, true, none, some}
use mile_explorer.Common.Exec.{ok}
use mile_explorer.Json.{JsonLib, is_object}
use mile_explorer.Json.Value.{Value, nil, str, obj, field, end, value_lib}
use mile_explorer.Rpc.Message.{RequestMessage, ResponseMessage, parse_request}
use mile_explorer.Rpc.Message.Serialize.{
  parse_response, put_present, request_object, serialize_request, response_object,
}
use mile_explorer.Rpc.Message.Laws.{
  find-response_object, parse_request-request_object, parse_response-response_object,
}
use mile_explorer.Rpc.Context.{fresh, from_string}
use mile_explorer.Rpc.Context.RoundTrip.{from_string-serialize_request}
use mile_explorer.Tests.Fixtures.{n, lib}

abbrev answered : ResponseMessage Value
answered = record { id = n 7; result = str "pong"; error = none }

find-response_object_example :
    (is_object (response_object answered) ≡ true)
    × (lib.find (response_object answered) "result" ≡ some (str "pong"))
find-response_object_example = find-response_object answered "result"

abbrev request : RequestMessage Value
request = record { id = n 7; method = "ping"; params = obj end }

parse_request-request_object_example :
    parse_request (request_object request) (record { id = nil; method = ""; params = nil })
    ≡ (ok true, request)
parse_request-request_object_example =
    parse_request-request_object request (record { id = nil; method = ""; params = nil }) refl

abbrev request_json : Value
request_json = obj (
    field "id" (n 7)
      (field "params" (obj end) (field "method" (str "ping") (field "jsonrpc" (str "2.0") end))))

-- The JSON interface where the empty text, which every document is printed as, is this request.
abbrev printing : JsonLib Value
printing = value_lib (λ text. some request_json)

printed : some request_json ≡ some (request_object ⦃lib = printing⦄ request)
unfolding request_object put_present
printed = refl

from_string-serialize_request_example : from_string ⦃lib = printing⦄ "" (fresh ⦃lib = printing⦄) ≡ (
  ok tt,
  record { request = request; response = record { id = n 7; result = nil; error = none } },
)
unfolding serialize_request
from_string-serialize_request_example =
    from_string-serialize_request ⦃lib = printing⦄ request "" refl refl printed

parse_response-response_object_example :
    parse_response (response_object answered) (record { id = nil; result = nil; error = none })
    ≡ (ok true, answered)
parse_response-response_object_example =
    parse_response-response_object answered (record { id = nil; result = nil; error = none }) refl
