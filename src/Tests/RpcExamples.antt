-- ===== src/Tests/RpcExamples.antt =====
-- The theorems on the JSON-RPC server at concrete requests, and tests.
use mile_explorer.Common.{
  ℕ, ◌+◌, String, ◌≡◌, ◌≢◌, refl, inr, ◌⊎◌, ◌↔◌, true, Option, none, some, List, [], ◌∷◌, arith,
  eq_iff,
}
use Prim.Native.String.{◌++◌}
use mile_explorer.Common.Exec.{and_then, Result, ok, throw, is_ok}
use mile_explorer.Json.Value.{Value, nil, str, obj, end}
use mile_explorer.Rpc.Container.{Container, list_container}
use mile_explorer.Rpc.Context.{
  Context, fresh, from_string, to_json, make_response_error_non_method, make_response_parse_error,
}
use mile_explorer.Rpc.Context.Parsing.{
  accepted, request_of, from_string-accepts, IsRequest, LacksParams,
}
use mile_explorer.Rpc.Router.{Call, Method, RpcBase, Registry, apply}
use mile_explorer.Rpc.Router.Laws.{method_of, apply-true}
use mile_explorer.Rpc.Request.{
  answer, Status, post, options, get, ok_200, forbidden_403, not_found_404, method_not_allowed_405,
  HttpRequest, HttpResponse, response, cors, handle, drop_slash,
}
use mile_explorer.Rpc.Request.Laws.{
  IsForPath, IsAnswer, handle_status, handle-request_of, handle_unknown, handle-LacksParams,
}
use mile_explorer.Tests.Fixtures.{n, ping_json, lost_json, bare_json, lib, db}

-- The methods' results are constants.
abbrev pong : Method Value ℕ
pong _ c = (
  ok tt,
  record c {
    ctx = record c.ctx { response = record c.ctx.response { result = str "pong" } };
    world = c.world + 1;
  },
)

abbrev Methods : Type 0
Methods = List (String × Method Value ℕ)

instance abbrev methods : Container Methods (Method Value ℕ)
methods = list_container

abbrev router : RpcBase Value ℕ Methods
router = record {
  db = db;
  version = "v1";
  target = "api";
  path = "/v1/api";
  storage = ("ping", pong) ∷ [];
}

abbrev ask : String → HttpRequest
ask body = record { method = post; target = "/v1/api/"; version = 11; body = body }

for_router : (body : String) → IsForPath router (ask body)
unfolding drop_slash
for_router body = record { nonempty = λ e. ground (arith, eq_iff "/v1/api/" ""); same = refl }

handle_status_example :
    ((¬ IsForPath router (ask "ping"))
      × (handle (ask "ping") router 0 ≡ (ok (response forbidden_403 11), 0)))
    ⊎ ((IsForPath router (ask "ping")
          × (post ≢ post)
          × (post ≢ options)
          × (handle (ask "ping") router 0 ≡ (ok (response method_not_allowed_405 11), 0)))
        ⊎ ((IsForPath router (ask "ping")
              × (post ≡ options)
              × (handle (ask "ping") router 0 ≡ (ok (cors (ask "ping")), 0)))
            ⊎ (IsForPath router (ask "ping")
                × (post ≡ post)
                × IsAnswer Value (ask "ping") (handle (ask "ping") router 0).0)))
handle_status_example = handle_status (ask "ping") router 0

from_string-accepts_example :
    accepted (from_string "ping" (fresh {J = Value})).1 ≡ request_of {J = Value} "ping"
from_string-accepts_example = from_string-accepts "ping"

is_ping : IsRequest "ping" (n 7) "ping" (obj end)
is_ping = record {
  json = ping_json;
  version = str "2.0";
  name_of = str "ping";
  parses = refl;
  an_object = refl;
  has_version = refl;
  is_two = refl;
  has_id = refl;
  has_method = refl;
  method_text = refl;
  has_params = inr (refl, refl);
}

is_lost : IsRequest "lost" (n 7) "lost" (obj end)
is_lost = record {
  json = lost_json;
  version = str "2.0";
  name_of = str "lost";
  parses = refl;
  an_object = refl;
  has_version = refl;
  is_two = refl;
  has_id = refl;
  has_method = refl;
  method_text = refl;
  has_params = inr (refl, refl);
}

is_bare : LacksParams "bare" (n 7) "ping"
is_bare = record {
  json = bare_json;
  version = str "2.0";
  name_of = str "ping";
  parses = refl;
  an_object = refl;
  has_version = refl;
  is_two = refl;
  has_id = refl;
  has_method = refl;
  method_text = refl;
  no_param = refl;
  no_params = refl;
}

-- What a new context is after a request with this id, method and parameters.
abbrev asked : String → Value → Context Value
asked name params = record {
  request = record { id = n 7; method = name; params = params };
  response = record { id = n 7; result = nil; error = none };
}

abbrev called : Call Value ℕ
called = (pong db (record { ctx = asked "ping" (obj end); world = 0 })).1

handle-request_of_example : handle (ask "ping") router 0 ≡ (
  and_then (to_json called.ctx) (λ text.
      and_then
        (lib.dump_line called.ctx.request.params)
        (λ line. ok (record (cors (ask "ping")) { body = text ++ "\n" }))),
  1,
)
handle-request_of_example =
    handle-request_of (ask "ping") router 0 (n 7) "ping" (obj end) pong called (for_router "ping")
      refl is_ping refl refl

handle_unknown_example : handle (ask "lost") router 0 ≡ (
  and_then
      (to_json (make_response_error_non_method (asked "lost" (obj end))))
      (λ text. ok (record (cors (ask "lost")) { result = not_found_404; body = text })),
  0,
)
handle_unknown_example =
    handle_unknown (ask "lost") router 0 (n 7) "lost" (obj end) (for_router "lost") refl is_lost
      refl

abbrev refused : Context Value
refused =
    make_response_parse_error "json-rpc: unknown parse error"
      (record (fresh {J = Value}) { request = record { id = n 7; method = "ping"; params = nil } })

abbrev called_anyway : Call Value ℕ
called_anyway = (pong db (record { ctx = refused; world = 0 })).1

handle-LacksParams_example : handle (ask "bare") router 0 ≡ (
  and_then (to_json called_anyway.ctx) (λ text.
      and_then
        (lib.dump_line called_anyway.ctx.request.params)
        (λ line. ok (record (cors (ask "bare")) { body = text ++ "\n" }))),
  1,
)
handle-LacksParams_example =
    handle-LacksParams (ask "bare") router 0 (n 7) "ping" pong called_anyway (for_router "bare")
      refl is_bare refl refl

abbrev registry : Registry Value ℕ Methods
registry = record { params = nil; storage = ("ping", pong) ∷ ("help", pong) ∷ [] }

abbrev call : Call Value ℕ
call = record { ctx = asked "ping" (obj end); world = 0 }

apply-true_example :
    (is_ok (apply router "ping" call).0 ≡ true)
    × (((apply router "ping" call).0 ≡ ok true) ↔ (
        (f : Method Value ℕ) × (method_of router "ping" ≡ some f) × ((f router.db call).0 ≡ ok tt)))
apply-true_example = apply-true router "ping" call

-- The answer to a request for a method that is there, and for one that is not.
abbrev status_of : Result HttpResponse × ℕ → Option Status
status_of (ok res, w) = some res.result
status_of (throw e, w) = none

status_tests :
    (status_of (handle (ask "ping") router 0) ≡ some ok_200)
    × (status_of (handle (ask "lost") router 0) ≡ some not_found_404)
    × (status_of (handle (ask "{") router 0) ≡ some not_found_404)
    × (status_of (handle (ask "bare") router 0) ≡ some ok_200)
    × (status_of (handle (record (ask "ping") { method = get }) router 0)
        ≡ some method_not_allowed_405)
    × (status_of (handle (record (ask "ping") { target = "/v1" }) router 0) ≡ some forbidden_403)
unfolding handle apply answer from_string
status_tests = (refl, refl, refl, refl, refl, refl)
