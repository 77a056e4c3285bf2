-- ===== src/Rpc/Request.antt =====
-- backend/jsonrpc/request.hpp: the HTTP request handler. A response is what the handler writes into
-- it; the library's `prepare_payload` adds the length of the body.
pub mod Laws
use Prim.Native.Char.{code}
use Prim.Native.String.{◌++◌}
use mile_explorer.Common.{
  ℕ, String, Bool, true, false, not, ◌||◌, List, [], ◌∷◌, Option, none, some, if◌then◌else◌, str_eq,
  ◌==◌, is_some,
}
use mile_explorer.Common.Exec.{
  Result, Exec, ok, throw, unknown, and_then, lift, pure, gets, ◌>>=◌, ◌>>◌,
}
use mile_explorer.Json.{JsonLib}
use mile_explorer.Rpc.Context.{Context, fresh, from_string, to_json, make_response_error_non_method}
use mile_explorer.Rpc.Container.{Container}
use mile_explorer.Rpc.Router.{Call, Method, RpcBase, apply}

pub data Verb : Type 0 where
  post options get other_verb : Verb

pub data Status : Type 0 where
  ok_200 forbidden_403 not_found_404 method_not_allowed_405 : Status

pub record HttpRequest : Type 0 where
  pub method : Verb
  pub target : String
  pub version : ℕ
  pub body : String

pub record HttpResponse : Type 0 where
  pub result : Status
  pub version : ℕ
  pub headers : List (String × String)
  pub body : String

-- `http::response<…>{status, version}`; the default status is 200.
abbrev pub response : Status → ℕ → HttpResponse
response status version = record { result = status; version = version; headers = []; body = "" }

abbrev pub fill_cors : HttpResponse → HttpResponse
fill_cors res = record res {
  headers =
      ("Access-Control-Allow-Origin", "*")
      ∷ ("Access-Control-Allow-Methods", "POST, OPTIONS")
      ∷ (
        "Access-Control-Allow-Headers",
        "DNT,User-Agent,X-Requested-With,If-Modified-Since,Cache-Control,Content-Type,Range",
      )
      ∷ ("Access-Control-Expose-Headers", "Content-Length,Content-Range")
      ∷ res.headers;
}

-- One slash at the end of the path is dropped.
unfoldable pub drop_slash : String → String
drop_slash String.[] = String.[]
drop_slash (String.◌∷◌ c String.[]) = if code c == b'/' then String.[] else String.◌∷◌ c String.[]
drop_slash (String.◌∷◌ c (String.◌∷◌ d s)) = String.◌∷◌ c (drop_slash (String.◌∷◌ d s))

abbrev pub cors : HttpRequest → HttpResponse
cors req = fill_cors (response ok_200 req.version)

module _ {J : Type 0} ⦃lib : JsonLib J⦄ where
  -- What is sent after `apply` returned true, and after it returned false.
  -- Printing may throw: the context, and for the log the parameters of what was answered.
  unfoldable pub answer : HttpRequest → Bool → Context J → Result HttpResponse
  unfolding to_json make_response_error_non_method
  answer req true ctx = and_then (to_json ctx) (λ text.
      and_then (lib.dump_line ctx.request.params)
        (λ line. ok (record (cors req) { body = text ++ "\n" })))
  answer req false ctx =
      let ctx' = if is_some ctx.response.error then ctx else make_response_error_non_method ctx in
      and_then (to_json ctx')
        (λ text. ok (record (cors req) { result = not_found_404; body = text }))

module _ {J W : Type 0} where
  abbrev in_context : {A : Type 0} → Exec (Context J) A → Exec (Call J W) A
  in_context m call = let (r, ctx) = m call.ctx in (r, record call { ctx = ctx })

module _ {J W M : Type 0} ⦃lib : JsonLib J⦄ ⦃container : Container M (Method J W)⦄ where
  serve_post : HttpRequest → RpcBase J W M → Exec (Call J W) HttpResponse
  serve_post req rpc = do
    in_context (from_string req.body)
    name ← gets (λ call. call.ctx.request.method)
    found ← apply rpc name
    ctx ← gets (λ call. call.ctx)
    lift (answer req found ctx)

  serve : HttpRequest → RpcBase J W M → Verb → Exec W HttpResponse
  unfolding serve_post
  serve req rpc post w =
      let (r, call) = serve_post req rpc (record { ctx = fresh; world = w }) in (r, call.world)
  serve req rpc options w = (ok (cors req), w)
  serve req rpc _ w = (ok (response method_not_allowed_405 req.version), w)

  unfoldable pub handle : HttpRequest → RpcBase J W M → Exec W HttpResponse
  unfolding drop_slash serve
  handle req rpc =
      if str_eq req.target "" || not (str_eq (drop_slash req.target) rpc.path)
      then pure (response forbidden_403 req.version)
      else serve req rpc req.method
