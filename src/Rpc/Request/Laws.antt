-- ===== src/Rpc/Request/Laws.antt =====
-- What the HTTP handler answers, on every branch.

use Prim.Native.String.{◌++◌}
use mile_explorer.Common.{
  String, ◌≡◌, ◌≢◌, ◌⊎◌, inl, inr, not, if◌then◌else◌, is_some, Bool, subst, ◌||◌, Bool-cases, refl,
  true, false, none, some, arith, str_eq, eq_iff,
}
use mile_explorer.Common.Exec.{Exception, Result, Result-cases, ok, throw, and_then}
use mile_explorer.Json.{JsonLib}
use mile_explorer.Rpc.Context.{
  Context, fresh, from_string, to_json, make_response_error_non_method, make_response_parse_error,
}
use mile_explorer.Rpc.Context.Parsing.{
  from_string_total, IsRequest, from_string-IsRequest, LacksParams, from_string-LacksParams,
}
use mile_explorer.Rpc.Container.{Container}
use mile_explorer.Rpc.Router.{Call, Method, RpcBase, apply}
use mile_explorer.Rpc.Router.Laws.{method_of, apply-true}
use mile_explorer.Rpc.Request.{
  Verb, post, options, get, other_verb, ok_200, forbidden_403, not_found_404,
  method_not_allowed_405, HttpRequest, HttpResponse, response, cors, answer, handle, drop_slash,
}

Verb-cases : (v : Verb) → (v ≡ post) ⊎ ((v ≡ options) ⊎ ((v ≢ post) × (v ≢ options)))
Verb-cases post = inl refl
Verb-cases options = inr (inl refl)
Verb-cases get = inr (inr (λ e. ground arith, λ e. ground arith))
Verb-cases other_verb = inr (inr (λ e. ground arith, λ e. ground arith))

module _ (J : Type 0) ⦃lib : JsonLib J⦄ where
  -- Printing the response or the parameters of a context throws.
  abbrev pub IsUnprintable : Context J → Exception → Type 0
  IsUnprintable ctx e = (to_json ctx ≡ throw e) ⊎ (lib.dump_line ctx.request.params ≡ throw e)

  -- An answer to a POST for this path: it is sent, lets every origin read it, and has status 200
  -- or 404; or printing what it is made of throws.
  abbrev pub IsAnswer : HttpRequest → Result HttpResponse → Type 0
  IsAnswer req (throw e) = (ctx : Context J) × IsUnprintable ctx e
  IsAnswer req (ok res) =
      (res.headers ≡ (cors req).headers) × ((res.result ≡ ok_200) ⊎ (res.result ≡ not_found_404))

module _ {J : Type 0} ⦃lib : JsonLib J⦄ where
  printed-IsAnswer :
      (req : HttpRequest) (ctx : Context J) (text line : Result String)
      → to_json ctx ≡ text
      → lib.dump_line ctx.request.params ≡ line
      → IsAnswer J req
          (and_then text (λ t. and_then line (λ l. ok (record (cors req) { body = t ++ "\n" }))))
  printed-IsAnswer req ctx (throw e) line h k = (ctx, inl h)
  printed-IsAnswer req ctx (ok t) (throw e) h k = (ctx, inr k)
  printed-IsAnswer req ctx (ok t) (ok l) h k = (refl, inl refl)

  lost-IsAnswer :
      (req : HttpRequest) (ctx : Context J) (text : Result String)
      → to_json ctx ≡ text
      → IsAnswer J req
          (and_then text (λ t. ok (record (cors req) { result = not_found_404; body = t })))
  lost-IsAnswer req ctx (throw e) h = (ctx, inl h)
  lost-IsAnswer req ctx (ok t) h = (refl, inr refl)

  answer-IsAnswer :
      (req : HttpRequest) (found : Bool) (ctx : Context J) → IsAnswer J req (answer req found ctx)
  unfolding answer
  answer-IsAnswer req true ctx =
      printed-IsAnswer req ctx (to_json ctx) (lib.dump_line ctx.request.params) refl refl
  answer-IsAnswer req false ctx =
      let ctx' = if is_some ctx.response.error then ctx else make_response_error_non_method ctx in
      lost-IsAnswer req ctx' (to_json ctx') refl

module _ {J W M : Type 0} ⦃lib : JsonLib J⦄ ⦃container : Container M (Method J W)⦄ where
  -- A request for this router's path, with or without the slash at its end.
  pub record IsForPath (rpc : RpcBase J W M) (req : HttpRequest) : Type 0 where
    pub nonempty : req.target ≢ ""
    pub same : drop_slash req.target ≡ rpc.path

  for_path :
      (req : HttpRequest) (rpc : RpcBase J W M)
      → IsForPath rpc req
      → (str_eq req.target "" || not (str_eq (drop_slash req.target) rpc.path)) ≡ false
  for_path req rpc p = ground (arith, eq_iff req.target "", eq_iff (drop_slash req.target) rpc.path)

  is_for_path :
      (req : HttpRequest) (rpc : RpcBase J W M)
      → (str_eq req.target "" || not (str_eq (drop_slash req.target) rpc.path)) ≡ false
      → IsForPath rpc req
  is_for_path req rpc e = record {
    nonempty = ground (arith, eq_iff req.target "", eq_iff (drop_slash req.target) rpc.path);
    same = ground (arith, eq_iff req.target "", eq_iff (drop_slash req.target) rpc.path);
  }

  not-IsForPath :
      (req : HttpRequest) (rpc : RpcBase J W M)
      → (str_eq req.target "" || not (str_eq (drop_slash req.target) rpc.path)) ≡ true
      → ¬ IsForPath rpc req
  not-IsForPath req rpc e p = ground (arith, for_path req rpc p)

  post_IsAnswer :
      (req : HttpRequest) (rpc : RpcBase J W M) (w : W)
      → IsForPath rpc req
      → req.method ≡ post
      → IsAnswer J req (handle req rpc w).0
  unfolding handle
  post_IsAnswer req rpc w p m =
      let read = from_string req.body (fresh {J = J}) in
      let call : Call J W = record { ctx = read.1; world = w } in
      let after = apply rpc read.1.request.method call in
      elim (Result-cases after.0) [
        | inl (found, e) ↦
            let answered : answer req found after.1.ctx ≡ (handle req rpc w).0 =
              ground (arith, for_path req rpc p, from_string_total req.body (fresh {J = J}), e) in
            subst (IsAnswer J req) answered (answer-IsAnswer req found after.1.ctx)
        | inr (x, e) ↦ absurd (ground (arith, (apply-true rpc read.1.request.method call).0))
      ]

  -- Every HTTP request ends in one of four ways: 403 for another path, 405 for another verb, a
  -- bare CORS answer for OPTIONS, and for a POST, whatever the body holds and the method does, a
  -- CORS answer of status 200 or 404, or the exception with which printing the response or the
  -- parameters of some context throws.
  pub handle_status :
      (req : HttpRequest) (rpc : RpcBase J W M) (w : W)
      → ((¬ IsForPath rpc req) × (handle req rpc w ≡ (ok (response forbidden_403 req.version), w)))
        ⊎ ((IsForPath rpc req
              × (req.method ≢ post)
              × (req.method ≢ options)
              × (handle req rpc w ≡ (ok (response method_not_allowed_405 req.version), w)))
            ⊎ ((IsForPath rpc req
                  × (req.method ≡ options)
                  × (handle req rpc w ≡ (ok (cors req), w)))
                ⊎ (IsForPath rpc req × (req.method ≡ post) × IsAnswer J req (handle req rpc w).0)))
  unfolding handle
  handle_status req rpc w =
      elim (Bool-cases (str_eq req.target "" || not (str_eq (drop_slash req.target) rpc.path))) [
        | inl e ↦ inl (not-IsForPath req rpc e, rw e)
        | inr e ↦
            let p = is_for_path req rpc e in
            elim (Verb-cases req.method) [
              | inl m ↦ inr (inr (inr (p, m, post_IsAnswer req rpc w p m)))
              | inr (inl m) ↦ inr (inr (inl (p, m, ground (arith, for_path req rpc p))))
              | inr (inr (n, m)) ↦ inr (inl (p, n, m, ground (arith, for_path req rpc p)))
            ]
      ]

  -- What leaves the handler is an exception of printing.
  pub handle_throws :
      (req : HttpRequest) (rpc : RpcBase J W M) (w : W) (e : Exception)
      → (handle req rpc w).0 ≡ throw e
      → (ctx : Context J) × IsUnprintable J ctx e
  handle_throws req rpc w e h = elim (handle_status req rpc w) [
    | inl (n, same) ↦ absurd (ground arith)
    | inr (inl (p, m, n, same)) ↦ absurd (ground arith)
    | inr (inr (inl (p, m, same))) ↦ absurd (ground arith)
    | inr (inr (inr (p, m, sent))) ↦ subst (IsAnswer J req) h sent
  ]

  -- A POST of a request message for a registered method that returns is answered with status 200
  -- by what the method leaves in the context, which starts with the id of the message and nothing
  -- else, or ends with the exception of printing it or the parameters.
  pub handle-request_of :
      (req : HttpRequest) (rpc : RpcBase J W M) (w : W) (id : J) (name : String) (params : J)
      (f : Method J W) (call : Call J W)
      → IsForPath rpc req
      → req.method ≡ post
      → IsRequest req.body id name params
      → method_of rpc name ≡ some f
      → f rpc.db (record {
        ctx = record {
          request = record { id = id; method = name; params = params };
          response = record { id = id; result = lib.null_value; error = none };
        };
        world = w;
      })
        ≡ (ok tt, call)
      → handle req rpc w ≡ (
        and_then (to_json call.ctx) (λ text.
            and_then
              (lib.dump_line call.ctx.request.params)
              (λ line. ok (record (cors req) { body = text ++ "\n" }))),
        call.world,
      )
  unfolding handle apply answer
  handle-request_of req rpc w id name params f call p m is_request found runs =
      ground (arith, from_string-IsRequest req.body id name params is_request, for_path req rpc p)

  -- A POST of a request message for a method that is not registered changes nothing and is
  -- answered by status 404 and MethodNotFound under the id of the message, or ends with the
  -- exception of printing this.
  pub handle_unknown :
      (req : HttpRequest) (rpc : RpcBase J W M) (w : W) (id : J) (name : String) (params : J)
      → IsForPath rpc req
      → req.method ≡ post
      → IsRequest req.body id name params
      → method_of rpc name ≡ none
      → handle req rpc w ≡ (
        and_then
            (to_json (
              make_response_error_non_method (record {
                request = record { id = id; method = name; params = params };
                response = record { id = id; result = lib.null_value; error = none };
              })))
            (λ text. ok (record (cors req) { result = not_found_404; body = text })),
        w,
      )
  unfolding handle apply answer
  handle_unknown req rpc w id name params p m is_request missing =
      ground (arith, from_string-IsRequest req.body id name params is_request, for_path req rpc p)

  -- A POST of a message without parameters, which is no request, runs a registered method that
  -- returns all the same, and is answered with status 200 by what the method makes of a context
  -- that has the error, or ends with the exception of printing it or the parameters.
  pub handle-LacksParams :
      (req : HttpRequest) (rpc : RpcBase J W M) (w : W) (id : J) (name : String) (f : Method J W)
      (call : Call J W)
      → IsForPath rpc req
      → req.method ≡ post
      → LacksParams req.body id name
      → method_of rpc name ≡ some f
      → f rpc.db (record {
        ctx =
            make_response_parse_error "json-rpc: unknown parse error" (record fresh {
              request = record { id = id; method = name; params = lib.null_value };
            });
        world = w;
      })
        ≡ (ok tt, call)
      → handle req rpc w ≡ (
        and_then (to_json call.ctx) (λ text.
            and_then
              (lib.dump_line call.ctx.request.params)
              (λ line. ok (record (cors req) { body = text ++ "\n" }))),
        call.world,
      )
  unfolding handle apply answer
  handle-LacksParams req rpc w id name f call p m lacks found runs =
      ground (arith, from_string-LacksParams req.body id name lacks, for_path req rpc p)
