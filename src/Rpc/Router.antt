-- ===== src/Rpc/Router.antt =====
-- backend/jsonrpc/router.hpp and backend/api/registry.hpp, regestry.cpp: the methods by name, in
-- a container `M`.
pub mod Laws
use Prim.Native.String.{◌++◌}
use mile_explorer.Common.{
  String, Bool, true, false, List, [], ◌∷◌, Option, none, some, if◌then◌else◌, str_eq,
}
use mile_explorer.Rpc.Container.{Container}
use mile_explorer.Common.Exec.{
  Exec, Exception, Result, ok, throw, json_error, db_error, std_error, unknown, pure, modify, catch,
  ◌>>=◌, ◌>>◌,
}
use mile_explorer.Json.{JsonLib}
use mile_explorer.Db.{Db}
use mile_explorer.Rpc.Context.{Context, make_response_parse_error}

-- What a method works on: the context that it fills, and the world.
pub record Call (J W : Type 0) : Type 0 where
  pub ctx : Context J
  pub world : W

abbrev pub Method : Type 0 → Type 0 → Type 0
Method J W = Db → Exec (Call J W) Unit

pub record RpcBase (J W M : Type 0) : Type 0 where
  pub db : Db
  pub version : String
  pub target : String
  pub path : String
  pub storage : M

module _ {V : Type 0} where
  abbrev names : List (String × V) → List String
  names [] = []
  names ((key, f) ∷ rest) = key ∷ names rest

module _ {J W M : Type 0} ⦃container : Container M (Method J W)⦄ where
  unfoldable pub create : Db → String → String → RpcBase J W M
  create db version target = record {
    db = db;
    version = version;
    target = target;
    path = "/" ++ version ++ "/" ++ target;
    storage = container.empty;
  }

  unfoldable pub add : String → Method J W → RpcBase J W M → RpcBase J W M
  add name f rpc = record rpc { storage = container.emplace name f rpc.storage }

  -- The names go through a `std::set`, which the container's order does not matter to.
  unfoldable pub keys : RpcBase J W M → List String
  keys rpc = names (container.entries rpc.storage)

-- `ctx` is a field of the state of a call.
abbrev pub on_ctx : {J W : Type 0} → (Context J → Context J) → Exec (Call J W) Unit
on_ctx f = modify (λ c. record c { ctx = f c.ctx })

module _ {J W : Type 0} ⦃lib : JsonLib J⦄ where
  -- The handlers of `apply`, which all go on to `return false`.
  handle_error : Exception → Exec (Call J W) Bool
  unfolding make_response_parse_error
  handle_error (json_error kind what) = do on_ctx (make_response_parse_error what); pure false
  handle_error e = do
    on_ctx (λ ctx. record ctx { response = record ctx.response { result = lib.empty_array } })
    pure false

module _ {J W M : Type 0} ⦃lib : JsonLib J⦄ ⦃container : Container M (Method J W)⦄ where
  unfoldable pub apply : RpcBase J W M → String → Exec (Call J W) Bool
  unfolding handle_error
  apply rpc name =
      catch
        (elim (container.find name rpc.storage) [
          | none ↦ pure false
          | some f ↦ do f rpc.db; pure true
        ])
        handle_error

-- The registry that the API files fill while the program starts; `params` is its help, and its
-- `emplace` a method of the JSON library.
pub record Registry (J W M : Type 0) : Type 0 where
  pub params : J
  pub storage : M

module _ {J W M : Type 0} ⦃container : Container M (Method J W)⦄ where
  unfoldable pub register :
      (J → String → String → J) → String → Method J W → String → Registry J W M → Registry J W M
  register emplace_json name f params r = record {
    params = emplace_json r.params name params;
    storage = container.emplace name f r.storage;
  }

  add_all : List (String × Method J W) → RpcBase J W M → RpcBase J W M
  unfolding add
  add_all [] rpc = rpc
  add_all ((name, f) ∷ rest) rpc = add_all rest (add name f rpc)

  unfoldable pub set_router : Registry J W M → RpcBase J W M → RpcBase J W M
  unfolding add_all
  set_router r rpc = add_all (container.entries r.storage) rpc
