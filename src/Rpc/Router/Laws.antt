-- ===== src/Rpc/Router/Laws.antt =====
-- What a router does with a name: which method it finds, and what it makes of the outcome.
use mile_explorer.Common.{
  String, ◌≡◌, refl, ◌↔◌, true, List, [], ◌∷◌, Option, none, some, arith, Option-cases, inl, inr,
  eq_iff,
}
use mile_explorer.Common.Lists.{lookup}
use mile_explorer.Common.Exec.{ok, is_ok}
use mile_explorer.Json.{JsonLib}
use mile_explorer.Rpc.Container.{Container}
use mile_explorer.Rpc.Router.{Call, Method, RpcBase, Registry, add, add_all, apply, set_router}

abbrev first : {A : Type 0} → Option A → Option A → Option A
first none b = b
first (some a) b = some a

module _ {J W M : Type 0} ⦃container : Container M (Method J W)⦄ where
  abbrev pub method_of : RpcBase J W M → String → Option (Method J W)
  method_of rpc name = container.find name rpc.storage

  method_of-add_all :
      (fs : List (String × Method J W)) (rpc : RpcBase J W M) (name : String)
      → method_of (add_all fs rpc) name ≡ first (method_of rpc name) (lookup name fs)
  unfolding add_all
  method_of-add_all [] rpc name = ground arith
  method_of-add_all ((key, f) ∷ fs) rpc name = ground (
    arith,
    method_of-add_all fs (add key f rpc) name,
    container.find_emplace key name f rpc.storage,
    eq_iff key name,
  )

  path-add_all :
      (fs : List (String × Method J W)) (rpc : RpcBase J W M) → (add_all fs rpc).path ≡ rpc.path
  unfolding add_all
  path-add_all [] rpc = refl
  path-add_all ((key, f) ∷ fs) rpc = path-add_all fs (add key f rpc)

  pub path-set_router :
      (r : Registry J W M) (rpc : RpcBase J W M) → (set_router r rpc).path ≡ rpc.path
  unfolding set_router
  path-set_router r rpc = path-add_all (container.entries r.storage) rpc

  -- After set_router a router knows its own methods and, for every other name, the method of the
  -- registry.
  pub method_of-set_router :
      (r : Registry J W M) (rpc : RpcBase J W M) (name : String)
      → method_of (set_router r rpc) name
        ≡ elim (method_of rpc name) [ some f ↦ some f | none ↦ container.find name r.storage ]
  unfolding set_router
  method_of-set_router r rpc name = ground (
    arith,
    method_of-add_all (container.entries r.storage) rpc name,
    container.lookup_entries name r.storage,
  )

module _ {J W M : Type 0} ⦃lib : JsonLib J⦄ ⦃container : Container M (Method J W)⦄ where
  -- No exception leaves apply, and it says true exactly if the method is there and returns.
  pub apply-true :
      (rpc : RpcBase J W M) (name : String) (c : Call J W)
      → (is_ok (apply rpc name c).0 ≡ true)
        × (((apply rpc name c).0 ≡ ok true)
            ↔ ((f : Method J W) × (method_of rpc name ≡ some f) × ((f rpc.db c).0 ≡ ok tt)))
  unfolding apply
  apply-true rpc name c = elim (Option-cases (container.find name rpc.storage)) [
    | inl e ↦ (ground arith, (λ h. absurd (ground arith), λ h. absurd (ground arith)))
    | inr (f, e) ↦ (ground arith, (λ h. (f, e, ground arith), λ h. ground arith))
  ]
