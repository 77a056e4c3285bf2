-- ===== src/Api/Params/Laws.antt =====
-- What the checks of the parameters let through.
use mile_explorer.Common.{
  ℕ, ◌≤◌, String, ◌≡◌, refl, ◌↔◌, ◌⊎◌, inl, inr, Bool, true, false, some, arith, Option-cases,
}
use mile_explorer.Common.Exec.{Exception, Result, ok, throw}
use mile_explorer.Json.{JsonLib, is_object}
use mile_explorer.Driver.{Sdk}
use mile_explorer.Rpc.Router.{Call}
use mile_explorer.Api.Params.{check_limit, get_block_id, get_transaction_id}

module _ {J W : Type 0} ⦃lib : JsonLib J⦄ (sdk : Sdk) (c : Call J W) where
  -- A page: its first entry, and how many entries at most.
  pub record IsPage (limit : ℕ) : Type 0 where
    pub first : J
    pub most : J
    pub has_first : lib.find c.ctx.request.params "first" ≡ some first
    pub has_limit : lib.find c.ctx.request.params "limit" ≡ some most
    pub number : lib.uint most ≡ some limit
    pub bounded : limit ≤ 1000

  found_object :
      (k : String) (v : J)
      → lib.find c.ctx.request.params k ≡ some v
      → is_object c.ctx.request.params ≡ true
  found_object k v e = ground (arith, lib.find_kind c.ctx.request.params k)

  page_first :
      check_limit sdk c ≡ (ok true, c) → (v : J) × (lib.find c.ctx.request.params "first" ≡ some v)
  unfolding check_limit
  page_first h = elim (Option-cases (lib.find c.ctx.request.params "first")) [
    | inl e ↦ absurd (ground arith)
    | inr (v, e) ↦ (v, e)
  ]

  page_limit :
      check_limit sdk c ≡ (ok true, c)
      → (v : J) × (n : ℕ) × (lib.find c.ctx.request.params "limit" ≡ some v)
        × (lib.uint v ≡ some n)
        × (n ≤ 1000)
  unfolding check_limit
  page_limit h = elim (Option-cases (lib.find c.ctx.request.params "limit")) [
    | inl e ↦ absurd (ground arith)
    | inr (v, e) ↦ elim (Option-cases (lib.uint v)) [
      | inl f ↦ absurd (
          ground (
            arith,
            lib.at_lem c.ctx.request.params "limit",
            lib.get_uint64_lem v,
            found_object "limit" v e,
          ))
      | inr (n, f) ↦ (
        v,
        n,
        e,
        f,
        ground (
          arith,
          lib.at_lem c.ctx.request.params "limit",
          lib.get_uint64_lem v,
          found_object "limit" v e,
        ),
      )
    ]
  ]

  -- check_limit lets a call through unchanged exactly if it asks for a page: a first entry, and a
  -- limit that is a number of at most 1000.
  pub check_limit-true : (check_limit sdk c ≡ (ok true, c)) ↔ ((limit : ℕ) × IsPage limit)
  unfolding check_limit
  check_limit-true = (
    λ h.
        let (v, e) = page_first h in
        let (most, n, found, number, bounded) = page_limit h in
        (
          n,
          record {
            first = v;
            most = most;
            has_first = e;
            has_limit = found;
            number = number;
            bounded = bounded;
          },
        ),
    λ h. ground (
      arith,
      lib.at_lem c.ctx.request.params "limit",
      lib.get_uint64_lem h.1.most,
      found_object "limit" h.1.most h.1.has_limit,
    ),
  )

  -- What a handler may go on with after `check_limit`.
  pub record Checked (limit : ℕ) : Type 0 where
    pub most : J
    pub passes : check_limit sdk c ≡ (ok true, c)
    pub read : lib.at c.ctx.request.params "limit" ≡ ok most
    pub number : lib.get_uint64 most ≡ ok limit
    pub bounded : limit ≤ 1000

  passed : check_limit sdk c ≡ (ok true, c) → (limit : ℕ) × Checked limit
  passed h =
      let (most, n, found, number, bounded) = page_limit h in
      (
        n,
        record {
          most = most;
          passes = h;
          read =
              ground
                (arith, lib.at_lem c.ctx.request.params "limit", found_object "limit" most found);
          number = ground (arith, lib.get_uint64_lem most);
          bounded = bounded;
        },
      )

  stops : (r : Result Bool) → (r ≡ ok true) ⊎ ((r ≡ ok false) ⊎ ((e : Exception) × (r ≡ throw e)))
  stops (ok true) = inl refl
  stops (ok false) = inr (inl refl)
  stops (throw e) = inr (inr (e, refl))

  same_call : (check_limit sdk c).0 ≡ ok true → check_limit sdk c ≡ (ok true, c)
  unfolding check_limit
  same_call h = ground arith

  pub world-check_limit : (check_limit sdk c).1.world ≡ c.world
  unfolding check_limit
  world-check_limit = ground arith

  pub check_limit-cases :
      ((limit : ℕ) × Checked limit)
      ⊎ (((check_limit sdk c).0 ≡ ok false) ⊎ ((e : Exception) × ((check_limit sdk c).0 ≡ throw e)))
  check_limit-cases = elim (stops (check_limit sdk c).0) [
    | inl h ↦ inl (passed (same_call h))
    | inr h ↦ inr h
  ]

  pub world-get_block_id : (name : String) → (get_block_id sdk name c).1.world ≡ c.world
  unfolding get_block_id
  world-get_block_id name = ground arith

  pub world-get_transaction_id : (name : String) → (get_transaction_id {J = J} {W = W} name c).1 ≡ c
  unfolding get_transaction_id
  world-get_transaction_id name = ground arith
