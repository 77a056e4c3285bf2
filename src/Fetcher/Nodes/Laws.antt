-- ===== src/Fetcher/Nodes/Laws.antt =====
-- The turns of the nodes: `get_rpc` of common/src/utils.cpp.
use native.Mathlib.Nat.{div-add-mod, mod-lt, mul-add-mod_self_left, add-mod_left, mod-eq_of_lt}
use mile_explorer.Common.{
  ℕ, zero, suc, ◌+◌, ◌-◌, ◌*◌, ◌/◌, ◌%◌, ◌^◌, ◌<◌, String, ◌≡◌, ◌∙◌, ap, inl, inr, some, List, [],
  ◌∷◌, arith, Bool-cases, leb,
}
use mile_explorer.Common.Lists.{length, get_elem?}
use mile_explorer.Fetcher.Nodes.{Client, Counted, on_world, get_rpc}

get_elem?-lt : {A : Type 0} (xs : List A) (i : ℕ) (x : A) → get_elem? xs i ≡ some x → i < length xs
get_elem?-lt [] i x h = absurd (ground arith)
get_elem?-lt (y ∷ xs) zero x h = omega arith
get_elem?-lt (y ∷ xs) (suc i) x h = omega (arith, get_elem?-lt xs i x h)

-- Each remainder comes up within `n` numbers.
turn : (n c i : ℕ) → i < n → (k : ℕ) × ((k < n) × ((c + k) % n ≡ i))
turn n c i h =
    let split : n * (c / n) + c % n ≡ c = div-add-mod c n in
    let below : c % n < n = mod-lt c (omega arith) in
    elim (Bool-cases (leb (c % n) i)) [
      | inl e ↦
          let sum : c + (i - c % n) ≡ n * (c / n) + i = ground arith in
          (
            i - c % n,
            (
              ground arith,
              ap (λ (m : ℕ). m % n) sum ∙ mul-add-mod_self_left n (c / n) i ∙ mod-eq_of_lt h,
            ),
          )
      | inr e ↦
          let sum : c + (n + i - c % n) ≡ n * (c / n) + (n + i) = ground arith in
          (
            n + i - c % n,
            (
              ground arith,
              ap (λ (m : ℕ). m % n) sum
                  ∙ mul-add-mod_self_left n (c / n) (n + i)
                  ∙ add-mod_left n i
                  ∙ mod-eq_of_lt h,
            ),
          )
    ]

module _ {J W : Type 0} (client : Client J W) where
  get_rpc-on_world :
      (urls : List String) (t : Counted W) (url : String)
      → get_elem? urls (t.counter % length urls) ≡ some url
      → t.counter + 1 < 2 ^ 64
      → get_rpc client urls t ≡ on_world (client.connect url) (record t { counter = t.counter + 1 })
  unfolding get_rpc
  get_rpc-on_world urls t url has bound = ground (arith, mod-eq_of_lt bound)

  -- As long as the counter does not come to 2^64, each node of the list is the one that some of
  -- the next requests for a connection goes to, within as many requests as there are nodes.
  pub get_rpc_turn :
      (urls : List String) (s : Counted W) (i : ℕ) (url : String)
      → get_elem? urls i ≡ some url
      → s.counter + length urls < 2 ^ 64
      → (k : ℕ) × ((k < length urls)
          × ((t : Counted W)
              → t.counter ≡ s.counter + k
              → get_rpc client urls t
                ≡ on_world (client.connect url) (record t { counter = t.counter + 1 })))
  get_rpc_turn urls s i url has bound =
      let (k, (below, reaches)) = turn (length urls) s.counter i (get_elem?-lt urls i url has) in
      (
        k,
        (
          below,
          λ t e.
              get_rpc-on_world urls t url
                (ap (λ (c : ℕ). get_elem? urls (c % length urls)) e
                  ∙ ap (get_elem? urls) reaches
                  ∙ has)
                (omega arith),
        ),
      )
