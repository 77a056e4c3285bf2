-- ===== src/Indexer/Assets/Laws.antt =====
-- What `enumerate_assets` goes over: indexer/statistics/utils.hpp.

use mile_explorer.Common.{
  ℕ, ◌+◌, ◌%◌, ◌^◌, ◌<◌, String, ◌≡◌, refl, inl, inr, true, none, some, Option-cases, List, [], ◌∷◌,
  ◌++◌, arith,
}
use mile_explorer.Common.Exec.{Exec, Result, Result-cases, ok, and_then, pure, ◌>>◌}
use mile_explorer.Common.Float.{FloatLib}
use mile_explorer.Common.Int.{ℤ}
use mile_explorer.Common.Lists.{length, length-append}
use mile_explorer.Common.Text.Integer.{stoi, to_ushort}
use mile_explorer.Json.{JsonLib, is_array}
use mile_explorer.Driver.{Sdk}
use mile_explorer.Indexer.Assets.{
  text_at, time_of, call_back, each_asset, each_transaction, enumerate_assets,
}

-- An asset of a transaction: its code, its amount as a text, and the transaction's time.
pub record Asset : Type 0 where
  pub code : ℕ
  pub amount : String
  pub time : ℤ

module _ {J : Type 0} ⦃lib : JsonLib J⦄ where
  abbrev asset_of : ℤ → J → Result Asset
  asset_of t j = and_then (text_at j "code") (λ code. and_then (text_at j "amount") (λ amount.
      and_then (stoi code) (λ n. ok (record { code = to_ushort n; amount = amount; time = t }))))

  abbrev assets_at : ℤ → List J → Result (List Asset)
  assets_at t [] = ok []
  assets_at t (j ∷ js) =
      and_then (asset_of t j) (λ asset. and_then (assets_at t js) (λ assets. ok (asset ∷ assets)))

  abbrev transaction_assets : J → Result (List Asset)
  transaction_assets trx = and_then (time_of trx) (λ t. elim (lib.find trx "asset") [
    | none ↦ ok []
    | some assets ↦ assets_at t (lib.values assets)
  ])

  -- All the assets of the transactions, in their order.
  abbrev pub assets_of : List J → Result (List Asset)
  assets_of [] = ok []
  assets_of (trx ∷ rest) =
      and_then (transaction_assets trx)
        (λ assets. and_then (assets_of rest) (λ others. ok (assets ++ others)))

module _ {F S : Type 0} ⦃floats : FloatLib F⦄ (sdk : Sdk) (xdr mile : F → ℤ → Exec S Unit) where
  -- The callbacks for the assets, one after the other.
  abbrev pub call_backs : List Asset → Exec S Unit
  call_backs [] = pure tt
  call_backs (a ∷ assets) = do call_back sdk xdr mile a.code a.amount a.time; call_backs assets

  pub call_backs-append :
      (xs ys : List Asset) (s : S) → call_backs (xs ++ ys) s ≡ (do call_backs xs; call_backs ys) s
  call_backs-append [] ys s = refl
  call_backs-append (a ∷ xs) ys s =
      elim (Result-cases (call_back sdk xdr mile a.code a.amount a.time s).0) [
        | inr (x, e) ↦ ground arith
        | inl (t, e) ↦
            let next = (call_back sdk xdr mile a.code a.amount a.time s).1 in
            ground (arith, call_backs-append xs ys next)
      ]

module _ {J F S : Type 0} ⦃lib : JsonLib J⦄ ⦃floats : FloatLib F⦄ (sdk : Sdk)
    (xdr mile : F → ℤ → Exec S Unit) where
  each_asset_step :
      (t : ℤ) (j : J) (js : List J) (count : ℕ) (a : Asset) (s : S)
      → asset_of t j ≡ ok a
      → each_asset sdk xdr mile t (j ∷ js) count s
        ≡ (do
          call_back sdk xdr mile a.code a.amount a.time
          each_asset sdk xdr mile t js ((count + 1) % 2 ^ 64))
            s
  unfolding each_asset
  each_asset_step t j js count a s has = elim (Result-cases (text_at j "code")) [
    | inr (x, e) ↦ absurd (ground arith)
    | inl (code, e) ↦ elim (Result-cases (text_at j "amount")) [
      | inr (x, f) ↦ absurd (ground arith)
      | inl (amount, f) ↦ elim (Result-cases (stoi code)) [
        | inr (x, g) ↦ absurd (ground arith)
        | inl (n, g) ↦ ground arith
      ]
    ]
  ]

  each_asset-call_backs :
      (t : ℤ) (js : List J) (count : ℕ) (xs : List Asset) (s : S)
      → count < 2 ^ 64
      → assets_at t js ≡ ok xs
      → each_asset sdk xdr mile t js count s
        ≡ (do call_backs sdk xdr mile xs; pure ((count + length xs) % 2 ^ 64)) s
  each_asset-call_backs t [] count xs s h has = unfold each_asset in ground arith
  each_asset-call_backs t (j ∷ js) count xs s h has = elim (Result-cases (asset_of t j)) [
    | inr (x, e) ↦ absurd (ground arith)
    | inl (a, e) ↦ elim (Result-cases (assets_at t js)) [
      | inr (x, f) ↦ absurd (ground arith)
      | inl (rest, f) ↦
          let called = call_back sdk xdr mile a.code a.amount a.time s in
          let step = each_asset_step t j js count a s e in
          let ih =
            each_asset-call_backs t js ((count + 1) % 2 ^ 64) rest called.1 (omega arith) f in
          ground (arith, step, ih)
    ]
  ]

  each_transaction_step :
      (trx : J) (rest : List J) (count : ℕ) (xs : List Asset) (s : S)
      → count < 2 ^ 64
      → transaction_assets trx ≡ ok xs
      → each_transaction sdk xdr mile (trx ∷ rest) count s
        ≡ (do
          call_backs sdk xdr mile xs
          each_transaction sdk xdr mile rest ((count + length xs) % 2 ^ 64))
            s
  unfolding each_transaction
  each_transaction_step trx rest count xs s h has = elim (Result-cases (time_of trx)) [
    | inr (x, e) ↦ absurd (ground arith)
    | inl (t, e) ↦ elim (Option-cases (lib.find trx "asset")) [
      | inl f ↦ ground arith
      | inr (assets, f) ↦
          ground (arith, each_asset-call_backs t (lib.values assets) count xs s h (ground arith))
    ]
  ]

  each_transaction-call_backs :
      (trxs : List J) (count : ℕ) (xs : List Asset) (s : S)
      → count < 2 ^ 64
      → assets_of trxs ≡ ok xs
      → each_transaction sdk xdr mile trxs count s
        ≡ (do call_backs sdk xdr mile xs; pure ((count + length xs) % 2 ^ 64)) s
  each_transaction-call_backs [] count xs s h has = unfold each_transaction in ground arith
  each_transaction-call_backs (trx ∷ rest) count xs s h has =
      elim (Result-cases (transaction_assets trx)) [
        | inr (x, e) ↦ absurd (ground arith)
        | inl (assets, e) ↦ elim (Result-cases (assets_of rest)) [
          | inr (x, f) ↦ absurd (ground arith)
          | inl (others, f) ↦
              let called = call_backs sdk xdr mile assets s in
              let step = each_transaction_step trx rest count assets s h e in
              let ih =
                each_transaction-call_backs rest ((count + length assets) % 2 ^ 64) others called.1
                  (omega arith) f in
              ground (
                arith,
                step,
                ih,
                call_backs-append sdk xdr mile assets others s,
                length-append assets others,
              )
        ]
      ]

  pub enumerate_assets-call_backs :
      (items : J) (xs : List Asset) (s : S)
      → is_array items ≡ true
      → assets_of (lib.items items) ≡ ok xs
      → enumerate_assets sdk xdr mile items s
        ≡ (do call_backs sdk xdr mile xs; pure (length xs % 2 ^ 64)) s
  unfolding enumerate_assets
  enumerate_assets-call_backs items xs s h has =
      ground (arith, each_transaction-call_backs (lib.items items) 0 xs s (omega arith) has)
