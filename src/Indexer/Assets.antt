-- ===== src/Indexer/Assets.antt =====
-- `enumerate_assets` of indexer/statistics/utils.hpp: two callbacks for the amounts of the two assets.
pub mod Laws
use mile_explorer.Common.{ℕ, ◌+◌, ◌%◌, ◌^◌, String, none, some, List, [], ◌∷◌, if◌then◌else◌, ◌==◌}
use mile_explorer.Common.Exec.{Exec, Result, ok, and_then, pure, lift, ◌>>=◌, ◌>>◌}
use mile_explorer.Common.Float.{FloatLib}
use mile_explorer.Common.Int.{ℤ, negsuc}
use mile_explorer.Common.Text.Integer.{stoi, to_ushort, to_time}
use mile_explorer.Json.{JsonLib, is_array}
use mile_explorer.Driver.{Sdk}

module _ {J : Type 0} ⦃lib : JsonLib J⦄ where
  -- The documents are const: a missing key is read with `at`.
  unfoldable pub text_at : J → String → Result String
  text_at j key = and_then (lib.at j key) lib.get_string

  -- -1 for a transaction without a time.
  unfoldable pub time_of : J → Result ℤ
  time_of trx = elim (lib.find trx "timestamp") [
    | none ↦ ok (negsuc 0)
    | some t ↦ and_then (lib.get_uint64 t) (λ n. ok (to_time n))
  ]

module _ {F S : Type 0} ⦃floats : FloatLib F⦄ (sdk : Sdk) (xdr mile : F → ℤ → Exec S Unit) where
  -- The callback that the code chooses, if any.
  unfoldable pub call_back : ℕ → String → ℤ → Exec S Unit
  call_back code amount t =
      if code == sdk.xdr_code
      then (do x ← lift (floats.stold amount); xdr x t)
      else if code == sdk.mile_code
      then (do x ← lift (floats.stold amount); mile x t)
      else pure tt

module _ {J F S : Type 0} ⦃lib : JsonLib J⦄ ⦃floats : FloatLib F⦄ (sdk : Sdk)
    (xdr mile : F → ℤ → Exec S Unit) where
  -- The loop over the assets of a transaction, with the count so far. Both members are read before
  -- the code is converted.
  unfoldable pub each_asset : ℤ → List J → ℕ → Exec S ℕ
  unfolding call_back
  each_asset t [] count = pure count
  each_asset t (asset ∷ assets) count = do
    code ← lift (text_at asset "code")
    amount ← lift (text_at asset "amount")
    n ← lift (stoi code)
    call_back sdk xdr mile (to_ushort n) amount t
    each_asset t assets ((count + 1) % 2 ^ 64)

  unfoldable pub each_transaction : List J → ℕ → Exec S ℕ
  unfolding each_asset
  each_transaction [] count = pure count
  each_transaction (trx ∷ rest) count = do
    t ← lift (time_of trx)
    counted ← elim (lib.find trx "asset") [
      | none ↦ pure count
      | some assets ↦ each_asset t (lib.values assets) count
    ]
    each_transaction rest counted

  unfoldable pub enumerate_assets : J → Exec S ℕ
  unfolding each_transaction
  enumerate_assets items = if is_array items then each_transaction (lib.items items) 0 else pure 0
