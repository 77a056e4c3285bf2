-- ===== src/Indexer/Turnover/Laws.antt =====
-- The totals of a day: indexer/statistics/turnover_24.cpp.

use mile_explorer.Common.{
  ℕ, ◌+◌, ◌%◌, ◌^◌, ◌<◌, String, ◌≡◌, ◌≢◌, inl, inr, Bool-cases, List, [], ◌∷◌, ◌++◌, arith,
  if◌then◌else◌, ◌==◌,
}
use mile_explorer.Common.Exec.{Result, Result-cases, ok, and_then, pure, ◌>>◌}
use mile_explorer.Common.Float.{FloatLib}
use mile_explorer.Common.Lists.{All, length, length-append}
use mile_explorer.Json.{JsonLib, is_array}
use mile_explorer.Driver.{Driver, Sdk}
use mile_explorer.Db.{Db}
use mile_explorer.Db.Name
use mile_explorer.Db.Cursor.{get_data}
use mile_explorer.Db.Table.{open_table, update}
use mile_explorer.Indexer.Assets.{call_back}
use mile_explorer.Indexer.Assets.Laws.{
  Asset, assets_of, call_backs, call_backs-append, enumerate_assets-call_backs,
}
use mile_explorer.Indexer.Turnover.{
  Totals, add_xdr, add_mile, no_totals, each_block, turnover_row, blocks_of_day, turnover_24,
}

module _ {J : Type 0} ⦃lib : JsonLib J⦄ where
  -- The assets of the blocks' transactions; what is no array has none.
  abbrev pub assets_in : List J → Result (List Asset)
  assets_in [] = ok []
  assets_in (item ∷ items) =
      and_then (if is_array item then assets_of (lib.items item) else ok [])
        (λ assets. and_then (assets_in items) (λ others. ok (assets ++ others)))

-- How many assets have the code.
abbrev pub number_of : ℕ → List Asset → ℕ
number_of code [] = 0
number_of code (a ∷ assets) =
    if a.code == code then number_of code assets + 1 else number_of code assets

module _ {F : Type 0} ⦃floats : FloatLib F⦄ where
  -- Their amounts, added to a sum in their order.
  abbrev pub sum_of : (String → F) → ℕ → List Asset → F → F
  sum_of value code [] sum = sum
  sum_of value code (a ∷ assets) sum =
      sum_of value code assets (if a.code == code then floats.add sum (value a.amount) else sum)

  -- Every amount can be read, as `value` says.
  abbrev pub HaveValues : (String → F) → List Asset → Type 0
  HaveValues value = All (λ (a : Asset). floats.stold a.amount ≡ ok (value a.amount))

module _ {F : Type 0} ⦃floats : FloatLib F⦄ (sdk : Sdk) (value : String → F) where
  -- The totals after the assets.
  abbrev pub totals_of : List Asset → Totals F → Totals F
  totals_of xs s = record {
    xdr = sum_of value sdk.xdr_code xs s.xdr;
    mile = sum_of value sdk.mile_code xs s.mile;
    count_xdr = (s.count_xdr + number_of sdk.xdr_code xs) % 2 ^ 64;
    count_mile = (s.count_mile + number_of sdk.mile_code xs) % 2 ^ 64;
  }

  call_backs_totals :
      (xs : List Asset) (s : Totals F)
      → sdk.xdr_code ≢ sdk.mile_code
      → s.count_xdr < 2 ^ 64
      → s.count_mile < 2 ^ 64
      → HaveValues value xs
      → call_backs sdk add_xdr add_mile xs s ≡ (ok tt, totals_of xs s)
  unfolding call_back add_xdr add_mile
  call_backs_totals [] s differ a b h = ground arith
  call_backs_totals (x ∷ xs) s differ a b (has, h) =
      let v = value x.amount in
      elim (Bool-cases (x.code == sdk.xdr_code)) [
        | inl e ↦
            let s' = record s {
              xdr = floats.add s.xdr v;
              count_xdr = (s.count_xdr + 1) % 2 ^ 64;
            } in
            ground (arith, call_backs_totals xs s' differ (omega arith) b h)
        | inr e ↦ elim (Bool-cases (x.code == sdk.mile_code)) [
          | inl f ↦
              let s' = record s {
                mile = floats.add s.mile v;
                count_mile = (s.count_mile + 1) % 2 ^ 64;
              } in
              ground (arith, call_backs_totals xs s' differ a (omega arith) h)
          | inr f ↦ ground (arith, call_backs_totals xs s differ a b h)
        ]
      ]

module _ {J F : Type 0} ⦃lib : JsonLib J⦄ ⦃floats : FloatLib F⦄ (sdk : Sdk) where
  block_step :
      (item : J) (items : List J) (count : ℕ) (xs : List Asset) (s : Totals F)
      → count < 2 ^ 64
      → (if is_array item then assets_of (lib.items item) else ok []) ≡ ok xs
      → each_block sdk (item ∷ items) count s
        ≡ (do
          call_backs sdk add_xdr add_mile xs
          each_block sdk items ((count + length xs) % 2 ^ 64))
            s
  unfolding each_block
  block_step item items count xs s h has = elim (Bool-cases (is_array item)) [
    | inl e ↦
        ground (arith, enumerate_assets-call_backs sdk add_xdr add_mile item xs s e (ground arith))
    | inr e ↦ ground arith
  ]

  each_block-call_backs :
      (items : List J) (count : ℕ) (xs : List Asset) (s : Totals F)
      → count < 2 ^ 64
      → assets_in items ≡ ok xs
      → each_block sdk items count s
        ≡ (do call_backs sdk add_xdr add_mile xs; pure ((count + length xs) % 2 ^ 64)) s
  each_block-call_backs [] count xs s h has = unfold each_block in ground arith
  each_block-call_backs (item ∷ items) count xs s h has =
      elim (Result-cases (if is_array item then assets_of (lib.items item) else ok [])) [
        | inr (x, e) ↦ absurd (ground arith)
        | inl (assets, e) ↦ elim (Result-cases (assets_in items)) [
          | inr (x, f) ↦ absurd (ground arith)
          | inl (others, f) ↦
              let called = call_backs sdk add_xdr add_mile assets s in
              let ih =
                each_block-call_backs items ((count + length assets) % 2 ^ 64) others called.1
                  (omega arith) f in
              ground (
                arith,
                block_step item items count assets s h e,
                ih,
                call_backs-append sdk add_xdr add_mile assets others s,
                length-append assets others,
              )
        ]
      ]

module _ {J F W : Type 0} ⦃lib : JsonLib J⦄ ⦃floats : FloatLib F⦄ (driver : Driver J W) (sdk : Sdk)
    (of_float : F → J) (value : String → F) where
  -- If the query for the day returns, the two assets have different codes, and the members of
  -- every asset and the amount of every asset can be read, turnover_24 updates the row of
  -- turnovers with the number of the assets in the blocks and, for each of the two, the number of
  -- its transfers and its amounts added in their order; the numbers are modulo 2^64.
  pub turnover_24_totals :
      (db : Db) (last : ℕ) (w w' : W) (items : J) (xs : List Asset)
      → sdk.xdr_code ≢ sdk.mile_code
      → get_data (blocks_of_day driver sdk of_float db last) w ≡ (ok items, w')
      → assets_in (lib.values items) ≡ ok xs
      → HaveValues value xs
      → turnover_24 driver sdk of_float db last w
        ≡ update driver
            (open_table db Name.turnovers)
            (turnover_row sdk of_float (length xs % 2 ^ 64) (record {
              xdr = sum_of value sdk.xdr_code xs floats.zero;
              mile = sum_of value sdk.mile_code xs floats.zero;
              count_xdr = number_of sdk.xdr_code xs % 2 ^ 64;
              count_mile = number_of sdk.mile_code xs % 2 ^ 64;
            }))
            w'
  unfolding turnover_24
  turnover_24_totals db last w w' items xs differ got has valued =
      let called =
        call_backs_totals sdk value xs no_totals differ (omega arith) (omega arith) valued in
      let counted =
        each_block-call_backs {F = F} sdk (lib.values items) 0 xs no_totals (omega arith) has in
      ground (arith, got, called, counted)
