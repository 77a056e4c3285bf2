-- ===== src/Indexer/Turnover.antt =====
-- indexer/statistics/turnover_24.cpp: what was transferred in the blocks of a day.
pub mod Laws
use mile_explorer.Common.{ℕ, ◌+◌, ◌-◌, ◌%◌, ◌^◌, List, [], ◌∷◌, if◌then◌else◌}
use mile_explorer.Common.Exec.{Exec, ok, pure, lift, ◌>>=◌, ◌>>◌}
use mile_explorer.Common.Float.{FloatLib}
use mile_explorer.Common.Int.{ℤ}
use mile_explorer.Common.Text.{to_string}
use mile_explorer.Json.{JsonLib, is_array}
use mile_explorer.Driver.{Driver, Sdk}
use mile_explorer.Db.{Db}
use mile_explorer.Db.Name
use mile_explorer.Db.Cursor.{Cursor, between, field, get_data}
use mile_explorer.Db.Getters.{table_cursor}
use mile_explorer.Db.Table.{open_table, update}
use mile_explorer.Indexer.Assets.{enumerate_assets}

-- The variables that the callbacks of the method write.
pub record Totals (F : Type 0) : Type 0 where
  pub xdr : F
  pub mile : F
  pub count_xdr : ℕ
  pub count_mile : ℕ

module _ {F : Type 0} ⦃floats : FloatLib F⦄ where
  unfoldable pub add_xdr : F → ℤ → Exec (Totals F) Unit
  add_xdr amount t s =
      (ok tt, record s { xdr = floats.add s.xdr amount; count_xdr = (s.count_xdr + 1) % 2 ^ 64 })

  unfoldable pub add_mile : F → ℤ → Exec (Totals F) Unit
  add_mile amount t s = (
    ok tt,
    record s { mile = floats.add s.mile amount; count_mile = (s.count_mile + 1) % 2 ^ 64 },
  )

  abbrev pub no_totals : Totals F
  no_totals = record { xdr = floats.zero; mile = floats.zero; count_xdr = 0; count_mile = 0 }

module _ {J F : Type 0} ⦃lib : JsonLib J⦄ ⦃floats : FloatLib F⦄ (sdk : Sdk) where
  -- The loop over the transactions of each block.
  unfoldable pub each_block : List J → ℕ → Exec (Totals F) ℕ
  unfolding add_xdr add_mile
  each_block [] count = pure count
  each_block (item ∷ items) count = do
    counted ←
        if is_array item
        then (do n ← enumerate_assets sdk add_xdr add_mile item; pure ((count + n) % 2 ^ 64))
        else pure count
    each_block items counted

module _ {J F : Type 0} ⦃lib : JsonLib J⦄ (sdk : Sdk) (of_float : F → J) where
  asset_total : ℕ → F → ℕ → J
  asset_total code amount count =
      let coded = lib.put lib.null_value "code" (lib.of_string (to_string code)) in
      lib.put (lib.put coded "amount" (of_float amount)) "count" (lib.of_uint count)

  unfoldable pub turnover_row : ℕ → Totals F → J
  unfolding asset_total
  turnover_row count s =
      let xdr = asset_total sdk.xdr_code s.xdr s.count_xdr in
      let assets =
        lib.push_back (lib.push_back lib.empty_array xdr)
          (asset_total sdk.mile_code s.mile s.count_mile) in
      let named = lib.put lib.null_value "id" (lib.of_string "turnovers-24") in
      lib.put (lib.put named "count" (lib.of_uint count)) "assets" assets

module _ {J F W : Type 0} ⦃lib : JsonLib J⦄ ⦃floats : FloatLib F⦄ (driver : Driver J W) (sdk : Sdk)
    (of_float : F → J) where
  -- The transactions of the blocks, for a time as a 64-bit number.
  unfoldable pub blocks_of_day : Db → ℕ → Cursor driver
  blocks_of_day db last =
      let first = (last + 2 ^ 64 - 86400) % 2 ^ 64 in
      field (between (table_cursor driver db Name.blocks) first last "timestamp") "transactions"

  unfoldable pub turnover_24 : Db → ℕ → Exec W Unit
  unfolding each_block turnover_row blocks_of_day
  turnover_24 db last = do
    items ← get_data (blocks_of_day db last)
    let counted = each_block sdk (lib.values items) 0 no_totals
    count ← lift counted.0
    update driver (open_table db Name.turnovers) (turnover_row sdk of_float count counted.1)
