-- ===== src/Indexer/Weeks.antt =====
-- indexer/statistics/turnover_trx.cpp: what was transferred in each day of two weeks. The time `last`
-- is at least two weeks, below the range of `time_t`.
pub mod Days
pub mod Laws
use mile_explorer.Common.{ℕ, ◌+◌, ◌-◌, ◌*◌, ◌%◌, ◌^◌, Option, none, some, List, [], ◌∷◌}
use mile_explorer.Common.Exec.{Exec, Result, ok, throw, unknown, pure, lift, ◌>>=◌, ◌>>◌}
use mile_explorer.Common.Float.{FloatLib}
use mile_explorer.Common.Int.{ℤ, pos, negsuc}
use mile_explorer.Common.Text.{to_string}
use mile_explorer.Json.{JsonLib}
use mile_explorer.Driver.{Driver, Sdk}
use mile_explorer.Db.{Db}
use mile_explorer.Db.Name
use mile_explorer.Db.Cursor.{Cursor, between, get_data}
use mile_explorer.Db.Getters.{table_cursor}
use mile_explorer.Db.Table.{open_table, update}
use mile_explorer.Indexer.Intervals.{Interval, IntervalMap, interval_map, change}
use mile_explorer.Indexer.Assets.{enumerate_assets}

-- The amount and the number of the transfers of a day.
abbrev pub Day : Type 0 → Type 0
Day F = F × ℕ

-- The two maps that the callbacks write.
pub record Weeks (F : Type 0) : Type 0 where
  pub xdr : IntervalMap (Day F)
  pub mile : IntervalMap (Day F)

abbrev pub day : ℕ
day = 86400

abbrev pub two_week : ℕ
two_week = 1209600

module _ {F : Type 0} ⦃floats : FloatLib F⦄ where
  add_to_day : F → Day F → Day F
  add_to_day amount (sum, count) = (floats.add sum amount, (count + 1) % 2 ^ 64)

  -- A time outside of the weeks dereferences the end of the map, which is undefined in C++, and throws
  -- `unknown` here.
  unfoldable pub add_to : F → ℤ → IntervalMap (Day F) → Result (IntervalMap (Day F))
  unfolding add_to_day
  add_to amount (negsuc t) weeks = throw unknown
  add_to amount (pos t) weeks = elim (change t (add_to_day amount) weeks) [
    | none ↦ throw unknown
    | some weeks' ↦ ok weeks'
  ]

  unfoldable pub add_xdr : F → ℤ → Exec (Weeks F) Unit
  add_xdr amount t s = elim (add_to amount t s.xdr) [
    | ok weeks ↦ (ok tt, record s { xdr = weeks })
    | throw e ↦ (throw e, s)
  ]

  unfoldable pub add_mile : F → ℤ → Exec (Weeks F) Unit
  add_mile amount t s = elim (add_to amount t s.mile) [
    | ok weeks ↦ (ok tt, record s { mile = weeks })
    | throw e ↦ (throw e, s)
  ]

  unfoldable pub no_transfers : ℕ → Weeks F
  no_transfers last =
      let empty = interval_map (last - two_week) last day (floats.zero, 0) in
      record { xdr = empty; mile = empty }

module _ {J F : Type 0} ⦃lib : JsonLib J⦄ (of_float : F → J) where
  day_row : Interval → Day F → J
  day_row t (amount, count) =
      let begun = lib.put lib.null_value "begin" (lib.of_uint t.first) in
      let ended = lib.put begun "end" (lib.of_uint t.second) in
      lib.put (lib.put ended "amount" (of_float amount)) "count" (lib.of_uint count)

  trx_update : IntervalMap (Day F) → J → J
  unfolding day_row
  trx_update [] trx = trx
  trx_update ((t, value) ∷ week) trx = trx_update week (lib.push_back trx (day_row t value))

  unfoldable pub weeks_row : Sdk → Weeks F → J
  unfolding trx_update
  weeks_row sdk s =
      let xdr = trx_update s.xdr lib.null_value in
      let mile = trx_update s.mile lib.null_value in
      let assets =
        lib.put (lib.put lib.null_value (to_string sdk.xdr_code) xdr) (to_string sdk.mile_code)
          mile in
      lib.put (lib.put lib.null_value "id" (lib.of_string "transaction-turnover")) "assets" assets

module _ {J F W : Type 0} ⦃lib : JsonLib J⦄ ⦃floats : FloatLib F⦄ (driver : Driver J W) (sdk : Sdk)
    (of_float : F → J) where
  unfoldable pub transactions_of_weeks : Db → ℕ → Cursor driver
  transactions_of_weeks db last =
      between (table_cursor driver db Name.transactions) (last - two_week) last "timestamp"

  unfoldable pub turnover_trx : Db → ℕ → Exec W Unit
  unfolding weeks_row transactions_of_weeks
  turnover_trx db last = do
    items ← get_data (transactions_of_weeks db last)
    let counted = enumerate_assets sdk add_xdr add_mile items (no_transfers last)
    lift counted.0
    update driver (open_table db Name.transaction_turnover) (weeks_row of_float sdk counted.1)
