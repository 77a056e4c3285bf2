-- ===== src/Tests/StatisticsExamples.antt =====
-- The theorems on the statistics at three transfers, two of one asset and one of the other.
use mathlib.Core.List.Permᴰ
use mile_explorer.Common.Exec.{Exception, ok, throw}
use mile_explorer.Common.{ℕ, String, ◌≡◌, ◌≢◌, refl, ◌⊎◌, List, [], ◌∷◌, arith}
use mile_explorer.Common.Int.{pos}
use mile_explorer.Common.Text.{to_string}
use mile_explorer.Common.Text.Integer.{stoi}
use mile_explorer.Json.Value.{Value, str, obj, arr, item, done, field, end}
use mile_explorer.Db.Name
use mile_explorer.Db.Cursor
use mile_explorer.Db.Cursor.{get_data, between, max}
use mile_explorer.Db.Getters.{get_block_history_state}
use mile_explorer.Db.Statistics.{less, StatisticMethod, add_each, last_time, statistics_round}
use mile_explorer.Db.Table.{open_table, update, cursor}
use mile_explorer.Indexer.Assets.{time_of, text_at}
use mile_explorer.Indexer.Assets.Laws.{Asset}
use mile_explorer.Indexer.Turnover.{turnover_row, turnover_24, blocks_of_day}
use mile_explorer.Indexer.Turnover.Laws.{turnover_24_totals}
use mile_explorer.Indexer.WalletsTop.{Reql, wallets_top_upd}
use mile_explorer.Indexer.Statistics.Laws.{indexer_statistics}
use mile_explorer.Indexer.Weeks.{Weeks, weeks_row, turnover_trx, transactions_of_weeks}
use mile_explorer.Indexer.Weeks.Days.{transfers}
use mile_explorer.Indexer.Weeks.Laws.{turnover_trx_counts}
use mile_explorer.Tests.Fixtures.{n, lib, floats, sdk, answering, db}

abbrev transfer : String → Value
transfer code =
    let asset = obj (field "code" (str code) (field "amount" (str "5") end)) in
    obj (field "timestamp" (n 1300000) (field "asset" (arr (item asset done)) end))

abbrev block : Value
block = arr (item (transfer "0") (item (transfer "1") (item (transfer "0") done)))

abbrev of_amount : ℕ → Value
of_amount = n

abbrev asset : ℕ → Asset
asset code = record { code = code; amount = "5"; time = pos 1300000 }

differ : sdk.xdr_code ≢ sdk.mile_code
differ = omega arith

turnover_24_totals_example :
    turnover_24 (answering (arr (item block (item (n 3) done)))) sdk of_amount db 1300000 0
    ≡ update
        (answering (arr (item block (item (n 3) done))))
        (open_table db Name.turnovers)
        (turnover_row sdk of_amount 3
          (record { xdr = 10; mile = 5; count_xdr = 2; count_mile = 1 }))
        1
unfolding get_data blocks_of_day mile_explorer.Db.Cursor.field between cursor time_of text_at stoi
turnover_24_totals_example =
    turnover_24_totals (answering (arr (item block (item (n 3) done)))) sdk of_amount (λ s. 5) db
      1300000 0 1 (arr (item block (item (n 3) done))) (asset 0 ∷ asset 1 ∷ asset 0 ∷ []) differ
      refl refl (refl, (refl, (refl, tt)))

turnover_trx_counts_example :
    (weeks : Weeks ℕ) × (transfers weeks.xdr ≡ 2)
    × (transfers weeks.mile ≡ 1)
    × (turnover_trx (answering block) sdk of_amount db 1300000 0
        ≡ update
            (answering block)
            (open_table db Name.transaction_turnover)
            (weeks_row of_amount sdk weeks)
            1)
unfolding get_data transactions_of_weeks between cursor time_of text_at stoi
turnover_trx_counts_example =
    turnover_trx_counts (answering block) sdk of_amount (λ s. 5) db 1300000 0 1 block
      (asset 0 ∷ asset 1 ∷ asset 0 ∷ []) differ (omega arith) (omega arith) refl refl refl
      (refl, (refl, (refl, tt)))
      ((omega arith, omega arith), ((omega arith, omega arith), ((omega arith, omega arith), tt)))

-- The registrations in another order, and a block with a time.
abbrev reql : Reql String
reql = record {
  row = "row";
  text = λ s. s;
  number = to_string;
  member = λ t name. name;
  has_fields = λ t names. t;
  and = λ t u. u;
  or = λ t u. u;
  eq = λ t u. u;
  add = λ t u. u;
  type_of = λ t. t;
  coerce_to = λ t type. t;
  desc = λ t. t;
  object = λ fields. "object";
  array = λ ts. "array";
  func1 = λ f. f "a";
  func2 = λ f. f "a" "b";
  func3 = λ f. f "a" "b" "c";
  map = λ t f. f;
  emit = λ f g. g;
}

abbrev timed : Value
timed = obj (field "timestamp" (n 1300000) end)

abbrev entries : List (String × StatisticMethod ℕ)
entries =
    ("transaction_turnover", turnover_trx (answering timed) sdk of_amount)
    ∷ ("turnover24", turnover_24 (answering timed) sdk of_amount)
    ∷ ("wallets_top_upd", wallets_top_upd (answering timed) reql sdk)
    ∷ []

indexer_statistics_example :
    ((last : ℕ) × (last_time timed ≡ ok last)
      × (statistics_round (answering timed) (add_each entries []) db 0 ≡ (
        ok tt,
        (wallets_top_upd
            (answering timed)
            reql
            sdk
            db
            last
            (turnover_24
              (answering timed)
              sdk
              of_amount
              db
              last
              (turnover_trx (answering timed) sdk of_amount db last 1).1).1).1,
      )))
    ⊎ ((e : Exception) × (last_time timed ≡ throw e)
        × (statistics_round (answering timed) (add_each entries []) db 0 ≡ (throw e, 1)))
unfolding get_block_history_state get_data max cursor
indexer_statistics_example =
    indexer_statistics (answering timed) reql sdk of_amount entries db 0 1 timed
      (Permᴰ.swap refl refl) refl

-- The time of that block can be read.
timed_time : last_time timed ≡ ok 1300000
unfolding last_time
timed_time = refl

registered : add_each {M = ℕ} (("b", 1) ∷ ("a", 2) ∷ ("b", 3) ∷ []) [] ≡ ("a", 2) ∷ ("b", 1) ∷ []
unfolding add_each less
registered = refl
