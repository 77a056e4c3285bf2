-- ===== src/Tests/IntervalExamples.antt =====
-- The theorems on intervals at three days.
use mile_explorer.Common.{ℕ, ◌≡◌, refl, none, some, arith}
use mile_explorer.Indexer.Intervals.{Interval, fill, interval_map, find_if}
use mile_explorer.Indexer.Intervals.Laws.{IsCut, find_if-interval_map}

abbrev nothing : ℕ
nothing = 0

find_if-interval_map_example :
    (t : Interval) × ((find_if 172800 (interval_map 86400 345600 86400 nothing) ≡ some t)
      × IsCut 86400 86400 172800 t)
find_if-interval_map_example =
    find_if-interval_map 86400 345600 86400 172800 nothing (omega arith) (omega arith) (omega arith)
      (omega arith)

-- The end of a day belongs to the day that it ends, and no day is found for what comes later.
day_tests :
    (find_if 172800 (fill 3 86400 345600 86400 nothing)
      ≡ some (record { first = 86400; second = 172800 }))
    × (find_if 172801 (fill 3 86400 345600 86400 nothing)
        ≡ some (record { first = 172800; second = 259200 }))
    × (find_if 345601 (fill 3 86400 345600 86400 nothing) ≡ none)
unfolding find_if fill
day_tests = (refl, refl, refl)
