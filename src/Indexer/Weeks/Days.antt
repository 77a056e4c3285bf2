-- ===== src/Indexer/Weeks/Days.antt =====
-- The days of two weeks and what is counted in them: indexer/statistics/turnover_trx.cpp.
use mile_explorer.Common.{
  ℕ, zero, suc, ◌+◌, ◌-◌, ◌^◌, ◌<◌, ◌≤◌, ◌≡◌, refl, ◌∙◌, inl, inr, Bool-cases, some, [], ◌∷◌, arith,
  ◌&&◌, leb,
}
use mile_explorer.Common.Exec.{ok}
use mile_explorer.Common.Float.{FloatLib}
use mile_explorer.Common.Int.{pos}
use mile_explorer.Indexer.Intervals.{Interval, IntervalMap, fill, interval_map, find_if, change}
use mile_explorer.Indexer.Intervals.Laws.{find_if-interval_map}
use mile_explorer.Indexer.Weeks.{Day, day, two_week, add_to_day, add_to}

module _ {F : Type 0} ⦃floats : FloatLib F⦄ where
  -- The transfers of all the days.
  abbrev pub transfers : IntervalMap (Day F) → ℕ
  transfers [] = 0
  transfers ((t, (sum, count)) ∷ m) = count + transfers m

  -- A write changes a map that has an interval for the time by one transfer, and no interval.
  pub record IsAdded (m m' : IntervalMap (Day F)) : Type 0 where
    pub counted : transfers m' ≡ transfers m + 1
    pub same : (key : ℕ) → find_if key m' ≡ find_if key m

  change-IsAdded :
      (t : ℕ) (amount : F) (m : IntervalMap (Day F)) (iv : Interval)
      → find_if t m ≡ some iv
      → transfers m + 1 < 2 ^ 64
      → (m' : IntervalMap (Day F)) × ((change t (add_to_day amount) m ≡ some m') × IsAdded m m')
  unfolding find_if change add_to_day
  change-IsAdded t amount [] iv found bound = absurd (ground arith)
  change-IsAdded t amount ((u, (sum, count)) ∷ m) iv found bound =
      elim (Bool-cases (leb u.first t && leb t u.second)) [
        | inl e ↦ (
          (u, (floats.add sum amount, count + 1)) ∷ m,
          (ground arith, record { counted = omega arith; same = λ key. ground arith }),
        )
        | inr e ↦
            let (m', (changed, added)) =
              change-IsAdded t amount m iv (ground arith) (omega arith) in
            (
              (u, (sum, count)) ∷ m',
              (
                ground arith,
                record {
                  counted = omega (arith, added.counted);
                  same = λ key. ground (arith, added.same key);
                },
              ),
            )
      ]

  transfers-fill : (fuel i end step : ℕ) (sum : F) → transfers (fill fuel i end step (sum, 0)) ≡ 0
  unfolding fill
  transfers-fill zero i end step sum = refl
  transfers-fill (suc fuel) i end step sum =
      ground (arith, transfers-fill fuel (i + step) end step sum)

  -- Every time of the weeks has a day, and `total` transfers have been counted.
  pub record AreDays (last total : ℕ) (m : IntervalMap (Day F)) : Type 0 where
    pub counted : transfers m ≡ total
    pub covers :
        (t : ℕ) → last - two_week ≤ t → t ≤ last → (iv : Interval) × (find_if t m ≡ some iv)

  pub empty-AreDays :
      (last : ℕ)
      → two_week ≤ last
      → AreDays last 0 (interval_map (last - two_week) last day (floats.zero, 0))
  unfolding interval_map
  empty-AreDays last h = record {
    counted = transfers-fill (last - (last - two_week)) (last - two_week) last day floats.zero;
    covers = λ t from to.
        let (iv, (found, cut)) =
          find_if-interval_map (last - two_week) last day t (floats.zero, 0) (omega arith) from to
            (omega arith) in
        (iv, found);
  }

  pub counted_as :
      (last : ℕ) (m : IntervalMap (Day F)) {n k : ℕ} → n ≡ k → AreDays last n m → AreDays last k m
  counted_as last m e days = record { counted = days.counted ∙ e; covers = days.covers }

  pub add_to-AreDays :
      (last total t : ℕ) (amount : F) (m : IntervalMap (Day F))
      → last - two_week ≤ t
      → t ≤ last
      → total + 1 < 2 ^ 64
      → AreDays last total m
      → (m' : IntervalMap (Day F)) × ((add_to amount (pos t) m ≡ ok m')
          × AreDays last (total + 1) m')
  unfolding add_to
  add_to-AreDays last total t amount m from to bound days =
      let (iv, found) = days.covers t from to in
      let (m', (changed, added)) =
        change-IsAdded t amount m iv found (omega (arith, days.counted)) in
      (
        m',
        (
          ground arith,
          record {
            counted = omega (arith, days.counted, added.counted);
            covers = λ k from_k to_k.
                let (iv_k, found_k) = days.covers k from_k to_k in (iv_k, added.same k ∙ found_k);
          },
        ),
      )
