-- ===== src/Indexer/Weeks/Laws.antt =====
-- Each transfer is counted in one day: indexer/statistics/turnover_trx.cpp.
use mile_explorer.Common.{
  ℕ, ◌+◌, ◌-◌, ◌^◌, ◌<◌, ◌≤◌, String, ◌≡◌, ◌≢◌, refl, inl, inr, Bool-cases, true, false, List, [],
  ◌∷◌, arith, ◌==◌,
}
use mile_explorer.Common.Exec.{ok}
use mile_explorer.Common.Float.{FloatLib}
use mile_explorer.Common.Int.{ℤ, pos, negsuc}
use mile_explorer.Common.Lists.{All, length}
use mile_explorer.Json.{JsonLib, is_array}
use mile_explorer.Driver.{Driver, Sdk}
use mile_explorer.Db.{Db}
use mile_explorer.Db.Name
use mile_explorer.Db.Cursor.{get_data}
use mile_explorer.Db.Table.{open_table, update}
use mile_explorer.Indexer.Assets.{call_back}
use mile_explorer.Indexer.Assets.Laws.{Asset, assets_of, call_backs, enumerate_assets-call_backs}
use mile_explorer.Indexer.Turnover.Laws.{number_of, HaveValues}
use mile_explorer.Indexer.Weeks.{
  Weeks, two_week, add_xdr, add_mile, no_transfers, transactions_of_weeks, weeks_row, turnover_trx,
}
use mile_explorer.Indexer.Weeks.Days.{transfers, AreDays, empty-AreDays, counted_as, add_to-AreDays}

-- The time lies in the two weeks.
abbrev pub IsWithin : ℕ → ℤ → Type 0
IsWithin last (negsuc t) = ⊥
IsWithin last (pos t) = (last - two_week ≤ t) × (t ≤ last)

time_within :
    (last : ℕ) (z : ℤ)
    → IsWithin last z
    → (t : ℕ) × ((z ≡ pos t) × ((last - two_week ≤ t) × (t ≤ last)))
time_within last (negsuc t) within = absurd within
time_within last (pos t) within = (t, (refl, within))

module _ {F : Type 0} ⦃floats : FloatLib F⦄ (sdk : Sdk) (value : String → F) where
  pub record Counts (last xdr mile : ℕ) (s : Weeks F) : Type 0 where
    pub xdr_days : AreDays last xdr s.xdr
    pub mile_days : AreDays last mile s.mile

  call_back-Counts :
      (last xdr mile : ℕ) (a : Asset) (s : Weeks F)
      → sdk.xdr_code ≢ sdk.mile_code
      → xdr + 1 < 2 ^ 64
      → mile + 1 < 2 ^ 64
      → IsWithin last a.time
      → floats.stold a.amount ≡ ok (value a.amount)
      → Counts last xdr mile s
      → (s' : Weeks F) × ((call_back sdk add_xdr add_mile a.code a.amount a.time s ≡ (ok tt, s'))
          × Counts last
              (xdr + number_of sdk.xdr_code (a ∷ []))
              (mile + number_of sdk.mile_code (a ∷ []))
              s')
  unfolding call_back add_xdr add_mile
  call_back-Counts last xdr mile a s differ bx bm within has c =
      let (t, (is_t, (from, to))) = time_within last a.time within in
      let v = value a.amount in
      elim (Bool-cases (a.code == sdk.xdr_code)) [
        | inl e ↦
            let (m', (added, days)) = add_to-AreDays last xdr t v s.xdr from to bx c.xdr_days in
            let f : (a.code == sdk.mile_code) ≡ false = ground arith in
            (
              record s { xdr = m' },
              (
                ground arith,
                record {
                  xdr_days = counted_as last m' (ground arith) days;
                  mile_days = counted_as last s.mile (ground arith) c.mile_days;
                },
              ),
            )
        | inr e ↦ elim (Bool-cases (a.code == sdk.mile_code)) [
          | inl f ↦
              let (m', (added, days)) =
                add_to-AreDays last mile t v s.mile from to bm c.mile_days in
              (
                record s { mile = m' },
                (
                  ground arith,
                  record {
                    xdr_days = counted_as last s.xdr (ground arith) c.xdr_days;
                    mile_days = counted_as last m' (ground arith) days;
                  },
                ),
              )
          | inr f ↦ (
            s,
            (
              ground arith,
              record {
                xdr_days = counted_as last s.xdr (ground arith) c.xdr_days;
                mile_days = counted_as last s.mile (ground arith) c.mile_days;
              },
            ),
          )
        ]
      ]

  call_backs-Counts :
      (last xdr mile : ℕ) (xs : List Asset) (s : Weeks F)
      → sdk.xdr_code ≢ sdk.mile_code
      → xdr + length xs < 2 ^ 64
      → mile + length xs < 2 ^ 64
      → All (λ (a : Asset). IsWithin last a.time) xs
      → HaveValues value xs
      → Counts last xdr mile s
      → (s' : Weeks F) × ((call_backs sdk add_xdr add_mile xs s ≡ (ok tt, s'))
          × Counts last (xdr + number_of sdk.xdr_code xs) (mile + number_of sdk.mile_code xs) s')
  call_backs-Counts last xdr mile [] s differ bx bm within has c = (
    s,
    (
      refl,
      record {
        xdr_days = counted_as last s.xdr (omega arith) c.xdr_days;
        mile_days = counted_as last s.mile (omega arith) c.mile_days;
      },
    ),
  )
  call_backs-Counts last xdr mile (a ∷ xs) s differ bx bm (within, others) (has, values) c =
      let nx = number_of sdk.xdr_code (a ∷ []) in
      let nm = number_of sdk.mile_code (a ∷ []) in
      let (s1, (called, c1)) =
        call_back-Counts last xdr mile a s differ (omega arith) (omega arith) within has c in
      let (s2, (rest, c2)) =
        call_backs-Counts last (xdr + nx) (mile + nm) xs s1 differ (ground arith) (ground arith)
          others values c1 in
      (
        s2,
        (
          ground arith,
          record {
            xdr_days = counted_as last s2.xdr (ground arith) c2.xdr_days;
            mile_days = counted_as last s2.mile (ground arith) c2.mile_days;
          },
        ),
      )

module _ {J F W : Type 0} ⦃lib : JsonLib J⦄ ⦃floats : FloatLib F⦄ (driver : Driver J W) (sdk : Sdk)
    (of_float : F → J) (value : String → F) where
  -- If the query for the two weeks returns an array, the two assets have different codes, the
  -- members and the amount of every asset can be read, there are fewer than 2^64 of them and each
  -- has a time in the two weeks, turnover_trx updates the row of the transfers with days whose
  -- counts add up, for each of the two assets, to the number of its transfers.
  pub turnover_trx_counts :
      (db : Db) (last : ℕ) (w w' : W) (items : J) (xs : List Asset)
      → sdk.xdr_code ≢ sdk.mile_code
      → two_week ≤ last
      → length xs < 2 ^ 64
      → get_data (transactions_of_weeks driver sdk of_float db last) w ≡ (ok items, w')
      → is_array items ≡ true
      → assets_of (lib.items items) ≡ ok xs
      → HaveValues value xs
      → All (λ (a : Asset). IsWithin last a.time) xs
      → (weeks : Weeks F) × (transfers weeks.xdr ≡ number_of sdk.xdr_code xs)
        × (transfers weeks.mile ≡ number_of sdk.mile_code xs)
        × (turnover_trx driver sdk of_float db last w
            ≡ update driver
                (open_table db Name.transaction_turnover)
                (weeks_row of_float sdk weeks)
                w')
  unfolding turnover_trx no_transfers
  turnover_trx_counts db last w w' items xs differ after bound got an_array has values within =
      let start = no_transfers last in
      let days = empty-AreDays {F = F} last after in
      let (weeks, (called, counts)) =
        call_backs-Counts sdk value last 0 0 xs start differ (omega arith) (omega arith) within
          values (record { xdr_days = days; mile_days = days }) in
      let all = enumerate_assets-call_backs sdk add_xdr add_mile items xs start an_array has in
      (
        weeks,
        omega (arith, counts.xdr_days.counted),
        omega (arith, counts.mile_days.counted),
        ground (arith, got, all, called),
      )
