-- ===== src/Indexer/Intervals/Laws.antt =====
-- The interval that a time falls into: indexer/statistics/utils.hpp.
use mile_explorer.Common.{
  ℕ, zero, suc, ◌+◌, ◌-◌, ◌≤◌, ◌<◌, ◌≡◌, refl, ◌⊎◌, inl, inr, true, some, [], ◌∷◌, arith, ltb, leb,
  Bool-cases,
}
use mile_explorer.Indexer.Intervals.{Interval, IntervalMap, fill, interval_map, find_if, before}

-- The interval is one step long, starts at `begin` or later, and has the key in it: its end counts,
-- its start only where no interval is before it.
pub record IsCut (begin step key : ℕ) (t : Interval) : Type 0 where
  pub from_begin : begin ≤ t.first
  pub one_step : t.second ≡ t.first + step
  pub after_start : (t.first < key) ⊎ ((t.first ≡ begin) × (key ≡ begin))
  pub up_to_end : key ≤ t.second

first-IsCut :
    (i step key : ℕ)
    → i ≤ key
    → key ≤ i + step
    → IsCut i step key (record { first = i; second = i + step })
first-IsCut i step key from to = record {
  from_begin = omega arith;
  one_step = refl;
  after_start = elim (Bool-cases (ltb i key)) [
    | inl g ↦ inl (ground arith)
    | inr g ↦ inr (refl, ground arith)
  ];
  up_to_end = to;
}

later-IsCut :
    (i step key : ℕ) (t : Interval)
    → i + step < key
    → IsCut (i + step) step key t
    → IsCut i step key t
later-IsCut i step key t after cut = record {
  from_begin = omega (arith, cut.from_begin);
  one_step = cut.one_step;
  after_start = elim cut.after_start [ inl g ↦ inl g | inr (f, g) ↦ absurd (omega arith) ];
  up_to_end = cut.up_to_end;
}

module _ {C : Type 0} where
  find_if-fill :
      (fuel i end step key : ℕ) (c : C)
      → end ≤ i + fuel
      → 0 < step
      → i ≤ key
      → key ≤ end
      → i < end
      → (t : Interval) × ((find_if key (fill fuel i end step c) ≡ some t) × IsCut i step key t)
  unfolding find_if fill
  find_if-fill zero i end step key c enough h from to more = absurd (omega arith)
  find_if-fill (suc fuel) i end step key c enough h from to more =
      elim (Bool-cases (leb key (i + step))) [
        | inl e ↦ (
          record { first = i; second = i + step },
          (ground arith, first-IsCut i step key from (ground arith)),
        )
        | inr e ↦
            let (t, (found, cut)) =
              find_if-fill fuel (i + step) end step key c (omega arith) h (ground arith) to
                (ground arith) in
            (t, (ground arith, later-IsCut i step key t (ground arith) cut))
      ]

  -- For a positive step, a begin below the end, and a time between the two, both included, the map
  -- that the constructor of interval_map makes has an interval for the time: one step long,
  -- starting at the begin or later, with its end and without its start, which counts only at the
  -- begin.
  pub find_if-interval_map :
      (begin end step key : ℕ) (c : C)
      → 0 < step
      → begin ≤ key
      → key ≤ end
      → begin < end
      → (t : Interval) × ((find_if key (interval_map begin end step c) ≡ some t)
          × IsCut begin step key t)
  unfolding interval_map
  find_if-interval_map begin end step key c h from to more =
      find_if-fill (end - begin) begin end step key c (omega arith) h from to more

  -- Each interval is before the next, in the order of the map.
  abbrev pub IsChain : IntervalMap C → Type 0
  IsChain [] = Unit
  IsChain (x ∷ []) = Unit
  IsChain (x ∷ y ∷ m) = (before x.0 y.0 ≡ true) × IsChain (y ∷ m)
