-- ===== src/Indexer/Intervals.antt =====
-- indexer/statistics/utils.hpp: the time line cut into intervals, with a value for each. The template
-- is taken at times that are not negative, below the range of `time_t`; the intervals are put into the
-- map in its order, so the list that they make is in that order.
pub mod Laws
use mile_explorer.Common.{
  ℕ, zero, suc, ◌+◌, ◌-◌, Bool, ◌&&◌, Option, none, some, List, [], ◌∷◌, if◌then◌else◌, ltb, leb,
}

pub record Interval : Type 0 where
  pub first : ℕ
  pub second : ℕ

-- `operator<`
unfoldable pub before : Interval → Interval → Bool
before l r = leb l.second r.first && (ltb l.first r.first && ltb l.second r.second)

abbrev pub IntervalMap : Type 0 → Type 0
IntervalMap C = List (Interval × C)

module _ {C : Type 0} where
  -- The loop of the constructor, from `i` on.
  unfoldable pub fill : ℕ → ℕ → ℕ → ℕ → C → IntervalMap C
  fill zero i end step c = []
  fill (suc fuel) i end step c =
      let rest = fill fuel (i + step) end step c in
      if ltb i end then (record { first = i; second = i + step }, c) ∷ rest else []

  -- One interval for each unit of time is enough, as a step is at least one.
  unfoldable pub interval_map : ℕ → ℕ → ℕ → C → IntervalMap C
  interval_map begin end step c = fill (end - begin) begin end step c

  -- The interval that `operator[]` takes for a key, or none, which is undefined in C++.
  unfoldable pub find_if : ℕ → IntervalMap C → Option Interval
  find_if key [] = none
  find_if key ((t, c) ∷ m) =
      let rest = find_if key m in if leb t.first key && leb key t.second then some t else rest

  -- A write through `operator[]`: the value of that interval changes, or none is there.
  unfoldable pub change : ℕ → (C → C) → IntervalMap C → Option (IntervalMap C)
  change key f [] = none
  change key f ((t, c) ∷ m) =
      let rest : Option (IntervalMap C) = elim (change key f m) [
        | none ↦ none
        | some m' ↦ some ((t, c) ∷ m')
      ] in
      if leb t.first key && leb key t.second then some ((t, f c) ∷ m) else rest
