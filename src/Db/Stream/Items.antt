-- ===== src/Db/Stream/Items.antt =====
-- The loop over the queued transactions, against a server that behaves as Db.Stream.Tables says:
-- common/src/db/transactions/processing.cpp.
use mile_explorer.Common.{
  ℕ, ◌+◌, ◌^◌, ◌<◌, ◌≤◌, String, ◌≡◌, refl, ◌∙◌, inl, inr, Bool, Bool-cases, true, false,
  Option-cases, List, [], ◌∷◌, arith, ltb, ◌&&◌,
}
use mile_explorer.Common.Lists.{All, length}
use mile_explorer.Common.Exec.{ok}
use mile_explorer.Json.Laws.{at_found, index_found, string_found, uint64_found}
use mile_explorer.Json.{JsonLib}
use mile_explorer.Driver.{Driver}
use mile_explorer.Db.{Db}
use mile_explorer.Db.Stream.{
  is_marker, Pass, is_gap, number_transaction, process_item, process_items,
}
use mile_explorer.Db.Stream.Laws.{IsRow, marks}
use mile_explorer.Db.Stream.Tables.{Tables}
use mile_explorer.Db.Stream.Writes.{AreStored, take_off_writes}
use mile_explorer.Db.Stream.Serials.{IsServed, IsServed-after, number_stored, number_new}

module _ {J W : Type 0} ⦃lib : JsonLib J⦄ {driver : Driver J W} {db : Db}
    (tables : Tables driver db) where
  number-IsServed :
      (item : J) (bid : ℕ) (trxid : String) (s : Pass W)
      → IsRow item bid trxid
      → s.last_count + 1 < 2 ^ 53
      → IsServed tables s
      → (s' : Pass W) × (number_transaction driver db item bid trxid s ≡ (ok tt, s'))
        × IsServed tables s'
        × (s'.last_count ≤ s.last_count + 1)
        × AreStored tables s.world s'.world
  number-IsServed item bid trxid s row bound served =
      elim (Option-cases (tables.transaction s.world trxid)) [
        | inl e ↦ number_new tables item bid trxid s row bound e served
        | inr (old, e) ↦ number_stored tables item old bid trxid s e served
      ]

  process_item-IsServed :
      (item : J) (bid : ℕ) (trxid : String) (s : Pass W)
      → IsRow item bid trxid
      → s.last_count + 1 < 2 ^ 53
      → IsServed tables s
      → (s' : Pass W) × (more : Bool) × (process_item driver db item s ≡ (ok more, s'))
        × IsServed tables s'
        × (s'.last_count ≤ s.last_count + 1)
        × AreStored tables s.world s'.world
  unfolding process_item is_marker
  process_item-IsServed item bid trxid s row bound served =
      let number = index_found item "block-id" row.number row.has_number in
      let bid_is = uint64_found row.number bid row.number_is in
      let name = index_found item "id" row.name row.has_name in
      let trxid_is = string_found row.name trxid row.name_is in
      let type = at_found item "transaction-type" row.type row.has_type in
      let moved : Pass W = record s { prev_bid = bid } in
      let served' : IsServed tables moved = record {
        numbered = served.numbered;
        counted = served.counted;
      } in
      elim (Bool-cases (marks row.type)) [
        | inl m ↦
            let (w', taken, kept) = take_off_writes tables trxid s.world in
            (
              record s { world = w'; prev_bid = bid },
              true,
              ground (arith, taken),
              IsServed-after tables s w' bid served kept,
              omega arith,
              λ id old h. kept.rows id ∙ h,
            )
        | inr m ↦ elim (Bool-cases (ltb 0 s.prev_bid && is_gap bid s.prev_bid)) [
          | inl g ↦ (moved, false, ground arith, served', omega arith, λ id old h. h)
          | inr g ↦
              let (s', numbered, after, few, stored) =
                number-IsServed item bid trxid s row bound served in
              (s', true, ground arith, after, few, stored)
        ]
      ]

  -- The loop over rows that can be read, where no serial number reaches 2^53, keeps the numbers right.
  pub process_items-IsServed :
      (items : List J) (s : Pass W)
      → All (λ item. (bid : ℕ) × (trxid : String) × IsRow item bid trxid) items
      → s.last_count + length items < 2 ^ 53
      → IsServed tables s
      → (s' : Pass W) × (process_items driver db items s ≡ (ok tt, s'))
        × IsServed tables s'
        × (s'.last_count ≤ s.last_count + length items)
        × AreStored tables s.world s'.world
  unfolding process_items
  process_items-IsServed [] s rows bound served = (s, refl, served, omega arith, λ id old h. h)
  process_items-IsServed (item ∷ items) s ((bid, trxid, row), rows) bound served =
      let (s1, more, done, served1, few, stored1) =
        process_item-IsServed item bid trxid s row (omega arith) served in
      elim (Bool-cases more) [
        | inl m ↦
            let (s2, rest, served2, few2, stored2) =
              process_items-IsServed items s1 rows (omega (arith, few)) served1 in
            (
              s2,
              ground (arith, done, rest),
              served2,
              omega (arith, few, few2),
              λ id old h. stored2 id old (stored1 id old h),
            )
        | inr m ↦ (s1, ground (arith, done), served1, omega (arith, few), stored1)
      ]
