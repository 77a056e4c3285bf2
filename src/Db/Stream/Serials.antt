-- ===== src/Db/Stream/Serials.antt =====
-- The processing of transactions gives each serial number once, without a gap, against a server that
-- behaves as Db.Stream.Tables says: common/src/db/transactions/processing.cpp.
use mile_explorer.Common.{
  ℕ, ◌+◌, ◌^◌, ◌<◌, ◌≤◌, String, ◌≡◌, ◌∙◌, ap, inl, inr, Bool-cases, none, some, arith, str_eq,
  eq_iff, if◌then◌else◌,
}
use mile_explorer.Common.Exec.{ok}
use mile_explorer.Json.Laws.{object_found, assign_object, find_object}
use mile_explorer.Json.{JsonLib}
use mile_explorer.Driver.{Driver}
use mile_explorer.Db.{Db}
use mile_explorer.Db.Table.{insert}
use mile_explorer.Db.Stream.{Pass, number_transaction}
use mile_explorer.Db.Stream.Laws.{IsRow}
use mile_explorer.Db.Stream.Tables.{Tables}
use mile_explorer.Db.Stream.Numbered.{IsNumbered, numbered_more, numbered_same}
use mile_explorer.Db.Stream.Writes.{
  AreKept, AreStored, get_row, take_off_writes, update_state_writes,
}

module _ {J W : Type 0} ⦃lib : JsonLib J⦄ {driver : Driver J W} {db : Db}
    (tables : Tables driver db) where
  -- The transactions have the numbers below the count, which the state holds.
  pub record IsServed (s : Pass W) : Type 0 where
    pub numbered : IsNumbered (tables.transaction s.world) s.last_count
    pub counted : tables.count s.world ≡ some s.last_count

  pub IsServed-after :
      (s : Pass W) (w' : W) (bid : ℕ)
      → IsServed s
      → AreKept tables s.world w'
      → IsServed (record s { world = w'; prev_bid = bid })
  IsServed-after s w' bid served kept = record {
    numbered =
        numbered_same (tables.transaction s.world) (tables.transaction w') s.last_count
          served.numbered kept.rows;
    counted = kept.count ∙ served.counted;
  }

  -- A transaction that is there is only taken off the queue.
  pub number_stored :
      (item row : J) (bid : ℕ) (trxid : String) (s : Pass W)
      → tables.transaction s.world trxid ≡ some row
      → IsServed s
      → (s' : Pass W) × (number_transaction driver db item bid trxid s ≡ (ok tt, s'))
        × IsServed s'
        × (s'.last_count ≤ s.last_count + 1)
        × AreStored tables s.world s'.world
  unfolding number_transaction
  number_stored item row bid trxid s has served =
      let (got, read, there) = get_row tables trxid s.world in
      let (w', taken, kept) = take_off_writes tables trxid s.world in
      (
        record s { world = w'; prev_bid = bid },
        ground (arith, read, taken, there, has),
        IsServed-after s w' bid served kept,
        omega arith,
        λ id row h. kept.rows id ∙ h,
      )

  still_there :
      (stored : J) (trxid : String) (w w1 : W)
      → tables.transaction w trxid ≡ none
      → ((other : String)
          → tables.transaction w1 other
            ≡ (if str_eq trxid other then some stored else tables.transaction w other))
      → AreStored tables w w1
  still_there stored trxid w w1 absent rows id old h = elim (Bool-cases (str_eq trxid id)) [
    | inl e ↦
        let same : tables.transaction w trxid ≡ tables.transaction w id =
          ap (tables.transaction w) ((eq_iff trxid id).0 e) in
        absurd (ground (arith, same))
    | inr e ↦ ground (arith, rows id)
  ]

  pub number_new :
      (item : J) (bid : ℕ) (trxid : String) (s : Pass W)
      → IsRow item bid trxid
      → s.last_count + 1 < 2 ^ 53
      → tables.transaction s.world trxid ≡ none
      → IsServed s
      → (s' : Pass W) × (number_transaction driver db item bid trxid s ≡ (ok tt, s'))
        × IsServed s'
        × (s'.last_count ≤ s.last_count + 1)
        × AreStored tables s.world s'.world
  unfolding number_transaction insert
  number_new item bid trxid s row bound absent served =
      let (got, read, there) = get_row tables trxid s.world in
      let obj = object_found item "id" row.name row.has_name in
      let serial = lib.of_uint s.last_count in
      let stored = lib.put item "serial" serial in
      let same_id = find_object item "serial" serial "id" obj ∙ row.has_name in
      let (kept_row, answer, w1, keeps, inserted, rows1, count1) =
        tables.run_insert stored row.name trxid s.world same_id row.name_is absent in
      let (w2, written, rows2, count2) =
        update_state_writes tables (s.last_count + 1) bid w1 bound in
      let (w3, taken, kept) = take_off_writes tables trxid w2 in
      let numbered1 : IsNumbered (tables.transaction w1) (s.last_count + 1) =
        numbered_more (tables.transaction s.world) (tables.transaction w1) s.last_count trxid
          kept_row served.numbered absent
          (keeps s.last_count
            (
              serial,
              find_object item "serial" serial "serial" obj,
              lib.uint_number s.last_count (omega arith),
            )
            (omega arith))
          rows1 in
      let numbered2 =
        numbered_same (tables.transaction w1) (tables.transaction w2) (s.last_count + 1) numbered1
          rows2 in
      (
        record { world = w3; prev_bid = bid; last_count = s.last_count + 1 },
        ground (
          arith,
          read,
          there,
          absent,
          assign_object item "serial" serial obj,
          inserted,
          written,
          taken,
        ),
        record {
          numbered =
              numbered_same (tables.transaction w2) (tables.transaction w3) (s.last_count + 1)
                numbered2 kept.rows;
          counted = kept.count ∙ count2;
        },
        omega arith,
        λ id old h.
            kept.rows id ∙ rows2 id ∙ still_there kept_row trxid s.world w1 absent rows1 id old h,
      )
