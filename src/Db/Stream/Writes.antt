-- ===== src/Db/Stream/Writes.antt =====
-- What the processing of transactions reads and writes, on a server that behaves as Db.Stream.Tables
-- says: common/src/db/transactions/processing.cpp.
use mile_explorer.Common.{
  ℕ, ◌^◌, ◌<◌, String, ◌≡◌, ◌∙◌, inl, inr, true, Option-cases, some, arith, is_some,
}
use mile_explorer.Common.Exec.{ok}
use mile_explorer.Json.Laws.{
  at_found, string_found, object_first, object_put, find_first, find_object,
}
use mile_explorer.Json.{JsonLib}
use mile_explorer.Driver.{Driver}
use mile_explorer.Db.{Db}
use mile_explorer.Db.Name
use mile_explorer.Db.Cursor.{get_data, get, remove_id}
use mile_explorer.Db.Getters.{table_cursor}
use mile_explorer.Db.Table.{update, cursor}
use mile_explorer.Db.Stream.{state_row, update_state, take_off}
use mile_explorer.Db.Total.{run-cases}
use mile_explorer.Db.Stream.Tables.{Tables, HasCount, or_null}

module _ {J : Type 0} ⦃lib : JsonLib J⦄ where
  state_row-HasCount : (n bid : ℕ) → n < 2 ^ 64 → HasCount {J = J} (state_row n bid) n
  unfolding state_row
  state_row-HasCount n bid h =
      let id = lib.put lib.null_value "id" (lib.of_string "state") in
      let id_obj = object_first "id" (lib.of_string "state") in
      let counted = lib.put id "count" (lib.of_uint n) in
      let counted_obj = object_put id "count" (lib.of_uint n) id_obj in
      record {
        member = lib.of_uint n;
        has_member = ground (
          arith,
          find_object counted "block-id" (lib.of_uint bid) "count" counted_obj,
          find_object id "count" (lib.of_uint n) "count" id_obj,
        );
        is_number = lib.uint_number n h;
      }

  state_row_id : (n bid : ℕ) → lib.find (state_row n bid) "id" ≡ some (lib.of_string "state")
  unfolding state_row
  state_row_id n bid =
      let id = lib.put lib.null_value "id" (lib.of_string "state") in
      let id_obj = object_first "id" (lib.of_string "state") in
      let counted = lib.put id "count" (lib.of_uint n) in
      let counted_obj = object_put id "count" (lib.of_uint n) id_obj in
      ground (
        arith,
        find_object counted "block-id" (lib.of_uint bid) "id" counted_obj,
        find_object id "count" (lib.of_uint n) "id" id_obj,
        find_first "id" (lib.of_string "state") "id",
      )

  erased-HasCount : (row : J) (n : ℕ) → HasCount row n → HasCount (lib.erase row "state") n
  erased-HasCount row n has = record {
    member = has.member;
    has_member = lib.find_erase row "state" "count" ∙ has.has_member;
    is_number = has.is_number;
  }

module _ {J W : Type 0} ⦃lib : JsonLib J⦄ {driver : Driver J W} {db : Db}
    (tables : Tables driver db) where
  -- The tables hold in the second world what they hold in the first.
  pub record AreKept (w w' : W) : Type 0 where
    pub rows : (other : String) → tables.transaction w' other ≡ tables.transaction w other
    pub count : tables.count w' ≡ tables.count w

  -- The second world's table of transactions has every row of the first's, unchanged.
  abbrev pub AreStored : W → W → Type 0
  AreStored w w' =
      (id : String) (row : J)
      → tables.transaction w id ≡ some row
      → tables.transaction w' id ≡ some row

  pub take_off_writes :
      (id : String) (w : W) → (w' : W) × (take_off driver db id w ≡ (ok tt, w')) × AreKept w w'
  unfolding take_off remove_id cursor
  take_off_writes id w =
      let (w', is_w', rows, count) = tables.run_take_off id w in
      let t = driver.get (driver.table db.name Name.transactions_processing true) id in
      let kept : AreKept w w' = record { rows = rows; count = count } in
      elim (run-cases driver db.host db.port (driver.delete t) w) [
        | inl (j, e) ↦ (w', ground arith, kept)
        | inr (message, e) ↦ (w', ground arith, kept)
      ]

  read_transaction :
      (id : String) (w : W)
      → driver.run db.host db.port (driver.get (driver.table db.name Name.transactions true) id) w
        ≡ (ok (or_null (tables.transaction w id)), w)
  read_transaction id w = tables.one_replica.same_get Name.transactions id w ∙ tables.run_get id w

  pub get_row :
      (id : String) (w : W)
      → (got : J) × (get_data (get (table_cursor driver db Name.transactions) id) w ≡ (ok got, w))
        × (is_some (lib.find got "id") ≡ is_some (tables.transaction w id))
  unfolding get_data get cursor
  get_row id w = elim (Option-cases (tables.transaction w id)) [
    | inl e ↦ (
      lib.empty_array,
      ground (arith, read_transaction id w, lib.kind_null),
      ground (arith, lib.find_kind lib.empty_array "id", lib.kind_array),
    )
    | inr (row, e) ↦ (
      row,
      ground
          (arith, read_transaction id w, tables.transaction_id w id row e, lib.find_kind row "id"),
      ground (arith, tables.transaction_id w id row e),
    )
  ]

  pub update_state_writes :
      (n bid : ℕ) (w : W)
      → n < 2 ^ 53
      → (w' : W) × (update_state driver db n bid w ≡ (ok tt, w'))
        × ((other : String) → tables.transaction w' other ≡ tables.transaction w other)
        × (tables.count w' ≡ some n)
  unfolding update_state update
  update_state_writes n bid w h =
      let row : J = state_row n bid in
      let has = state_row-HasCount n bid (omega arith) in
      let id_is = state_row_id n bid in
      let key = at_found row "id" (lib.of_string "state") id_is in
      let text = string_found (lib.of_string "state") "state" (lib.text_string "state") in
      let tested = tables.run_is_empty w in
      elim (Option-cases (tables.count w)) [
        | inl e ↦
            let (answer, w', ran, rows, count) = tables.run_insert_state row n w has h e in
            (w', ground (arith, ran), rows, count)
        | inr (k, e) ↦
            let (answer, w', ran, rows, count) =
              tables.run_update_state (lib.erase row "state") n k w (erased-HasCount row n has) h
                e in
            (w', ground (arith, ran), rows, count)
      ]
