-- ===== src/Db/Stream/Passes.antt =====
-- Passes over the queued transactions, against a server that behaves as Db.Stream.Tables says:
-- common/src/db/transactions/processing.cpp.
use mile_explorer.Common.{
  ℕ, ◌+◌, ◌^◌, ◌<◌, ◌≤◌, String, ◌≡◌, ◌∙◌, sym, ap, subst, ◌⊎◌, inl, inr, true, none, some, arith,
}
use mile_explorer.Common.Lists.{All, length}
use mile_explorer.Common.Exec.{ok}
use mile_explorer.Json.Laws.{uint64_found}
use mile_explorer.Json.{JsonLib}
use mile_explorer.Driver.{Driver}
use mile_explorer.Db.{Db}
use mile_explorer.Db.Name
use mile_explorer.Db.Cursor.{sort, field, get_data, get}
use mile_explorer.Db.Getters.{get_transaction_history_state, table_cursor}
use mile_explorer.Db.Total.{run-cases}
use mile_explorer.Db.Table.{cursor}
use mile_explorer.Db.Stream.{read_count, transactions_pass, Pass}
use mile_explorer.Db.Total.{run-cases}
use mile_explorer.Db.Stream.Laws.{IsRow}
use mile_explorer.Db.Stream.Tables.{Tables}
use mile_explorer.Db.Stream.Numbered.{IsNumbered, numbered_same}
use mile_explorer.Db.Stream.Writes.{AreKept, AreStored, update_state_writes}
use mile_explorer.Db.Stream.Items.{process_items-IsServed}

module _ {J W : Type 0} ⦃lib : JsonLib J⦄ {driver : Driver J W} {db : Db}
    (tables : Tables driver db) where
  -- Between passes: the transactions have the numbers below `n`, which the state holds, or no state
  -- has been written and there are none.
  pub record IsConsistent (n : ℕ) (w : W) : Type 0 where
    pub numbered : IsNumbered (tables.transaction w) n
    pub counted : (tables.count w ≡ some n) ⊎ ((tables.count w ≡ none) × (n ≡ 0))

  read_count-IsConsistent :
      (n : ℕ) (w : W)
      → IsConsistent n w
      → (w' : W) × (read_count driver db w ≡ (ok n, w'))
        × IsNumbered (tables.transaction w') n
        × (tables.count w' ≡ some n)
        × AreStored tables w w'
  unfolding read_count get_transaction_history_state get_data field get cursor
  read_count-IsConsistent n w h = elim h.counted [
    | inl e ↦
        let (member, read, is_n) = tables.run_count w n e in
        let same = tables.one_replica.same_field Name.transactions_state "state" "count" w in
        let ran = same ∙ read in
        (
          w,
          ground (arith, ran, is_n, lib.uint_kind member, uint64_found member n is_n),
          h.numbered,
          e,
          λ id old k. k,
        )
    | inr (e, zero) ↦
        let (message, read) = tables.run_no_count w e in
        let same = tables.one_replica.same_field Name.transactions_state "state" "count" w in
        let ran = same ∙ read in
        let (w', written, rows, count) = update_state_writes tables 0 0 w (omega arith) in
        (
          w',
          ground (
            arith,
            ran,
            written,
            zero,
            lib.get_uint64_lem lib.empty_array,
            lib.uint_kind lib.empty_array,
            lib.kind_array,
          ),
          numbered_same (tables.transaction w) (tables.transaction w') n h.numbered rows,
          count ∙ ap some (sym zero),
          λ id old k. rows id ∙ k,
        )
  ]

  queue-AreKept :
      (items : J) (w w' : W)
      → get_data (sort (table_cursor driver db Name.transactions_processing) "block-id") w
        ≡ (ok items, w')
      → AreKept tables w w'
  unfolding get_data sort cursor
  queue-AreKept items w w' got =
      let (w1, is_w1, rows, count) = tables.run_queue w in
      let replica = tables.one_replica.same_order Name.transactions_processing "block-id" w in
      let t =
        driver.order_by_index (driver.table db.name Name.transactions_processing true) "block-id" in
      let same : w1 ≡ w' = elim (run-cases driver db.host db.port t w) [
        | inl (j, e) ↦ ground (arith, replica)
        | inr (message, e) ↦ ground (arith, replica)
      ] in
      record {
        rows = λ other.
            subst (λ v. tables.transaction v other ≡ tables.transaction w other) same (rows other);
        count = subst (λ v. tables.count v ≡ tables.count w) same count;
      }

  pub IsConsistent-after :
      (n : ℕ) (w w' : W) → IsConsistent n w → AreKept tables w w' → IsConsistent n w'
  IsConsistent-after n w w' h kept = record {
    numbered = numbered_same (tables.transaction w) (tables.transaction w') n h.numbered kept.rows;
    counted = elim h.counted [
      | inl e ↦ inl (kept.count ∙ e)
      | inr (e, zero) ↦ inr (kept.count ∙ e, zero)
    ];
  }

  -- What a pass over rows that can be read leaves, where no number reaches 2^53.
  pub transactions_pass-IsConsistent :
      (n : ℕ) (s : Pass W) (items : J) (w' : W)
      → get_data (sort (table_cursor driver db Name.transactions_processing) "block-id") s.world
        ≡ (ok items, w')
      → All (λ item. (bid : ℕ) × (trxid : String) × IsRow item bid trxid) (lib.items items)
      → n + length (lib.items items) < 2 ^ 53
      → IsConsistent n s.world
      → (m : ℕ) × (s' : Pass W) × (transactions_pass driver db s ≡ (ok tt, s'))
        × IsConsistent m s'.world
        × (m ≤ n + length (lib.items items))
        × AreStored tables s.world s'.world
  unfolding transactions_pass
  transactions_pass-IsConsistent n s items w' got rows bound h =
      let kept = queue-AreKept items s.world w' got in
      let h' : IsConsistent n w' = IsConsistent-after n s.world w' h kept in
      let (w2, read, numbered, count, stored1) = read_count-IsConsistent n w' h' in
      let start : Pass W = record { world = w2; prev_bid = s.prev_bid; last_count = n } in
      let (s', done, served, few, stored2) =
        process_items-IsServed tables (lib.items items) start rows bound
          (record { numbered = numbered; counted = count }) in
      (
        s'.last_count,
        s',
        ground (arith, got, read, done),
        record { numbered = served.numbered; counted = inl served.counted },
        few,
        λ id old k. stored2 id old (stored1 id old (kept.rows id ∙ k)),
      )
