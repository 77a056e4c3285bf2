-- ===== src/Db/Stream/Rounds.antt =====
-- The loop over the queued transactions, among the other threads, against a server that behaves as
-- Db.Stream.Tables says: common/src/db/transactions/processing.cpp.
use mile_explorer.Common.{ℕ, zero, suc, ◌+◌, ◌*◌, ◌^◌, ◌<◌, ◌≤◌, String, ◌≡◌, refl, ◌∙◌, arith}
use mile_explorer.Common.Lists.{All, length}
use mile_explorer.Common.Exec.{ok}
use mile_explorer.Json.{JsonLib}
use mile_explorer.Driver.{Driver}
use mile_explorer.Db.{Db}
use mile_explorer.Db.Name
use mile_explorer.Db.Cursor.{get_data, sort}
use mile_explorer.Db.Getters.{table_cursor}
use mile_explorer.Db.Total.{Returns, get_data_total}
use mile_explorer.Db.Stream.{Pass, transactions_rounds}
use mile_explorer.Db.Stream.Laws.{IsRow}
use mile_explorer.Db.Stream.Tables.{Tables}
use mile_explorer.Db.Stream.Writes.{AreKept, AreStored}
use mile_explorer.Db.Stream.Passes.{
  IsConsistent, IsConsistent-after, transactions_pass-IsConsistent,
}

module _ {J W : Type 0} ⦃lib : JsonLib J⦄ {driver : Driver J W} {db : Db}
    (tables : Tables driver db) where
  -- Whatever the queue is when it is asked for, its rows can be read and are at most `most`.
  pub record IsQueue (most : ℕ) : Type 0 where
    pub readable :
        (w w' : W) (items : J)
        → get_data (sort (table_cursor driver db Name.transactions_processing) "block-id") w
          ≡ (ok items, w')
        → All (λ item. (bid : ℕ) × (trxid : String) × IsRow item bid trxid) (lib.items items)
    pub few :
        (w w' : W) (items : J)
        → get_data (sort (table_cursor driver db Name.transactions_processing) "block-id") w
          ≡ (ok items, w')
        → length (lib.items items) ≤ most

  -- What the other threads do writes neither the transactions nor the state.
  abbrev pub AreOthers : (ℕ → W → W) → Type 0
  AreOthers others = (i : ℕ) (w : W) → AreKept tables w (others i w)

  -- Against a server with one replica of each table that answers as Tables says and always with a
  -- queue of at most most rows that can be read, while the other threads write neither the
  -- transactions nor the state, and where no number reaches 2^53: if the stored transactions have
  -- the serial numbers below n, each once, as the state counts (or there is no state yet, and none
  -- is stored), then any number of rounds of the loop returns. After them the stored transactions
  -- have the numbers below an m, each once, as the state counts; m is at most n and most for each
  -- round, and every row that was stored is there unchanged.
  pub transactions_rounds-IsConsistent :
      (rounds most n : ℕ) (others : ℕ → W → W) (s : Pass W)
      → IsQueue most
      → AreOthers others
      → n + rounds * most < 2 ^ 53
      → IsConsistent tables n s.world
      → (m : ℕ) × (s' : Pass W) × (transactions_rounds driver rounds others db s ≡ (ok tt, s'))
        × IsConsistent tables m s'.world
        × (m ≤ n + rounds * most)
        × AreStored tables s.world s'.world
  unfolding transactions_rounds
  transactions_rounds-IsConsistent zero most n others s queue keep bound h =
      (n, s, refl, h, omega arith, λ id row k. k)
  transactions_rounds-IsConsistent (suc rounds) most n others s queue keep bound h =
      let (m, s1, done, h1, few1, stored1) =
        transactions_rounds-IsConsistent rounds most n others s queue keep (omega arith) h in
      let kept = keep rounds s1.world in
      let ready : Pass W = record s1 { world = others rounds s1.world } in
      let waiting = sort (table_cursor driver db Name.transactions_processing) "block-id" in
      let (items, got) : Returns (get_data waiting) ready.world =
        get_data_total driver waiting ready.world in
      let w' = (get_data waiting ready.world).1 in
      let read : get_data waiting ready.world ≡ (ok items, w') = ground (arith, got) in
      let short = queue.few ready.world w' items read in
      let (m2, s2, passed, h2, few2, stored2) =
        transactions_pass-IsConsistent tables m ready items w' read
          (queue.readable ready.world w' items read) (omega (arith, few1, short))
          (IsConsistent-after tables m s1.world ready.world h1 kept) in
      (
        m2,
        s2,
        ground (arith, done, passed),
        h2,
        omega (arith, few1, few2, short),
        λ id row k. stored2 id row (kept.rows id ∙ stored1 id row k),
      )
