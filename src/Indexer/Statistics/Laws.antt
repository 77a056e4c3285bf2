-- ===== src/Indexer/Statistics/Laws.antt =====
-- What a round of the indexer's statistics does: the registrations in indexer/statistics, and the loop
-- in common/src/db/db.cpp.
use mathlib.Core.List.{Permᴰ}
use mathlib.Core.Path.{sym, subst}
use mile_explorer.Common.{ℕ, String, ◌≡◌, refl, ◌∙◌, ◌⊎◌, inl, inr, List, [], ◌∷◌}
use mile_explorer.Common.Exec.{Exception, ok, throw}
use mile_explorer.Common.Float.{FloatLib}
use mile_explorer.Json.{JsonLib}
use mile_explorer.Driver.{Driver, Sdk}
use mile_explorer.Db.{Db}
use mile_explorer.Db.Getters.{get_block_history_state}
use mile_explorer.Db.Statistics.{
  less, StorageType, add_each, StatisticMethod, last_time, statistics_round,
}
use mile_explorer.Db.Statistics.Laws.{AreDistinct, add_each-perm, called, statistics_round-called}
use mile_explorer.Indexer.Turnover.{turnover_24}
use mile_explorer.Indexer.Weeks.{turnover_trx}
use mile_explorer.Indexer.WalletsTop.{Reql, wallets_top_upd}
use mile_explorer.Indexer.Statistics.{registrations}

module _ {J F W : Type 0} ⦃lib : JsonLib J⦄ ⦃floats : FloatLib F⦄ (driver : Driver J W)
    (reql : Reql driver.Term) (sdk : Sdk) (of_float : F → J) where
  registrations-AreDistinct : AreDistinct (registrations driver reql sdk of_float)
  unfolding less
  registrations-AreDistinct = ((inr refl, (inl refl, tt)), ((inl refl, tt), (tt, tt)))

  abbrev in_order : StorageType (StatisticMethod W)
  in_order =
      ("transaction_turnover", turnover_trx driver sdk of_float)
      ∷ ("turnover24", turnover_24 driver sdk of_float)
      ∷ ("wallets_top_upd", wallets_top_upd driver reql sdk)
      ∷ []

  add_each-registrations : add_each (registrations driver reql sdk of_float) [] ≡ in_order
  unfolding add_each less
  add_each-registrations = refl

  -- In whatever order the initialisers of the indexer register the three statistics, a round after
  -- a query for the last block that returns has one of two ends. If the time of that block can be
  -- read, the round returns, and has called transaction_turnover, turnover24 and wallets_top_upd
  -- in this order with that time, each on the world that the one before left, whether that
  -- returned or threw. If it cannot, the exception leaves the round, and none is called.
  pub indexer_statistics :
      (entries : List (String × StatisticMethod W)) (db : Db) (w w' : W) (state : J)
      → Permᴰ (registrations driver reql sdk of_float) entries
      → get_block_history_state driver db w ≡ (ok state, w')
      → ((last : ℕ) × (last_time state ≡ ok last)
          × (statistics_round driver (add_each entries []) db w ≡ (
            ok tt,
            (wallets_top_upd driver reql sdk db last
                (turnover_24 driver sdk of_float db last
                  (turnover_trx driver sdk of_float db last w').1).1).1,
          )))
        ⊎ ((e : Exception) × (last_time state ≡ throw e)
            × (statistics_round driver (add_each entries []) db w ≡ (throw e, w')))
  indexer_statistics entries db w w' state perm got =
      let same : in_order ≡ add_each entries [] =
        sym add_each-registrations ∙ add_each-perm perm registrations-AreDistinct [] in
      subst
        (λ storage.
          ((last : ℕ) × (last_time state ≡ ok last)
            × (statistics_round driver storage db w ≡ (ok tt, called in_order db last w')))
          ⊎ ((e : Exception) × (last_time state ≡ throw e)
              × (statistics_round driver storage db w ≡ (throw e, w'))))
        same (statistics_round-called driver in_order db w w' state got)
