-- ===== src/Indexer/Statistics.antt =====
-- The statistics of the indexer: the registrations at the ends of indexer/statistics/turnover_24.cpp,
-- turnover_trx.cpp and wallets_top_upd.cpp.
pub mod Laws
use mile_explorer.Common.{String, List, [], ◌∷◌}
use mile_explorer.Common.Float.{FloatLib}
use mile_explorer.Json.{JsonLib}
use mile_explorer.Driver.{Driver, Sdk}
use mile_explorer.Db.Statistics.{StatisticMethod}
use mile_explorer.Indexer.Turnover.{turnover_24}
use mile_explorer.Indexer.Weeks.{turnover_trx}
use mile_explorer.Indexer.WalletsTop.{Reql, wallets_top_upd}

module _ {J F W : Type 0} ⦃lib : JsonLib J⦄ ⦃floats : FloatLib F⦄ (driver : Driver J W)
    (reql : Reql driver.Term) (sdk : Sdk) (of_float : F → J) where
  abbrev pub registrations : List (String × StatisticMethod W)
  registrations =
      ("turnover24", turnover_24 driver sdk of_float)
      ∷ ("transaction_turnover", turnover_trx driver sdk of_float)
      ∷ ("wallets_top_upd", wallets_top_upd driver reql sdk)
      ∷ []
