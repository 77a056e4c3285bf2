-- ===== src/Db/Statistics.antt =====
-- The registry of the statistics (common/include/statistics.hpp), and the loop that `Db::init` in
-- common/src/db/db.cpp runs over it. The time of a block lies below the range of `time_t`.
pub mod Laws
use mile_explorer.Common.{ℕ, String, Bool, true, false, List, [], ◌∷◌, if◌then◌else◌, ltb}
use mile_explorer.Common.Exec.{Exec, Result, and_then, pure, lift, catch, ◌>>=◌, ◌>>◌}
use mile_explorer.Common.Text.{codes}
use mile_explorer.Json.{JsonLib}
use mile_explorer.Driver.{Driver}
use mile_explorer.Db.{Db}
use mile_explorer.Db.Getters.{get_block_history_state}

-- `operator<` of `std::string`, on the codes of the characters.
abbrev pub less_codes : List ℕ → List ℕ → Bool
less_codes xs [] = false
less_codes [] (y ∷ ys) = true
less_codes (x ∷ xs) (y ∷ ys) =
    let rest = less_codes xs ys in if ltb x y then true else if ltb y x then false else rest

unfoldable pub less : String → String → Bool
less s t = less_codes (codes s) (codes t)

-- The storage is a `std::map`: its entries in the order of their names.
abbrev pub StorageType : Type 0 → Type 0
StorageType M = List (String × M)

module _ {M : Type 0} where
  -- `storage_.emplace`: a name that is there keeps its method.
  unfoldable pub add : String → M → StorageType M → StorageType M
  add name f [] = (name, f) ∷ []
  add name f ((key, g) ∷ rest) =
      let added = add name f rest in
      if less name key
      then (name, f) ∷ (key, g) ∷ rest
      else if less key name
      then (key, g) ∷ added
      else (key, g) ∷ rest

module _ {M : Type 0} where
  -- The registrations, in the order in which the initialisers of the files happen to run.
  unfoldable pub add_each : List (String × M) → StorageType M → StorageType M
  unfolding add
  add_each [] storage = storage
  add_each ((name, f) ∷ entries) storage = add_each entries (add name f storage)

abbrev pub StatisticMethod : Type 0 → Type 0
StatisticMethod W = Db → ℕ → Exec W Unit

module _ {W : Type 0} where
  -- The loop over the methods. Whatever a method throws is caught.
  unfoldable pub each_method : StorageType (StatisticMethod W) → Db → ℕ → Exec W Unit
  each_method [] db last = pure tt
  each_method ((name, method) ∷ rest) db last = do
    catch (method db last) (λ e. pure tt)
    each_method rest db last

module _ {J : Type 0} ⦃lib : JsonLib J⦄ where
  -- `time_t last = state["timestamp"]`, which no handler surrounds.
  unfoldable pub last_time : J → Result ℕ
  last_time state = and_then (lib.index state "timestamp") lib.get_uint64

module _ {J W : Type 0} ⦃lib : JsonLib J⦄ (driver : Driver J W) where
  -- One round of the loop, after its sleep.
  unfoldable pub statistics_round : StorageType (StatisticMethod W) → Db → Exec W Unit
  unfolding each_method last_time
  statistics_round statistics db = do
    state ← get_block_history_state driver db
    last ← lift (last_time state)
    each_method statistics db last
