-- ===== src/Fetcher/Genesis.antt =====
-- `Fetcher::fetch_genesis` of common/src/fetcher.cpp.
pub mod Laws
use mile_explorer.Common.{
  ℕ, zero, suc, ◌≡◌, String, Bool, true, false, Option, none, some, List, [], ◌∷◌, ◌++◌,
  if◌then◌else◌,
}
use mile_explorer.Common.Exec.{
  Exec, Result, Result-cases, ok, throw, unknown, pure, lift, catch, ◌>>=◌, ◌>>◌,
}
use mile_explorer.Common.Float.{FloatLib}
use mile_explorer.Json.{JsonLib}
use mile_explorer.Driver.{Driver, Sdk}
use mile_explorer.Db.{Db}
use mile_explorer.Db.Jobs.{Queued, on_world}
use mile_explorer.Db.Network.{update_genesis}
use mile_explorer.Genesis.{GenesisLib, parser}

-- The HTTP client of the SDK: whether it connects, and the body of what it gets.
pub record HttpClient (W : Type 0) : Type 0 where
  pub connect : Exec W Bool
  pub get : Exec W (Option String)

-- How a round leaves the loop: it ends, it goes on, or the genesis that is not there has been
-- dereferenced, which is undefined in C++, so that nothing is said of what follows.
pub data Round : Type 0 where
  over again undefined : Round

module _ {J F W : Type 0} ⦃lib : JsonLib J⦄ ⦃floats : FloatLib F⦄ (driver : Driver J W) (sdk : Sdk)
    (text : GenesisLib F) (entries : J → List (String × J)) (http : HttpClient W) where
  -- `genesis->get_transactions()` and the update.
  unfoldable pub store_genesis : Db → String → Exec (Queued J W) Round
  store_genesis db body = elim (parser sdk text body) [
    | none ↦ pure undefined
    | some transactions ↦ (do update_genesis driver sdk entries db transactions; pure over)
  ]

  -- One round of the loop.
  unfoldable pub genesis_round : Db → Exec (Queued J W) Round
  unfolding store_genesis
  genesis_round db =
      catch
        (do
          connected ← on_world http.connect
          if connected
              then (do
                body ← on_world http.get
                elim body [ none ↦ pure over | some b ↦ store_genesis db b ])
              else pure again)
        (λ e. pure again)

  -- The loop, with fuel for the rounds.
  unfoldable pub fetch_genesis : ℕ → Db → Exec (Queued J W) Round
  unfolding genesis_round
  fetch_genesis zero db = pure again
  fetch_genesis (suc rounds) db = do
    round ← genesis_round db
    elim round [ over ↦ pure over | again ↦ fetch_genesis rounds db | undefined ↦ pure undefined ]
