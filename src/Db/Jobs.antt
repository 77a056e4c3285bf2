-- ===== src/Db/Jobs.antt =====
-- Jobs that the database layer queues (`async` of a dispatch::Queue, which is not part of the
-- repository) and that run later, on several threads and in any order: `transactions_queue_` has the
-- two jobs of `add_transactions`, and `state_queue` that of `update_wallet_state`.
use mile_explorer.Common.{ℕ, String, List, [], ◌∷◌, ◌++◌}
use mile_explorer.Common.Exec.{Exec, ok}

pub data Job (J : Type 0) : Type 0 where
  -- the transactions, the id of their block and its time
  wallet_transactions : J → ℕ → ℕ → Job J
  stream_transactions : J → ℕ → ℕ → Job J
  -- the wallet
  wallet_state : String → Job J

-- The world, and the jobs that wait, the oldest first.
pub record Queued (J W : Type 0) : Type 0 where
  pub world : W
  pub jobs : List (Job J)

module _ {J W : Type 0} where
  abbrev pub on_world : {A : Type 0} → Exec W A → Exec (Queued J W) A
  on_world m s = let (r, w) = m s.world in (r, record s { world = w })

  abbrev pub async : Job J → Exec (Queued J W) Unit
  async job s = (ok tt, record s { jobs = s.jobs ++ job ∷ [] })
