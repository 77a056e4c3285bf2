-- ===== src/Fetcher.antt =====
-- common/src/fetcher.cpp: how the indexer asks the nodes for blocks, and when.
pub mod Coverage
pub mod Answers
pub mod States
pub mod Genesis
pub mod Nodes
use mile_explorer.Common.{
  ℕ, zero, suc, ◌+◌, ◌-◌, ◌≡◌, String, Bool, true, false, not, ◌&&◌, Option, none, some, List, [],
  ◌∷◌, ◌++◌, if◌then◌else◌, is_some, ltb,
}
use mile_explorer.Common.Exec.{Exec, Exception, Result, ok, throw, pure, lift, catch, ◌>>=◌, ◌>>◌}
use mile_explorer.Json.{JsonLib}
use mile_explorer.Driver.{requested, Driver, Sdk, Node}
use mile_explorer.Db.{Db, catch_db_error}
use mile_explorer.Db.Blocks.{add_block}
use mile_explorer.Db.Network.{update_info, add_node_states}

module _ {J W : Type 0} ⦃lib : JsonLib J⦄ (node : Node J W) where
  -- One round of the loop of a job of `fetch_blocks`: the block, or nothing and another round.
  unfoldable pub ask_block : ℕ → Exec W (Option J)
  ask_block i =
      catch
        (do
          response ← requested node (node.get_block i)
          elim response [
            | none ↦ pure none
            | some r ↦
                if not (is_some (lib.find r "block-data"))
                then pure none
                else do block ← lift (lib.at r "block-data"); pure (some block)
          ])
        (λ e. pure none)

  -- The loop, with fuel for the rounds.
  unfoldable pub fetch_block : ℕ → ℕ → Exec W (Option J)
  unfolding ask_block
  fetch_block zero i = pure none
  fetch_block (suc rounds) i = do
    block ← ask_block i
    elim block [ none ↦ fetch_block rounds i | some b ↦ pure (some b) ]

module _ {J W : Type 0} ⦃lib : JsonLib J⦄ (driver : Driver J W) (sdk : Sdk) where
  -- The job that stores a block that was fetched.
  unfoldable pub store_fetched : (String → Result ℕ) → Db → J → ℕ → Exec W Unit
  unfolding add_block
  store_fetched get_epoch_time db block i =
      catch_db_error (add_block driver sdk get_epoch_time db block i) (pure tt)

-- The ids `from`, `from + 1`, … of the loop of `fetch_blocks`, which end with `to`.
abbrev ids_from : ℕ → ℕ → List ℕ
ids_from zero from = []
ids_from (suc n) from = from ∷ ids_from n (suc from)

unfoldable pub fetch_blocks : ℕ → ℕ → List ℕ
fetch_blocks from to = ids_from (suc to - from) from

-- What `run` and the jobs that it queues share: `first`, the jobs that wait for a thread of
-- `block_fetcher_task_` (each the `last` that it holds), those that run (with the `first` that they
-- began with), the flag `is_active_`, and the ids that a job was queued for.
pub record Fetching : Type 0 where
  pub first : ℕ
  pub waiting : List ℕ
  pub running : List (ℕ × ℕ)
  pub is_active : Bool
  pub requested : List ℕ

-- One round of the main loop, when a node has said which block comes next.
unfoldable pub main_round : Option ℕ → Fetching → Fetching
main_round none s = s
main_round (some last) s =
    if not s.is_active && ltb s.first last then record s { waiting = s.waiting ++ last ∷ [] } else s

-- `Task::async`: a thread takes the job, and sets the flag; the ids of a job that ends are
-- requested, `first` is moved, and the flag is cleared, whatever other jobs do.
unfoldable pub begin_job : ℕ → List ℕ → Fetching → Fetching
begin_job last rest s = record s {
  waiting = rest;
  running = (s.first, last) ∷ s.running;
  is_active = true;
}

unfoldable pub end_job : ℕ → ℕ → List (ℕ × ℕ) → Fetching → Fetching
unfolding fetch_blocks
end_job from last others s = record s {
  first = last;
  running = others;
  is_active = false;
  requested = s.requested ++ fetch_blocks from last;
}

-- The main loop and the threads of the task, in any order.
pub data Step : Fetching → Fetching → Type 0 where
  round : {s : Fetching} (next : Option ℕ) → Step s (main_round next s)
  begins :
      {s : Fetching} (last : ℕ) (rest : List ℕ)
      → s.waiting ≡ last ∷ rest
      → Step s (begin_job last rest s)
  ends :
      {s : Fetching} (from last : ℕ) (before after : List (ℕ × ℕ))
      → s.running ≡ before ++ (from, last) ∷ after
      → Step s (end_job from last (before ++ after) s)

-- `run(block_id)`
abbrev pub at_start : ℕ → Fetching
at_start block_id = record {
  first = block_id;
  waiting = [];
  running = [];
  is_active = false;
  requested = [];
}

pub data Reachable (block_id : ℕ) : Fetching → Type 0 where
  starts : Reachable block_id (at_start block_id)
  steps : {s t : Fetching} → Reachable block_id s → Step s t → Reachable block_id t
