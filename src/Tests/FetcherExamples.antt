-- ===== src/Tests/FetcherExamples.antt =====
-- The theorems on the fetcher, the migration and the start at concrete data, and tests.
use mile_explorer.Common.{
  ◌≤◌, ℕ, ◌+◌, ◌≡◌, refl, none, some, [], ◌∷◌, if◌then◌else◌, ltb, arith, true, false,
}
use mile_explorer.Common.Exec.{ok}
use mile_explorer.Json.Value.{Value, nil, str, obj, field, end}
use mile_explorer.Driver.{requested, Node}
use mile_explorer.Db.Init.{Handle}
use mile_explorer.Fetcher.{
  Fetching, fetch_block, fetch_blocks, main_round, begin_job, end_job, round, begins, ends,
  Reachable, starts, steps,
}
use mile_explorer.Fetcher.States.{States, states_round, states_round_block_id}
use mile_explorer.Fetcher.Coverage.{IsIn, first-Reachable}
use mile_explorer.Fetcher.Answers.{now, silent, empty, fetch_block-HasBlock}
use mile_explorer.Tests.Fixtures.{sdk, lib, answering, db}

-- The first job of an indexer that starts at block 5, while the chain is at block 7.
abbrev running : Fetching
running = record {
  first = 5;
  waiting = [];
  running = (5, 7) ∷ [];
  is_active = true;
  requested = [];
}

abbrev fetched : Fetching
fetched = record {
  first = 7;
  waiting = [];
  running = [];
  is_active = false;
  requested = 5 ∷ 6 ∷ 7 ∷ [];
}

is_fetched : Reachable 5 fetched
unfolding main_round begin_job end_job fetch_blocks
is_fetched = steps (steps (steps starts (round (some 7))) (begins 7 [] refl)) (ends 5 7 [] [] refl)

first-Reachable_example : IsIn 6 (5 ∷ 6 ∷ 7 ∷ [])
first-Reachable_example = first-Reachable 5 6 fetched is_fetched (omega arith) (omega arith)

abbrev response : Value
response = obj (field "block-data" (str "block") end)

-- A node that does not answer the first request, and then answers without and with the block.
abbrev node : Node Value ℕ
node = record {
  get_rpc = λ w. (ok true, w);
  get_wallet_state = λ key w. (ok none, w);
  get_current_block_id = λ w. (ok none, w);
  get_block = λ id w.
      (ok (if ltb w 1 then none else if ltb w 2 then some (obj end) else some response), w + 1);
  get_blockchain_info = λ w. (ok none, w);
  get_nodes = λ w. (ok none, w);
}

fetch_block-HasBlock_example : (fetch_block node 3 5 0).0 ≡ ok (some (str "block"))
unfolding requested
fetch_block-HasBlock_example =
    fetch_block-HasBlock node 5 (str "block") 3 0
      (silent 1 refl (empty (obj end) 2 refl refl (now response 3 refl refl)))

abbrev handle : Handle ℕ
handle = record { world = 0; db = db }

abbrev fetching : States ℕ
fetching = record { world = 0; block_id = 4; bch_info_got = false }

states_round_block_id_example :
    ((states_round (answering nil) sdk node db fetching).0 ≡ ok tt)
    × (4 ≤ (states_round (answering nil) sdk node db fetching).1.block_id)
states_round_block_id_example = states_round_block_id (answering nil) sdk node db fetching
