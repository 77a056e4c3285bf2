-- ===== src/Fetcher/Answers.antt =====
-- The loop that asks for a block: common/src/fetcher.cpp.
use mile_explorer.Common.{ℕ, zero, suc, ◌≡◌, none, some, arith}
use mile_explorer.Common.Exec.{Exception, ok, throw}
use mile_explorer.Json.Laws.{at_found}
use mile_explorer.Json.{JsonLib}
use mile_explorer.Driver.{requested, Node}
use mile_explorer.Fetcher.{ask_block, fetch_block}

module _ {J W : Type 0} ⦃lib : JsonLib J⦄ (node : Node J W) (i : ℕ) where
  -- From this world on, one of the next requests for the block is answered with its data; until then
  -- no connection is made, the request fails or throws, or the answer has no data.
  pub data HasBlock (block : J) : ℕ → W → Type 0 where
    now :
        {rounds : ℕ} {w : W} (response : J) (w' : W)
        → requested node (node.get_block i) w ≡ (ok (some response), w')
        → lib.find response "block-data" ≡ some block
        → HasBlock block (suc rounds) w
    silent :
        {rounds : ℕ} {w : W} (w' : W)
        → requested node (node.get_block i) w ≡ (ok none, w')
        → HasBlock block rounds w'
        → HasBlock block (suc rounds) w
    failed :
        {rounds : ℕ} {w : W} (e : Exception) (w' : W)
        → requested node (node.get_block i) w ≡ (throw e, w')
        → HasBlock block rounds w'
        → HasBlock block (suc rounds) w
    empty :
        {rounds : ℕ} {w : W} (response : J) (w' : W)
        → requested node (node.get_block i) w ≡ (ok (some response), w')
        → lib.find response "block-data" ≡ none
        → HasBlock block rounds w'
        → HasBlock block (suc rounds) w

  -- If one of the next requests for a block is answered with its data, as many rounds as there are
  -- requests are enough for the loop to end with the block; until then a request may go
  -- unanswered, throw, or be answered without data.
  pub fetch_block-HasBlock :
      (block : J) (rounds : ℕ) (w : W)
      → HasBlock block rounds w
      → (fetch_block node rounds i w).0 ≡ ok (some block)
  unfolding fetch_block ask_block
  fetch_block-HasBlock block zero w h = elim h [ ]
  fetch_block-HasBlock block (suc rounds) w (now r w' answer found) =
      ground (arith, answer, at_found r "block-data" block found)
  fetch_block-HasBlock block (suc rounds) w (silent w' answer rest) =
      ground (arith, answer, fetch_block-HasBlock block rounds w' rest)
  fetch_block-HasBlock block (suc rounds) w (failed e w' answer rest) =
      ground (arith, answer, fetch_block-HasBlock block rounds w' rest)
  fetch_block-HasBlock block (suc rounds) w (empty r w' answer missing rest) =
      ground (arith, answer, fetch_block-HasBlock block rounds w' rest)
