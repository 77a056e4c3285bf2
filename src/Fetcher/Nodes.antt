-- ===== src/Fetcher/Nodes.antt =====
-- `get_rpc` of common/src/utils.cpp, which takes the nodes in turn, as the interface Node that the
-- database layer and the fetcher ask, and `Fetcher::Connect` of common/src/fetcher.cpp.
pub mod Laws
use mile_explorer.Common.{
  ℕ, ◌+◌, ◌%◌, ◌^◌, String, Bool, true, false, Option, none, some, List, [], ◌∷◌, if◌then◌else◌,
  ltb,
}
use mile_explorer.Common.Lists.{length, get_elem?}
use mile_explorer.Common.Exec.{Exec, Result, throw, unknown, pure, ◌>>=◌}
use mile_explorer.Driver.{Node}

-- The JSON-RPC client of the SDK: whether it connects to a node, and the requests to the node that it
-- connected to last.
pub record Client (J W : Type 0) : Type 0 where
  pub connect : String → Exec W Bool
  pub get_wallet_state : String → Exec W (Option J)
  pub get_current_block_id : Exec W (Option ℕ)
  pub get_block : ℕ → Exec W (Option J)
  pub get_blockchain_info : Exec W (Option J)
  pub get_nodes : Exec W (Option J)

-- The world, and the static `counter` of `get_rpc`.
pub record Counted (W : Type 0) : Type 0 where
  pub world : W
  pub counter : ℕ

module _ {W A : Type 0} where
  abbrev pub on_world : Exec W A → Exec (Counted W) A
  on_world m s = let (r, w) = m s.world in (r, record s { world = w })

module _ {J W : Type 0} (client : Client J W) where
  -- The remainder by no nodes at all is undefined in C++, and throws `unknown` here.
  unfoldable pub get_rpc : List String → Exec (Counted W) Bool
  get_rpc urls s =
      let next = record s { counter = (s.counter + 1) % 2 ^ 64 } in
      elim (get_elem? urls (s.counter % length urls)) [
        | none ↦ (throw unknown, next)
        | some url ↦ on_world (client.connect url) next
      ]

  -- The nodes as the other parts ask them.
  unfoldable pub nodes : List String → Node J (Counted W)
  unfolding get_rpc
  nodes urls = record {
    get_rpc = get_rpc urls;
    get_wallet_state = λ key. on_world (client.get_wallet_state key);
    get_current_block_id = on_world client.get_current_block_id;
    get_block = λ id. on_world (client.get_block id);
    get_blockchain_info = on_world client.get_blockchain_info;
    get_nodes = on_world client.get_nodes;
  }

  -- The loop of `Connect`, with the count so far.
  unfoldable pub count_nodes : List String → ℕ → Exec W ℕ
  count_nodes [] count = pure count
  count_nodes (u ∷ urls) count = do
    connected ← client.connect u
    count_nodes urls (if connected then count + 1 else count)

  -- Whether there is a fetcher: some node can be connected to.
  unfoldable pub connect : List String → Exec W Bool
  unfolding count_nodes
  connect urls = do count ← count_nodes urls 0; pure (ltb 0 count)
