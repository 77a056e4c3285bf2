-- ===== src/Fetcher/States.antt =====
-- `Fetcher::fetch_states` of common/src/fetcher.cpp: the chain's description, once, and the states of
-- its nodes, for each new block.
use mile_explorer.Common.{
  ℕ, ◌≤◌, ◌≡◌, Bool, true, not, none, some, arith, if◌then◌else◌, leb, ◌==◌, Option-cases, inl, inr,
}
use mile_explorer.Common.Exec.{Exec, ok, pure, gets, modify, catch, ◌>>=◌, ◌>>◌, Result-cases}
use mile_explorer.Json.{JsonLib}
use mile_explorer.Driver.{Driver, Sdk, Node}
use mile_explorer.Db.{Db}
use mile_explorer.Db.Network.{update_info, add_node_states}

-- The variables of the loop.
pub record States (W : Type 0) : Type 0 where
  pub world : W
  pub block_id : ℕ
  pub bch_info_got : Bool

module _ {W : Type 0} where
  abbrev pub on_world : {A : Type 0} → Exec W A → Exec (States W) A
  on_world m s = let (r, w) = m s.world in (r, record s { world = w })

module _ {J W : Type 0} ⦃lib : JsonLib J⦄ (driver : Driver J W) (sdk : Sdk) (node : Node J W)
    (db : Db) where
  unfoldable pub get_info : Exec (States W) Unit
  get_info = do
    got ← gets (λ (s : States W). s.bch_info_got)
    if got then pure tt else do
      info ← on_world node.get_blockchain_info
      elim info [
        | none ↦ pure tt
        | some i ↦ do
          on_world (update_info driver db i)
          modify (λ (s : States W). record s { bch_info_got = true })
      ]

  -- What follows when the next block is known.
  unfoldable pub get_states : ℕ → Exec (States W) Unit
  get_states next_block_id = do
    nodes ← on_world node.get_nodes
    elim nodes [
      | none ↦ pure tt
      | some ns ↦ do
        block_id ← gets (λ (s : States W). s.block_id)
        if leb next_block_id block_id then pure tt else do
          modify (λ (s : States W). record s { block_id = next_block_id })
          if lib.size ns == 0
              then pure tt
              else on_world (add_node_states driver sdk db ns next_block_id)
    ]

  -- One round of the loop; every exception is logged, and the next round begins.
  unfoldable pub states_round : Exec (States W) Unit
  states_round =
      catch
        (do
          connected ← on_world node.get_rpc
          if not connected then pure tt else do
            get_info
            next_block_id ← on_world node.get_current_block_id
            elim next_block_id [ none ↦ pure tt | some next ↦ get_states next ])
        (λ e. pure tt)

  get_info_block_id : (s : States W) → (get_info s).1.block_id ≡ s.block_id
  unfolding get_info
  get_info_block_id s = ground arith

  get_states_block_id : (next : ℕ) (s : States W) → s.block_id ≤ (get_states next s).1.block_id
  unfolding get_states
  get_states_block_id next s = ground arith

  -- A round of the loop that fetches the states of the nodes throws nothing, and never moves back
  -- the block that it has come to.
  pub states_round_block_id :
      (s : States W) → ((states_round s).0 ≡ ok tt) × (s.block_id ≤ (states_round s).1.block_id)
  unfolding states_round
  states_round_block_id s =
      let s1 : States W = record s { world = (node.get_rpc s.world).1 } in
      let s2 = (get_info s1).1 in
      let next = (node.get_current_block_id s2.world) in
      let s3 : States W = record s2 { world = next.1 } in
      elim (Result-cases next.0) [
        | inr (e, h) ↦ (ground arith, ground (arith, get_info_block_id s1))
        | inl (o, h) ↦ elim (Option-cases o) [
          | inl n ↦ (ground arith, ground (arith, get_info_block_id s1))
          | inr (k, n) ↦
              (ground arith, ground (arith, get_info_block_id s1, get_states_block_id k s3))
        ]
      ]
