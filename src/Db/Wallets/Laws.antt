-- ===== src/Db/Wallets/Laws.antt =====
-- The loop that asks for the state of a wallet: common/src/db/blocks/wallets_state.cpp.
use mile_explorer.Common.{ℕ, zero, suc, String, ◌≡◌, true, false, none, some, arith}
use mile_explorer.Common.Exec.{ok}
use mile_explorer.Json.Laws.{object_put, find_object, assign_object}
use mile_explorer.Json.{JsonLib, is_object}
use mile_explorer.Driver.{requested, Driver, Node}
use mile_explorer.Db.{Db}
use mile_explorer.Db.Name
use mile_explorer.Db.Table.{open_table}
use mile_explorer.Db.Total.{update_total}
use mile_explorer.Db.Wallets.{wallet_state_row, fetch_wallet_state, wallet_state_loop}

module _ {J W : Type 0} ⦃lib : JsonLib J⦄ (node : Node J W) (public_key : String) where
  -- From this world on, one of the next requests is answered by an object; until then no connection
  -- is made or the request fails.
  pub data Answers : ℕ → W → Type 0 where
    now :
        {rounds : ℕ} {w : W} (state : J) (w' : W)
        → requested node (node.get_wallet_state public_key) w ≡ (ok (some state), w')
        → is_object state ≡ true
        → Answers (suc rounds) w
    later :
        {rounds : ℕ} {w : W} (w' : W)
        → requested node (node.get_wallet_state public_key) w ≡ (ok none, w')
        → Answers rounds w'
        → Answers (suc rounds) w

module _ {J W : Type 0} ⦃lib : JsonLib J⦄ (driver : Driver J W) (node : Node J W) (db : Db) where
  -- An answer is stored, or the database's error is logged, and the loop ends.
  fetch_answer :
      (public_key : String) (state : J) (w w' : W)
      → requested node (node.get_wallet_state public_key) w ≡ (ok (some state), w')
      → is_object state ≡ true
      → (fetch_wallet_state driver node db public_key w).0 ≡ ok true
  unfolding fetch_wallet_state wallet_state_row
  fetch_answer public_key state w w' answer h =
      let time = lib.of_uint (driver.now w') in
      let timed = lib.put state "timestamp" time in
      let kept = lib.erase timed "preferred-transaction-id" in
      let kept_obj : is_object kept ≡ true = ground (
        arith,
        object_put state "timestamp" time h,
        lib.kind_erase timed "preferred-transaction-id",
      ) in
      let row = lib.put kept "id" (lib.of_string public_key) in
      let stored =
        update_total driver (open_table db Name.wallets_state) row (lib.of_string public_key)
          public_key w'
          (ground (arith, find_object kept "id" (lib.of_string public_key) "id" kept_obj))
          (lib.text_string public_key) in
      ground (arith, answer, assign_object state "timestamp" time h)

  -- If one of the next requests for a wallet's state is answered by an object, and each one before
  -- it makes no connection or fails without an exception, as many rounds as there are requests are
  -- enough for the loop to end, without an exception.
  pub wallet_state_loop-Answers :
      (public_key : String) (rounds : ℕ) (w : W)
      → Answers node public_key rounds w
      → (wallet_state_loop driver node rounds db public_key w).0 ≡ ok true
  unfolding wallet_state_loop
  wallet_state_loop-Answers public_key zero w answers = elim answers [ ]
  wallet_state_loop-Answers public_key (suc rounds) w (now state w' answer h) =
      ground (arith, fetch_answer public_key state w w' answer h)
  wallet_state_loop-Answers public_key (suc rounds) w (later w' silent rest) =
      let waits : fetch_wallet_state driver node db public_key w ≡ (ok false, w') =
        unfold fetch_wallet_state in ground arith in
      ground (arith, wallet_state_loop-Answers public_key rounds w' rest)
