-- ===== src/Driver.antt =====
-- What the program calls of other projects: the RethinkDB driver (vendor/librethinkdbxx) with the
-- server behind it, and the MILE SDK. A term is a query under construction, which no call throws
-- while it is built; `run` connects, sends the term and returns the datum. `W` is all that lies
-- outside the program: the server's tables, the network and the clock.
use mile_explorer.Common.{ℕ, ◌<◌, ◌^◌, String, ◌≡◌, Bool, Option, none, if◌then◌else◌}
use mile_explorer.Common.Exec.{Exec, Exception, throw, db_error, pure, ◌>>=◌}
use mile_explorer.Common.Text.{to_string}

pub record Driver (J W : Type 0) : Type 1 where
  pub Term : Type 0
  pub nil : Term
  -- `db(name).table(table)`, and whether `read_mode` is "outdated"
  pub table : String → String → Bool → Term
  pub get : Term → String → Term
  pub get_all : Term → String → String → Term
  pub max : Term → String → Term
  pub min : Term → String → Term
  pub count : Term → Term
  pub get_field : Term → String → Term
  pub slice : Term → ℕ → ℕ → Term
  pub order_by_index : Term → String → Term
  pub order_by : Term → String → Term
  pub between : Term → ℕ → ℕ → String → Term
  pub filter : Term → Term → Term
  -- the term for a filter on one field
  pub field_eq : String → ℕ → Term
  pub order_by_term : Term → Term → Term
  pub group : Term → String → Term
  pub ungroup : Term → Term
  pub limit : Term → ℕ → Term
  pub concat_map : Term → Term → Term
  -- `fold(base, f, optargs)` with the function and the options as one term
  pub fold : Term → Term → Term → Term
  pub delete : Term → Term
  pub insert : Term → J → Term
  pub insert_replacing : Term → J → Term
  pub update : Term → J → Term
  -- `update` of one field to the union of what it holds and the given array
  pub update_union : Term → String → J → Term
  pub is_empty : Term → Term
  pub index_wait : Term → String → Term
  pub index_create : Term → String → Term
  pub table_list : String → Term
  pub table_create : String → String → Term
  pub table_drop : String → String → Term
  pub db_create : String → Term
  pub db_list : Term
  -- the host, the port and the query
  pub run : String → ℕ → Term → Exec W J
  pub run_flag : String → ℕ → Term → Exec W Bool
  pub now : W → ℕ
  -- the driver reports every failure as its own `Error`
  pub run_throws :
      (host : String) (port : ℕ) (t : Term) (w : W) (e : Exception)
      → (run host port t w).0 ≡ throw e
      → (message : String) × (e ≡ db_error message)
  pub run_flag_throws :
      (host : String) (port : ℕ) (t : Term) (w : W) (e : Exception)
      → (run_flag host port t w).0 ≡ throw e
      → (message : String) × (e ≡ db_error message)

pub record Sdk : Type 0 where
  pub uint256_to_dec_string : ℕ → String
  pub string_to_uint256 : String → Option ℕ
  -- `static_cast<uint64_t>` of a 256-bit number
  pub uint256_to_uint64 : ℕ → ℕ
  -- the code of the token that `TokenFromCode` finds, and those of the two assets
  pub token_from_code : ℕ → ℕ
  pub xdr_code : ℕ
  pub mile_code : ℕ
  pub description_max_length : ℕ
  pub error_format : String → String → String
  pub uint256_to_uint64_lem : (n : ℕ) → n < 2 ^ 64 → uint256_to_uint64 n ≡ n
  pub uint256_to_dec_string_lem : (n : ℕ) → uint256_to_dec_string n ≡ to_string n

-- The nodes of the blockchain, through the SDK's JSON-RPC client: `get_rpc` says whether a connection
-- to the next node is made, and the others are requests to the node that was connected to last, with
-- `none` if the request fails.
pub record Node (J W : Type 0) : Type 0 where
  pub get_rpc : Exec W Bool
  pub get_wallet_state : String → Exec W (Option J)
  pub get_current_block_id : Exec W (Option ℕ)
  pub get_block : ℕ → Exec W (Option J)
  pub get_blockchain_info : Exec W (Option J)
  pub get_nodes : Exec W (Option J)

module _ {J W A : Type 0} (node : Node J W) where
  -- A request over a connection of its own; `none` if none is made.
  unfoldable pub requested : Exec W (Option A) → Exec W (Option A)
  requested request = do connected ← node.get_rpc; if connected then request else pure none
