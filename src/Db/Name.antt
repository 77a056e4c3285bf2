-- ===== src/Db/Name.antt =====
-- common/include/names.hpp and common/src/names.cpp: the tables, their indices, and the keys that
-- are renamed when a transaction is stored.
use mile_explorer.Common.{String, List, [], ◌∷◌}

abbrev pub meta : String
meta = "meta"

abbrev pub blockchain_info : String
blockchain_info = "blockchain_info"

abbrev pub node_states : String
node_states = "node_states"

abbrev pub node_wallets : String
node_wallets = "node_wallets"

abbrev pub blocks : String
blocks = "blocks"

abbrev pub blocks_processing : String
blocks_processing = "blocks_processing"

abbrev pub wallets : String
wallets = "wallets"

abbrev pub wallets_state : String
wallets_state = "wallets_state"

abbrev pub transactions : String
transactions = "transactions"

abbrev pub genesis_transactions : String
genesis_transactions = "genesis_transactions"

abbrev pub transactions_state : String
transactions_state = "transactions_state"

abbrev pub transactions_processing : String
transactions_processing = "transactions_processing"

abbrev pub turnovers : String
turnovers = "turnovers"

abbrev pub transaction_turnover : String
transaction_turnover = "transaction_turnover"

abbrev pub get_names : List String
get_names =
    meta ∷ blockchain_info ∷ node_states ∷ node_wallets ∷ blocks ∷ blocks_processing ∷ wallets
    ∷ wallets_state ∷ transactions ∷ transactions_state ∷ transactions_processing
    ∷ genesis_transactions ∷ turnovers ∷ transaction_turnover ∷ []

-- The table and the field of each index.
abbrev pub get_indices : List (String × String)
get_indices =
    (blocks, "block-id")
    ∷ (blocks, "timestamp")
    ∷ (blocks_processing, "block-id")
    ∷ (node_states, "block-id")
    ∷ (transactions, "block-id")
    ∷ (transactions, "digest")
    ∷ (transactions, "serial")
    ∷ (transactions, "timestamp")
    ∷ (transactions_processing, "block-id")
    ∷ (genesis_transactions, "serial")
    ∷ (genesis_transactions, "block-id")
    ∷ (genesis_transactions, "digest")
    ∷ []

abbrev pub get_replacement_keys : List (String × String)
get_replacement_keys = ("transaction-name", "transaction-type") ∷ []
