-- ===== src/Tests/MainExamples.antt =====
-- The theorems on the start of the indexer and on the turns of the nodes at concrete data.
use mile_explorer.Common.{ℕ, ◌+◌, ◌<◌, ◌≡◌, String, true, false, refl, List, [], ◌∷◌, none, arith}
use mile_explorer.Common.Int.{pos, negsuc}
use mile_explorer.Common.Exec.{ok, throw, std_error}
use mile_explorer.Json.Value.{Value, nil}
use mile_explorer.Db.{Db}
use mile_explorer.Db.Cursor
use mile_explorer.Db.Table
use mile_explorer.Db.Version.{migration}
use mile_explorer.Db.Init.{init, open_db, create_missing, index_missing, read_last_block_id}
use mile_explorer.Db.Getters.{get_last_block_id, get_last_processed_block_id}
use mile_explorer.Fetcher.{at_start}
use mile_explorer.Fetcher.Nodes.{Client, Counted, on_world, get_rpc, connect}
use mile_explorer.Fetcher.Nodes.Laws.{get_rpc_turn}
use mile_explorer.Main.{Config, parse_cmdline, read_db}
use mile_explorer.Main.Laws.{IsRun}
use mile_explorer.Main.Indexer.{ends, fetches, main, read_config}
use mile_explorer.Main.Indexer.Laws.{IsRead}
use mile_explorer.Main.Indexer.Start.{main_fetches}
use mile_explorer.Tests.Fixtures.{lib, answering}
use mile_explorer.Tests.Settings.{yaml, config, args, process}

-- A client that connects to every node; the world counts its requests.
abbrev client : Client Value ℕ
client = record {
  connect = λ url w. (ok true, w + 1);
  get_wallet_state = λ key w. (ok none, w + 1);
  get_current_block_id = λ w. (ok none, w + 1);
  get_block = λ id w. (ok none, w + 1);
  get_blockchain_info = λ w. (ok none, w + 1);
  get_nodes = λ w. (ok none, w + 1);
}

abbrev urls : List String
urls = "a" ∷ "b" ∷ "c" ∷ []

abbrev counted : Counted ℕ
counted = record { world = 0; counter = 4 }

get_rpc_turn_example :
    (k : ℕ) × ((k < 3)
      × ((t : Counted ℕ)
          → t.counter ≡ 4 + k
          → get_rpc client urls t
            ≡ on_world (client.connect "a") (record t { counter = t.counter + 1 })))
get_rpc_turn_example = get_rpc_turn client urls counted 0 "a" refl (omega arith)

abbrev db : Db
db = record { name = "db_name"; host = "db_host"; port = 28015; last_block_id = 0; exists = false }

is_fetching :
    (main yaml (answering nil) client 1 (λ file. true) args process).0
    ≡ ok (fetches db (at_start 0))
unfolding main parse_cmdline read_config read_db open_db init get_last_block_id connect
    create_missing index_missing Table.has_index read_last_block_id migration Cursor.get_number
    Cursor.field Cursor.max Table.cursor Cursor.get Cursor.remove Table.insert
    get_last_processed_block_id Cursor.min
is_fetching = refl

-- The configuration that the file gives.
abbrev read : Config
read = record config {
  db_host = "db_host";
  db_name = "db_name";
  node_urls = "http://node" ∷ [];
  rpc_queue_size = pos 5;
  block_processin_queue_size = pos 5;
  update_timeout = pos 5;
  request_timeout = pos 5;
  genesis_url = "genesis_url";
  log_level = pos 5;
}

is_read : (main yaml (answering nil) client 1 (λ file. true) args process).1.config ≡ read
unfolding main parse_cmdline read_config read_db
is_read = refl

main_fetches_example :
    (file : ℕ) × IsRun yaml (read_config yaml) (λ file. true) args config file
    × IsRead yaml file (main yaml (answering nil) client 1 (λ file. true) args process).1.config
    × ("db_name"
        ≡ (main yaml (answering nil) client 1 (λ file. true) args process).1.config.db_name)
    × ("db_host"
        ≡ (main yaml (answering nil) client 1 (λ file. true) args process).1.config.db_host)
    × (28015 ≡ (main yaml (answering nil) client 1 (λ file. true) args process).1.config.db_port)
    × ((last : ℕ) × (at_start 0 ≡ at_start last))
main_fetches_example =
    main_fetches yaml (answering nil) client 1 (λ file. true) args process db (at_start 0)
      is_fetching

-- Without a file, and with one that cannot be read.
exit_tests :
    ((main yaml (answering nil) client 1 (λ file. false) args process).0 ≡ ok (ends (negsuc 0)))
    × ((main yaml
          (answering nil)
          client
          1
          (λ file. true)
          (ok (record { help = true; config_file = "" }))
          process).0
        ≡ ok (ends (pos 0)))
    × ((main yaml (answering nil) client 1 (λ file. true) (throw (std_error "option")) process).0
        ≡ ok (ends (negsuc 0)))
unfolding main parse_cmdline
exit_tests = (refl, refl, refl)
