-- ===== src/Tests/Settings.antt =====
-- Data for the tests of the two programs: a configuration, and a file that has every key.
use mile_explorer.Common.{ℕ, false, [], ◌∷◌}
use mile_explorer.Common.Int.{pos}
use mile_explorer.Common.Exec.{Result, ok}
use mile_explorer.Main.{Config, Yaml, Options, Process}

-- A file that has every key.
abbrev pub yaml : Yaml ℕ
yaml = record {
  load_file = λ name. ok 0;
  elements = λ y key. y ∷ [];
  element = λ y. ok "http://node";
  text = λ y key. ok key;
  number = λ y key. ok (pos 5);
  port = λ y key. ok 28015;
  flag = λ y key. ok false;
}

abbrev pub config : Config
config = record {
  db_host = "localhost";
  db_port = 28015;
  db_name = "blockchain";
  node_urls = [];
  rpc_queue_size = pos 20;
  block_processin_queue_size = pos 12;
  update_timeout = pos 20;
  request_timeout = pos 20;
  rpc_connection_timeout = pos 5;
  procesing_refresh_time = pos 1;
  http_bind_address = "0.0.0.0";
  http_port = 8042;
  rpc_pool_size = pos 64;
  genesis_url = "";
  debug_on = false;
  client_timeout = pos 5;
  log_level = pos 1;
}

abbrev pub args : Result Options
args = ok (record { help = false; config_file = "indexer.yaml" })

abbrev pub process : Process ℕ
process = record { config = config; world = 0 }
