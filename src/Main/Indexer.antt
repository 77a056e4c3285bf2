-- ===== src/Main/Indexer.antt =====
-- indexer/main.cpp.
pub mod Laws
pub mod Start
use mile_explorer.Common.{
  ℕ, String, Bool, true, false, not, none, some, List, [], ◌∷◌, ◌++◌, if◌then◌else◌, str_eq,
}
use mile_explorer.Common.Int.{ℤ, pos, negsuc}
use mile_explorer.Common.Exec.{Exec, Result, ok, and_then, pure, lift, modify, catch, ◌>>=◌, ◌>>◌}
use mile_explorer.Json.{JsonLib}
use mile_explorer.Driver.{Driver}
use mile_explorer.Db.{Db}
use mile_explorer.Db.Getters.{get_last_block_id}
use mile_explorer.Db.Init.{Handle, open_db, init}
use mile_explorer.Fetcher.{Fetching, at_start}
use mile_explorer.Fetcher.Nodes.{Client, connect}
use mile_explorer.Main.{
  Config, Yaml, Options, Outcome, exits, returns, setting, read_db, parse_cmdline, Process,
  on_config, on_world,
}

module _ {Y : Type 0} (yaml : Yaml Y) where
  unfoldable pub add_urls : List Y → Exec Config Unit
  add_urls [] = pure tt
  add_urls (url ∷ urls) = do
    setting (yaml.element url) (λ u c. record c { node_urls = c.node_urls ++ u ∷ [] })
    add_urls urls

  -- The parts of `parse_cmdline` that read the file, in the order of the source.
  unfoldable pub read_nodes : Y → Exec Config Unit
  unfolding add_urls
  read_nodes file = do
    modify (λ (c : Config). record c { node_urls = [] })
    add_urls (yaml.elements file "node_urls")
    setting (yaml.text file "genesis_url") (λ v c. record c { genesis_url = v })

  unfoldable pub read_timeouts : Y → Exec Config Unit
  read_timeouts file = do
    setting (yaml.number file "request_timeout") (λ v c. record c { request_timeout = v })
    setting (yaml.number file "update_timeout") (λ v c. record c { update_timeout = v })
    setting (yaml.number file "rpc_connection_timeout")
        (λ v c. record c { rpc_connection_timeout = v })

  unfoldable pub read_queues : Y → Exec Config Unit
  read_queues file = do
    setting (yaml.number file "rpc_queue_size") (λ v c. record c { rpc_queue_size = v })
    setting (yaml.number file "block_processin_queue_size")
        (λ v c. record c { block_processin_queue_size = v })

  unfoldable pub read_debug : Y → Exec Config Unit
  read_debug file = do
    setting (yaml.flag file "json_rpc_debug") (λ v c. record c { debug_on = v })
    modify (λ (c : Config). record c { client_timeout = c.rpc_connection_timeout })
    setting (yaml.number file "log_level") (λ v c. record c { log_level = v })

  unfoldable pub read_config : Y → Exec Config Unit
  unfolding read_nodes read_timeouts read_queues read_debug
  read_config file = do
    read_nodes file
    read_timeouts file
    read_queues file
    read_db yaml file
    read_debug file

-- How the program goes on: it ends with a code, or fetches from a block on.
pub data Course : Type 0 where
  ends : ℤ → Course
  fetches : Db → Fetching → Course

module _ {Y J W : Type 0} ⦃lib : JsonLib J⦄ (yaml : Yaml Y) (driver : Driver J W)
    (client : Client J W) (version : ℕ) (access : String → Bool) where
  -- `init` on the handle, which comes back.
  abbrev initialised : Db → Exec W Db
  initialised db w =
      let (r, h) = init driver version (record { world = w; db = db }) in
      (and_then r (λ b. ok h.db), h.world)

  -- From the database on. A `std::exception` of the job that starts the fetcher is logged.
  unfoldable pub start : Config → Exec W Course
  start config = do
    opened ← open_db driver config.db_name config.db_host config.db_port
    elim opened [
      | none ↦ pure (ends (negsuc 0))
      | some handle ↦ do
        db ← initialised handle
        connected ← connect client config.node_urls
        if connected
            then (do last ← get_last_block_id driver db; pure (fetches db (at_start last)))
            else pure (ends (negsuc 0))
    ]

  unfoldable pub main : Result Options → Exec (Process W) Course
  unfolding start
  main args = do
    outcome ← on_config (parse_cmdline yaml (read_config yaml) access args)
    elim outcome [
      | exits code ↦ pure (ends code)
      | returns false ↦ pure (ends (negsuc 0))
      | returns true ↦ λ (s : Process W). on_world (start s.config) s
    ]
