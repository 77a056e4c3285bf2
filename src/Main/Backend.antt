-- ===== src/Main/Backend.antt =====
-- backend/main.cpp.
pub mod Laws
use mile_explorer.Common.{ℕ, String, Bool, true, false, none, some, List}
use mile_explorer.Common.Int.{ℤ, negsuc}
use mile_explorer.Common.Exec.{Exec, Result, throw, unknown, pure, lift, gets, ◌>>=◌, ◌>>◌}
use mile_explorer.Json.{JsonLib}
use mile_explorer.Driver.{Driver}
use mile_explorer.Db.{Db}
use mile_explorer.Db.Init.{open_db}
use mile_explorer.Rpc.Container.{Container}
use mile_explorer.Rpc.Router.{Method, RpcBase}
use mile_explorer.Rpc.Server.{Acceptor, Server}
use mile_explorer.Rpc.Server
use mile_explorer.Api.Registration.{Registration, main_router}
use mile_explorer.Main.{
  Config, Yaml, Options, exits, returns, setting, read_db, parse_cmdline, Process, on_config,
  on_world,
}

module _ {Y : Type 0} (yaml : Yaml Y) where
  unfoldable pub read_http : Y → Exec Config Unit
  read_http file = do
    setting (yaml.text file "http_bind_address") (λ v c. record c { http_bind_address = v })
    setting (yaml.port file "http_port") (λ v c. record c { http_port = v })
    setting (yaml.number file "rpc_pool_size") (λ v c. record c { rpc_pool_size = v })

  unfoldable pub read_logging : Y → Exec Config Unit
  read_logging file = do
    setting (yaml.flag file "json_rpc_debug") (λ v c. record c { debug_on = v })
    setting (yaml.number file "log_level") (λ v c. record c { log_level = v })

  -- The part of `parse_cmdline` that reads the file, in the order of the source.
  unfoldable pub read_config : Y → Exec Config Unit
  unfolding read_http read_logging
  read_config file = do read_db yaml file; read_http file; read_logging file

-- How the program goes on: it ends with a code, or serves.
pub data Course (J W M : Type 0) : Type 0 where
  ends : ℤ → Course J W M
  serves : RpcBase J W M → Server W → Course J W M

-- The network: whether an address can be parsed, and how far a listener comes with an address and a
-- port.
pub record Network : Type 0 where
  pub parses : String → Bool
  pub acceptor : String → ℕ → Acceptor

module _ {Y J W M : Type 0} ⦃lib : JsonLib J⦄ ⦃container : Container M (Method J W)⦄ (yaml : Yaml Y)
    (driver : Driver J W) (network : Network) (access : String → Bool)
    (emplace_json : J → String → String → J) (no_params : J)
    (entries : List (Registration J W)) where
  -- From the database on. A server that is not there is dereferenced, which is undefined in C++, and
  -- throws `unknown` here.
  unfoldable pub start : Config → Exec W (Course J W M)
  start config = do
    opened ← open_db driver config.db_name config.db_host config.db_port
    elim opened [
      | none ↦ pure (ends (negsuc 0))
      | some db ↦ do
        w ← gets (λ (w : W). w)
        let acceptor = network.acceptor config.http_bind_address config.http_port
        elim (Server.create (network.parses config.http_bind_address) acceptor w) [
          | none ↦ lift (throw unknown)
          | some server ↦
              pure (serves (main_router emplace_json db no_params entries) (Server.run server))
        ]
    ]

  unfoldable pub main : Result Options → Exec (Process W) (Course J W M)
  unfolding start
  main args = do
    outcome ← on_config (parse_cmdline yaml (read_config yaml) access args)
    elim outcome [
      | exits code ↦ pure (ends code)
      | returns false ↦ pure (ends (negsuc 0))
      | returns true ↦ λ (s : Process W). on_world (start s.config) s
    ]
