-- ===== src/Main/Backend/Laws.antt =====
-- What the backend serves: backend/main.cpp.
use mile_explorer.Common.{
  String, ◌≡◌, subst, inl, inr, Bool, true, false, none, some, List, arith, Option-cases,
}
use mile_explorer.Common.Exec.{Result, Result-cases, ok}
use mile_explorer.Json.{JsonLib}
use mile_explorer.Driver.{Driver}
use mile_explorer.Db.{Db}
use mile_explorer.Db.Init.{open_db}
use mile_explorer.Rpc.Container.{Container}
use mile_explorer.Rpc.Router.{Method, RpcBase}
use mile_explorer.Rpc.Request.{HttpResponse}
use mile_explorer.Rpc.Server.{Server}
use mile_explorer.Rpc.Server
use mile_explorer.Api.Registration.{Registration, main_router}
use mile_explorer.Main.{Config, Yaml, Options, exits, returns, parse_cmdline, Process}
use mile_explorer.Main.Laws.{IsRun, parse_cmdline-true}
use mile_explorer.Db.Init.Keeps.{open_db-named}
use mile_explorer.Main.Backend.{read_config, serves, Network, start, main}

acceptor-run :
    {W : Type 0} (parses : Bool) (acceptor : Server.Acceptor) (w : W) (s : Server W)
    → Server.create parses acceptor w ≡ some s
    → (Server.run s).acceptor ≡ acceptor
unfolding Server.create Server.run
acceptor-run parses acceptor w s h = ground arith

module _ {Y J W M : Type 0} ⦃lib : JsonLib J⦄ ⦃container : Container M (Method J W)⦄ (yaml : Yaml Y)
    (driver : Driver J W) (network : Network) (access : String → Bool)
    (emplace_json : J → String → String → J) (no_params : J) (entries : List (Registration J W))
    (need_eof : HttpResponse → Bool) where
  -- The router has the registered methods over the configured database, and the server has started
  -- with no session.
  pub record IsStarted (c : Config) (rpc : RpcBase J W M) (s : Server W) : Type 0 where
    pub db : Db
    pub routes : rpc ≡ main_router emplace_json db no_params entries
    pub named : (db.name ≡ c.db_name) × (db.host ≡ c.db_host) × (db.port ≡ c.db_port)
    pub bound : s.acceptor ≡ network.acceptor c.http_bind_address c.http_port
    pub reached : Server.Reachable need_eof rpc s

  start-IsStarted :
      (c : Config) (w : W) (rpc : RpcBase J W M) (s : Server W)
      → (start yaml driver network access emplace_json no_params entries c w).0 ≡ ok (serves rpc s)
      → IsStarted c rpc s
  unfolding start
  start-IsStarted c w rpc s h =
      let opened = open_db driver c.db_name c.db_host c.db_port w in
      let parses = network.parses c.http_bind_address in
      let acceptor = network.acceptor c.http_bind_address c.http_port in
      elim (Result-cases opened.0) [
        | inr (x, e) ↦ absurd (ground arith)
        | inl (none, e) ↦ absurd (ground arith)
        | inl (some db, e) ↦ elim (Option-cases (Server.create parses acceptor opened.1)) [
          | inl g ↦ absurd (ground arith)
          | inr (server, g) ↦
              let is_server : Server.run server ≡ s = ground arith in
              record {
                db = db;
                routes = ground arith;
                named = open_db-named driver c.db_name c.db_host c.db_port w db e;
                bound =
                    subst (λ t. t.acceptor ≡ acceptor) is_server
                      (acceptor-run parses acceptor opened.1 server g);
                reached =
                    subst (Server.Reachable need_eof rpc) is_server
                      (Server.Reachable.starts parses acceptor opened.1 g);
              }
        ]
      ]

  -- If main of the backend goes on to serve, the command line names a file that is there and has
  -- been read to its end, the router has the registered methods over the configured database, and
  -- the server is one that has started at the configured address.
  pub main_serves :
      (args : Result Options) (s : Process W) (rpc : RpcBase J W M) (server : Server W)
      → (main yaml driver network access emplace_json no_params entries args s).0
        ≡ ok (serves rpc server)
      → (file : Y) × IsRun yaml (read_config yaml) access args s.config file
        × IsStarted (read_config yaml file s.config).1 rpc server
  unfolding main
  main_serves args s rpc server h =
      let parsed = parse_cmdline yaml (read_config yaml) access args s.config in
      elim (Result-cases parsed.0) [
        | inr (x, e) ↦ absurd (ground arith)
        | inl (exits code, e) ↦ absurd (ground arith)
        | inl (returns false, e) ↦ absurd (ground arith)
        | inl (returns true, e) ↦
            let (file, run, same) =
              parse_cmdline-true yaml (read_config yaml) access args s.config e in
            let started = start-IsStarted parsed.1 s.world rpc server (ground arith) in
            (file, run, subst (λ c. IsStarted c rpc server) same started)
      ]
