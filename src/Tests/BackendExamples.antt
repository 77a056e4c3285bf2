-- ===== src/Tests/BackendExamples.antt =====
-- The theorem on the start of the backend at a concrete configuration.
use mile_explorer.Common.{none, ℕ, String, ◌≡◌, Bool, true, false, refl, List, []}
use mile_explorer.Common.Exec.{ok}
use mile_explorer.Json.Value.{Value, nil}
use mile_explorer.Db.Init.{open_db}
use mile_explorer.Rpc.Container.{Container, list_container}
use mile_explorer.Rpc.Router.{Method, RpcBase, set_router}
use mile_explorer.Rpc.Request.{HttpResponse}
use mile_explorer.Rpc.Server.{Server, listening}
use mile_explorer.Rpc.Server
use mile_explorer.Api.Registration.{main_router, register_all}
use mile_explorer.Main.{parse_cmdline, read_db}
use mile_explorer.Main.Laws.{IsRun}
use mile_explorer.Main.Backend.{read_config, serves, Network, main}
use mile_explorer.Main.Backend.Laws.{IsStarted, main_serves}
use mile_explorer.Tests.Fixtures.{lib, answering}
use mile_explorer.Tests.Settings.{yaml, config, args, process}

abbrev NoMethods : Type 0
NoMethods = List (String × Method Value ℕ)

instance abbrev no_methods : Container NoMethods (Method Value ℕ)
no_methods = list_container

abbrev network : Network
network = record { parses = λ address. true; acceptor = λ address port. listening }

abbrev router : RpcBase Value ℕ NoMethods
router = record {
  db = record {
    name = "db_name";
    host = "db_host";
    port = 28015;
    last_block_id = 0;
    exists = false;
  };
  version = "v1";
  target = "api";
  path = "/v1/api";
  storage = [];
}

abbrev server : Server ℕ
server = record {
  world = 1;
  tls = false;
  acceptor = listening;
  accepting = true;
  ended = none;
  sessions = [];
}

abbrev keeps_alive : HttpResponse → Bool
keeps_alive _ = false

is_serving :
    (main yaml (answering nil) network (λ file. true) (λ j name help. j) nil [] args process).0
    ≡ ok (serves router server)
unfolding main parse_cmdline read_config read_db open_db main_router Server.create Server.run
    set_router register_all
is_serving = refl

main_serves_example :
    (file : ℕ) × IsRun yaml (read_config yaml) (λ name. true) args config file
    × IsStarted yaml
        (answering nil)
        network
        (λ name. true)
        (λ j name help. j)
        nil
        []
        keeps_alive
        (read_config yaml file config).1
        router
        server
main_serves_example =
    main_serves yaml (answering nil) network (λ file. true) (λ j name help. j) nil [] keeps_alive
      args process router server is_serving
