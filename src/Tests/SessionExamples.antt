-- ===== src/Tests/SessionExamples.antt =====
-- The theorem on sessions at a concrete connection.
use mile_explorer.Common.{none, ℕ, String, Bool, true, false, List, [], ◌∷◌}
use mile_explorer.Json.Value.{Value}
use mile_explorer.Rpc.Container.{Container, list_container}
use mile_explorer.Rpc.Router.{Method, RpcBase}
use mile_explorer.Rpc.Request.{options, HttpRequest, HttpResponse}
use mile_explorer.Rpc.Session.{Session, reading, writing}
use mile_explorer.Rpc.Server
use mile_explorer.Rpc.Server.{Server, listening}
use mile_explorer.Tests.Fixtures.{lib, db}

abbrev NoMethods : Type 0
NoMethods = List (String × Method Value ℕ)

instance abbrev no_methods : Container NoMethods (Method Value ℕ)
no_methods = list_container

abbrev router : RpcBase Value ℕ NoMethods
router = record { db = db; version = "v1"; target = "api"; path = "/v1/api"; storage = [] }

abbrev ask : HttpRequest
ask = record { method = options; target = "/v1/api"; version = 11; body = "" }

abbrev keeps_alive : HttpResponse → Bool
keeps_alive _ = false

-- The session of the one connection that a server has accepted, before and after it reads.
abbrev connected : Session ℕ
connected = record { world = 0; tls = false; pending = reading; failed = false }

abbrev answering : Session ℕ
answering = record { world = 0; tls = false; pending = writing false; failed = false }

abbrev server : Server ℕ
server = record {
  world = 0;
  tls = false;
  acceptor = listening;
  accepting = true;
  ended = none;
  sessions = answering ∷ [];
}
