-- ===== src/Rpc/Server/Laws.antt =====
-- What the server's sessions are, and when the server ends: backend/jsonrpc/server.cpp, listener.cpp.
use mile_explorer.Common.{Bool, is_some, none, true, false, not, [], ◌≡◌, some}
use mile_explorer.Common.Lists.{All}
use mile_explorer.Json.{JsonLib}
use mile_explorer.Rpc.Container.{Container}
use mile_explorer.Rpc.Router.{Method, RpcBase}
use mile_explorer.Rpc.Request.{HttpResponse}
use mile_explorer.Rpc.Session.{Session}
use mile_explorer.Rpc.Session
use mile_explorer.Rpc.Session.Laws.{HasUnprintable}
use mile_explorer.Rpc.Server.{Acceptor, returned, terminated, Server, is_open, Reachable}

module _ {J W M : Type 0} ⦃lib : JsonLib J⦄ ⦃container : Container M (Method J W)⦄
    (need_eof : HttpResponse → Bool) (rpc : RpcBase J W M) where
  -- Each session is one that its callbacks lead to. The listener of an open acceptor accepts as long
  -- as the process lives, `main` returns only without one, and an exception ends the process only
  -- where printing throws.
  pub record IsServing (s : Server W) : Type 0 where
    pub sessions : All (Session.Reachable need_eof rpc) s.sessions
    pub accepting : s.accepting ≡ not (is_some s.ended)
    pub lives : s.ended ≡ none → is_open s.acceptor ≡ true
    pub returns : s.ended ≡ some returned → is_open s.acceptor ≡ false
    pub terminates : s.ended ≡ some terminated → HasUnprintable need_eof rpc

  abbrev at_start : Acceptor → W → Server W
  at_start acceptor w = record {
    world = w;
    tls = false;
    acceptor = acceptor;
    accepting = false;
    ended = none;
    sessions = [];
  }
