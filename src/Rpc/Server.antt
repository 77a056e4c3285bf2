-- ===== src/Rpc/Server.antt =====
-- backend/jsonrpc/server.cpp, http/listener.cpp and https/listener.cpp: the listener, and the sessions
-- that it starts, over one world.
pub mod Laws
use mile_explorer.Common.{
  ℕ, Bool, true, false, not, ◌&&◌, Option, none, some, List, [], ◌∷◌, ◌++◌, ◌≡◌, if◌then◌else◌,
}
use mile_explorer.Json.{JsonLib}
use mile_explorer.Rpc.Container.{Container}
use mile_explorer.Rpc.Router.{Method, RpcBase}
use mile_explorer.Rpc.Request.{HttpResponse}
use mile_explorer.Rpc.Session.{Session, Step as SessionStep}
use mile_explorer.Rpc.Session

-- How far the constructor of a listener has come with its acceptor.
pub data Acceptor : Type 0 where
  closed opened bound listening : Acceptor

-- The error codes of `open`, `bind` and `listen`.
unfoldable pub listen : Bool → Bool → Bool → Acceptor
listen open_ec bind_ec listen_ec =
    if open_ec then closed else if bind_ec then opened else if listen_ec then bound else listening

-- An acceptor is open also when it could not be bound.
unfoldable pub is_open : Acceptor → Bool
is_open closed = false
is_open opened = true
is_open bound = true
is_open listening = true

-- How the process ends: `main` returns, the listener exits, or an exception is caught nowhere.
pub data End : Type 0 where
  returned exit_failure terminated : End

-- `accepting`: an accept is pending.
pub record Server (W : Type 0) : Type 0 where
  pub world : W
  pub tls : Bool
  pub acceptor : Acceptor
  pub accepting : Bool
  pub ended : Option End
  pub sessions : List (Session W)

module _ {W : Type 0} where
  -- `Server::Create`, with whether the address can be parsed, and what becomes of the acceptor.
  unfoldable pub create : Bool → Acceptor → W → Option (Server W)
  create parses acceptor w =
      if parses
      then some (record {
        world = w;
        tls = false;
        acceptor = acceptor;
        accepting = false;
        ended = none;
        sessions = [];
      })
      else none

  unfoldable pub do_accept : Server W → Server W
  do_accept s = record s { accepting = true }

  -- Without an accept the io_context has no work, and `main` returns.
  unfoldable pub run : Server W → Server W
  unfolding do_accept is_open
  run s = if is_open s.acceptor then do_accept s else record s { ended = some returned }

  -- The listener of HTTP exits on an error, the one of HTTPS goes on.
  unfoldable pub on_accept : Bool → Server W → Server W
  unfolding do_accept
  on_accept ec s =
      if ec
      then (if s.tls
          then do_accept s
          else record s { accepting = false; ended = some exit_failure })
      else do_accept (record s { sessions = s.sessions ++ Session.run s.tls s.world ∷ [] })

  -- A session's callback has turned the session into `c`, in `before` and `after` it.
  unfoldable pub called_back : List (Session W) → Session W → List (Session W) → Server W → Server W
  called_back before c after s = record s {
    world = c.world;
    accepting = s.accepting && not c.failed;
    ended = if c.failed then some terminated else none;
    sessions = before ++ c ∷ after;
  }

module _ {J W M : Type 0} ⦃lib : JsonLib J⦄ ⦃container : Container M (Method J W)⦄
    (need_eof : HttpResponse → Bool) (rpc : RpcBase J W M) where
  -- The handlers of the io_context in any order, and what other programs do to the world.
  pub data Step : Server W → Server W → Type 0 where
    accepts :
        {s : Server W} (ec : Bool) → s.ended ≡ none → s.accepting ≡ true → Step s (on_accept ec s)
    calls_back :
        {s : Server W} (before after : List (Session W)) (c d : Session W)
        → s.ended ≡ none
        → s.sessions ≡ before ++ c ∷ after
        → SessionStep need_eof rpc (record c { world = s.world }) d
        → Step s (called_back before d after s)
    others : {s : Server W} (w : W) → Step s (record s { world = w })

  pub data Reachable : Server W → Type 0 where
    starts :
        {s : Server W} (parses : Bool) (acceptor : Acceptor) (w : W)
        → create parses acceptor w ≡ some s
        → Reachable (run s)
    steps : {s t : Server W} → Reachable s → Step s t → Reachable t
