-- ===== src/Rpc/Session.antt =====
-- backend/jsonrpc/http/session.cpp and https/session.cpp: one connection. A callback of boost::asio
-- is an event; at most one operation is pending, and the session is gone when none is.
pub mod Laws
use mile_explorer.Common.{Bool, true, false, List, [], ◌∷◌, ◌++◌, ◌≡◌, if◌then◌else◌}
use mile_explorer.Common.Exec.{Exec, Result, ok, throw}
use mile_explorer.Json.{JsonLib}
use mile_explorer.Rpc.Container.{Container}
use mile_explorer.Rpc.Router.{Method, RpcBase}
use mile_explorer.Rpc.Request.{HttpRequest, HttpResponse, handle}

-- `writing` holds the flag that `on_write` is bound to.
pub data Pending : Type 0 where
  handshaking reading shutting_down gone : Pending
  writing : Bool → Pending

-- What a read ends with: the request that the library leaves in `req_`, which the session of HTTP does
-- not empty before, the end of the stream, or another error.
pub data Read : Type 0 where
  request : HttpRequest → Read
  end_of_stream read_error : Read

-- `failed` is set when an exception leaves a callback.
pub record Session (W : Type 0) : Type 0 where
  pub world : W
  pub tls : Bool
  pub pending : Pending
  pub failed : Bool

module _ {W : Type 0} where
  unfoldable pub run : Bool → W → Session W
  run tls w = record {
    world = w;
    tls = tls;
    pending = if tls then handshaking else reading;
    failed = false;
  }

  unfoldable pub do_close : Session W → Session W
  do_close s = record s { pending = if s.tls then shutting_down else gone }

  unfoldable pub on_handshake : Bool → Session W → Session W
  on_handshake ec s = record s { pending = if ec then gone else reading }

  unfoldable pub on_write : Bool → Bool → Session W → Session W
  unfolding do_close
  on_write ec close s =
      if ec
      then record s { pending = gone }
      else if close
      then do_close s
      else record s { pending = reading }

-- `need_eof` is the library's: whether the end of a response is the end of the connection.
module _ {J W M : Type 0} ⦃lib : JsonLib J⦄ ⦃container : Container M (Method J W)⦄
    (need_eof : HttpResponse → Bool) (rpc : RpcBase J W M) where
  abbrev send : Result HttpResponse × W → Session W → Session W
  send (ok res, w) s = record s { world = w; pending = writing (need_eof res) }
  send (throw e, w) s = record s { world = w; pending = gone; failed = true }

  unfoldable pub on_read : Read → Session W → Session W
  unfolding do_close
  on_read (request req) s = send (handle req rpc s.world) s
  on_read end_of_stream s = do_close s
  on_read read_error s = record s { pending = gone }

  -- The callback of the pending operation, or what other sessions do to the world.
  pub data Step : Session W → Session W → Type 0 where
    handshakes : {s : Session W} (ec : Bool) → s.pending ≡ handshaking → Step s (on_handshake ec s)
    reads : {s : Session W} (r : Read) → s.pending ≡ reading → Step s (on_read r s)
    writes :
        {s : Session W} (ec close : Bool) → s.pending ≡ writing close → Step s (on_write ec close s)
    shuts_down : {s : Session W} → s.pending ≡ shutting_down → Step s (record s { pending = gone })
    others : {s : Session W} (w : W) → Step s (record s { world = w })

  pub data Reachable : Session W → Type 0 where
    starts : (tls : Bool) (w : W) → Reachable (run tls w)
    steps : {s t : Session W} → Reachable s → Step s t → Reachable t
