-- ===== src/Rpc/Session/Laws.antt =====
-- When an exception leaves a session: backend/jsonrpc/http/session.cpp and https/session.cpp.
use mile_explorer.Common.{Bool, true, ◌≡◌, sym, ◌∙◌, inl, inr, arith}
use mile_explorer.Common.Exec.{Exception, Result-cases}
use mile_explorer.Json.{JsonLib}
use mile_explorer.Rpc.Container.{Container}
use mile_explorer.Rpc.Router.{Method, RpcBase}
use mile_explorer.Rpc.Request.{HttpResponse, handle}
use mile_explorer.Rpc.Request.Laws.{handle_throws, IsUnprintable}
use mile_explorer.Rpc.Context.{Context}
use mile_explorer.Rpc.Session.{
  Session, run, do_close, on_handshake, on_write, on_read, Read, request, end_of_stream, read_error,
  Step, handshakes, reads, writes, shuts_down, others, Reachable, starts, steps,
}

module _ {J W M : Type 0} ⦃lib : JsonLib J⦄ ⦃container : Container M (Method J W)⦄
    (need_eof : HttpResponse → Bool) (rpc : RpcBase J W M) where
  -- Printing the response or the parameters of some context throws.
  abbrev pub HasUnprintable : Type 0
  HasUnprintable = (e : Exception) × (ctx : Context J) × IsUnprintable J ctx e

  failed-on_read :
      (r : Read) (s : Session W)
      → (s.failed ≡ true → HasUnprintable)
      → (on_read need_eof rpc r s).failed ≡ true
      → HasUnprintable
  unfolding on_read do_close
  failed-on_read (request req) s h failed = elim (Result-cases (handle req rpc s.world).0) [
    | inl (res, e) ↦ h (ground arith)
    | inr (x, e) ↦ let (ctx, fails) = handle_throws req rpc s.world x e in (x, ctx, fails)
  ]
  failed-on_read end_of_stream s h failed = h failed
  failed-on_read read_error s h failed = h failed

  failed-on_write : (ec close : Bool) (s : Session W) → (on_write ec close s).failed ≡ s.failed
  unfolding on_write do_close
  failed-on_write ec close s = ground arith

  failed-Step :
      (s t : Session W)
      → Step need_eof rpc s t
      → (s.failed ≡ true → HasUnprintable)
      → t.failed ≡ true
      → HasUnprintable
  unfolding on_handshake
  failed-Step s t (handshakes ec e) h failed = h failed
  failed-Step s t (reads r e) h failed = failed-on_read r s h failed
  failed-Step s t (writes ec close e) h failed = h (sym (failed-on_write ec close s) ∙ failed)
  failed-Step s t (shuts_down e) h failed = h failed
  failed-Step s t (others w) h failed = h failed

  -- An exception leaves a callback only where printing throws.
  pub failed-Reachable :
      (s : Session W) → Reachable need_eof rpc s → s.failed ≡ true → HasUnprintable
  unfolding run
  failed-Reachable s (starts tls w) failed = absurd (ground arith)
  failed-Reachable t (steps {s} reached step) failed =
      failed-Step s t step (failed-Reachable s reached) failed
