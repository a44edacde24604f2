-- ===== src/Daemon/Life/Laws.antt =====
-- What the daemon keeps through any rounds and signals.
use banip.Base.{ℕ, ◌≡◌, Bool, true, false, some, Bytes, returns, ◌>>=◌}
use banip.Parse.Word.{Endian}
use banip.Parse.Addr.{Libc, IsLibc}
use banip.Queue.{QueueApi}
use banip.Engine.{Engine, Pointer}
use banip.Daemon.Serve.{Log, Server, serve_one}
use banip.Daemon.Serve.Laws.{Parts, IsReady}
use banip.Daemon.Start.{Host, Statics}
use banip.Daemon.Cleanup.{sigint, sigterm, sigusr1, on_signal}
use banip.Daemon.Cleanup.Freed.{IsFreeable, IsGone, GivesBack, Closes}
use banip.Daemon.Life.{Loop, statics_in, Life, alive, killed, Reaches}

module _ {W : Type 0} (endian : Endian) (lib : Libc) (L : IsLibc lib) (log : Log W)
    (api : QueueApi W) (engine : Engine W) (host : Host W)
    (parts : Parts endian lib log api engine) where
  -- What the handlers rely on: every `queue_close` succeeds, and leaves a null pointer and no error; opening
  -- the log again leaves a queue readable.
  pub record Quits : Type 0 where
    pub closes : Closes api engine host
    pub reopening :
        (q : api.Queue) (size : ℕ) (w : W)
        → parts.Readable q size w
        → parts.Readable q size (host.reopen_log w).1
    pub warning :
        (q : api.Queue) (size : ℕ) (text : Bytes) (w : W)
        → parts.Readable q size w
        → parts.Readable q size (host.warn text w)

  abbrev TheLife : Type 0
  TheLife = Life endian lib log api engine host

  abbrev TheLoop : Type 0
  TheLoop = Loop endian lib log api engine host

  abbrev TheStatics : Type 0
  TheStatics = Statics api engine host

  -- The loop is ready for its next round, and its context can be freed. Once a signal has ended the
  -- process, it has no pointer left to what it held, and no error is pending.
  abbrev pub IsSafe : TheLife → Type 0
  IsSafe (alive l) =
      IsReady endian lib log api engine L parts l.server
      × ((c : Pointer engine.Ctxt) → l.server.ctxt ≡ some c → IsFreeable api engine host c)
  IsSafe (killed t) = IsGone api engine host t

  -- What an ended process held was given back: it was in some loop that the first one leads to, and its
  -- cleanup closed and freed what that one had.
  abbrev pub HasGivenBack : TheLoop → TheLife → Type 0
  HasGivenBack first (alive l) = Unit
  HasGivenBack first (killed t) =
      (l : TheLoop) × Reaches endian lib log api engine host (alive first) (alive l)
      × GivesBack api engine host (statics_in endian lib log api engine host l) t

  -- In the loop, the round and the handlers of the three signals all return.
  abbrev pub GoesOn : TheLife → Type 0
  GoesOn (alive l) =
      let statics = statics_in endian lib log api engine host l in
      ((s : Server endian lib log api engine) × (serve_one endian lib log api engine l.server
          ≡ returns s))
      × ((t : TheStatics) × (on_signal api engine host sigusr1 statics ≡ returns (false, t)))
      × ((t : TheStatics) × (on_signal api engine host sigint statics ≡ returns (true, t)))
      × ((t : TheStatics) × (on_signal api engine host sigterm statics ≡ returns (true, t)))
  GoesOn (killed t) = Unit

  module _ (quits : Quits) where
    abbrev HasQuit : TheLoop → Bool × TheStatics → Type 0
    HasQuit l r =
        IsSafe (killed r.1)
        × GivesBack api engine host (statics_in endian lib log api engine host l) r.1
