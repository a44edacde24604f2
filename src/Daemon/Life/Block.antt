-- ===== src/Daemon/Life/Block.antt =====
-- From the block of `main` on: what its start, its loop, its end and the signals hold and give back.
use banip.Base.{◌≡◌, Option, Bytes, ◌>>=◌, Returns}
use banip.Parse.Word.{Endian}
use banip.Parse.Addr.{Libc, IsLibc}
use banip.Queue.{QueueApi}
use banip.Engine.{Engine}
use banip.Daemon.Serve.{Log, Server}
use banip.Daemon.Serve.Laws.{Parts, IsReady}
use banip.Daemon.Start.{Host, Statics}
use banip.Daemon.Start.Laws.{StartParts, HasUsers}
use banip.Daemon.Start.Context.{HasGood}
use banip.Daemon.Cleanup.{cleanup}
use banip.Daemon.Cleanup.Freed.{IsFreeable, IsGone, GivesBack}
use banip.Daemon.Options.{exit_failure}
use banip.Daemon.Block.{Progress, serving, ended}
use banip.Daemon.Life.{alive}
use banip.Daemon.Life.Laws.{Quits, IsSafe}

module _ {W : Type 0} (endian : Endian) (lib : Libc) (L : IsLibc lib) (log : Log W)
    (api : QueueApi W) (engine : Engine W) (host : Host W) (begin : StartParts api engine host)
    (users : HasUsers api engine host) (parts : Parts endian lib log api engine)
    (quits : Quits endian lib L log api engine host parts) where
  abbrev TheStatics : Type 0
  TheStatics = Statics api engine host

  abbrev TheServer : Type 0
  TheServer = Server endian lib log api engine

  abbrev Freeable : TheStatics → Type 0
  Freeable = HasGood api engine host (IsFreeable api engine host)

  -- In the loop, the daemon is safe. At the end of `main` with the status of failure, the cleanup at the
  -- exit returns, and what the process held has been given back.
  abbrev pub AfterBlock : Progress endian lib log api engine host → Type 0
  AfterBlock (serving server) =
      (file : Option Bytes)
      → IsSafe endian lib L log api engine host parts
          (alive (record { server = server; pidfile = file }))
  AfterBlock (ended status s) =
      (status ≡ exit_failure)
      × Returns (λ t. IsGone api engine host t × GivesBack api engine host s t)
          (cleanup api engine host s)

  abbrev Next : TheServer → TheServer → Type 0
  Next s t = IsReady endian lib log api engine L parts t × (t.ctxt ≡ s.ctxt)
