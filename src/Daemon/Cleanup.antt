-- ===== src/Daemon/Cleanup.antt =====
-- banipd.c: `cleanup`, which runs at the exit and on a signal, `on_signal`, and the end of `main`.
pub mod Laws
pub mod Freed
use banip.Base.{
  Bool, true, false, none, some, codes, if◌then◌else◌, Outcome, returns, undefined, invalid_free,
  ◌>>=◌,
}
use banip.Error.{Slot, null, empty, full}
use banip.Process.{Proc, done, failed, set_world, set_slot}
use banip.Queue.{QueueApi}
use banip.Engine.{Engine, close_engine, free_pointer}
use banip.Daemon.Serve.{Log, log_error}
use banip.Daemon.Start.{Host, Statics}

-- The signals that `on_signal` tells apart.
pub data Signal : Type 0 where
  sigint sigterm sigusr1 other_signal : Signal

module _ {W : Type 0} (api : QueueApi W) (engine : Engine W) (host : Host W) where
  unfoldable pub free_ctxt : Statics api engine host → Outcome (Statics api engine host)
  free_ctxt s = elim s.ctxt [
    | none ↦ returns s
    | some c ↦ do
      p ← close_engine engine c s.proc
      p' ← free_pointer engine c p
      returns (record s { ctxt = none; proc = p' })
  ]

  -- `queue_close(&queue, NULL)`; the caller's error stays as it is.
  unfoldable pub close_the_queue : Statics api engine host → Outcome (Statics api engine host)
  close_the_queue s = do
    (closed, q, p) ← api.queue_close s.queue (set_slot s.proc null)
    returns (record s { queue = q; proc = set_slot p s.proc.env.slot })

  unfoldable pub remove_pid : Statics api engine host → Statics api engine host
  remove_pid s = elim s.pidfile [
    | none ↦ s
    | some name ↦
        let (gone, w) = host.unlink name s.proc.world in
        let w' : W = elim gone [ done _ ↦ w | failed n ↦ host.warn (codes "unlink failed") w ] in
        record s { proc = set_world s.proc w' }
  ]

  unfoldable pub cleanup : Statics api engine host → Outcome (Statics api engine host)
  unfolding free_ctxt close_the_queue remove_pid
  cleanup s = do
    s1 ← free_ctxt (record s { buffer = none })
    s2 ← close_the_queue s1
    let s3 = remove_pid s2
    returns (record s3 { proc = set_world s3.proc (host.close_log s3.proc.world) })

  unfoldable pub reopen : Statics api engine host → Statics api engine host
  reopen s =
      let (opened, w) = host.reopen_log s.proc.world in
      let w' = if opened then w else host.warn (codes "freopen failed, falling back to stderr") w in
      if host.has_log s.proc.world then record s { proc = set_world s.proc w' } else s

  -- Whether the signal is then sent again with its default action.
  unfoldable pub on_signal :
      Signal → Statics api engine host → Outcome (Bool × Statics api engine host)
  unfolding cleanup reopen
  on_signal sigint s = do s' ← cleanup s; returns (true, s')
  on_signal sigterm s = do s' ← cleanup s; returns (true, s')
  on_signal sigusr1 s = returns (false, reopen s)
  on_signal other_signal s = returns (true, s)
