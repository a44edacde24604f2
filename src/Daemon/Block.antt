-- ===== src/Daemon/Block.antt =====
-- banipd.c: the block of `main` from the end of its options on, with the loop in it, and what follows.
pub mod Laws
use banip.Base.{
  ℕ, Bool, Option, none, some, if◌then◌else◌, Outcome, returns, undefined, null_pointer, ◌>>=◌,
}
use banip.Error.{null, empty, full}
use banip.Process.{Proc}
use banip.Parse.Word.{Endian}
use banip.Parse.Addr.{Libc}
use banip.Queue.{QueueApi}
use banip.Engine.{Engine}
use banip.Daemon.Serve.{Log, Server, log_error, serve}
use banip.Daemon.Start.{Host, Settings, Statics, start}
use banip.Daemon.Options.{exit_failure}

module _ {W : Type 0} (endian : Endian) (lib : Libc) (log : Log W) (api : QueueApi W)
    (engine : Engine W) (host : Host W) where
  -- Where the process is: in its loop, or at the end of `main` with its status.
  pub data Progress : Type 0 where
    serving : Server endian lib log api engine → Progress
    ended : ℕ → Statics api engine host → Progress

  -- The loop takes over the queue, the context and the buffer.
  unfoldable pub enter_loop :
      Settings → Statics api engine host → Outcome (Server endian lib log api engine)
  enter_loop settings s = elim s.queue [
    | none ↦ undefined null_pointer
    | some q ↦ elim s.buffer [
      | none ↦ undefined null_pointer
      | some size ↦ returns (record {
        queue = q;
        ctxt = s.ctxt;
        table = settings.table_name;
        size = size;
        proc = s.proc;
      })
    ]
  ]

  -- What follows the block.
  unfoldable pub end_main : Statics api engine host → Outcome Progress
  end_main s = elim s.proc.env.slot [
    | full e ↦ do
      p ← log_error endian lib log api engine s.proc
      returns (ended exit_failure (record s { proc = p }))
    | other ↦ returns (ended exit_failure s)
  ]

  -- The block, with the first rounds of its loop.
  unfoldable pub run_block : ℕ → Settings → Statics api engine host → Outcome Progress
  unfolding enter_loop end_main
  run_block rounds settings s = do
    (go, s') ← start api engine host settings s
    let looping = (do
      server ← enter_loop settings s'
      server' ← serve endian lib log api engine rounds server
      returns (serving server'))
    let stopped = end_main s'
    if go then looping else stopped
