-- ===== src/Daemon/Main.antt =====
-- banipd.c: `main` from its beginning, over the options that `getopt_long` hands over and what stands
-- behind them. The signal handlers and `atexit` are registered on the way; `on_signal` and `cleanup`
-- stand in Daemon/Cleanup.
pub mod Laws
pub mod Alive
use banip.Base.{ℕ, false, List, Option, none, some, Bytes, Outcome, returns, ◌>>=◌}
use banip.Process.{Proc}
use banip.Parse.Word.{Endian}
use banip.Parse.Addr.{Libc}
use banip.Queue.{QueueApi}
use banip.Engine.{Engine, get_default_engine}
use banip.Daemon.Serve.{Log}
use banip.Daemon.Start.{Host, Settings, Statics}
use banip.Daemon.Options.{
  Opt, OptionHost, Taken, goes, exits, Chosen, take_options, check_operands, exit_failure,
}
use banip.Daemon.Block.{Progress, run_block}

module _ {W : Type 0} (api : QueueApi W) (options_host : OptionHost W) where
  -- What `main` sets before it looks at its options.
  abbrev pub defaults : api.Queue → Engine W → Proc W → Chosen api options_host
  defaults q e p = record {
    the_queue = q;
    the_engine = e;
    become_daemon = false;
    verbosity = 0;
    gid = none;
    pidfile = none;
    logfile = none;
    queue_name = none;
    table_name = none;
    proc = p;
  }

  abbrev pub Prepared : Type 1
  Prepared = Taken (Settings × Chosen api options_host)

  -- The options and the operands, over a queue and the default engine.
  unfoldable pub read_arguments :
      List (Engine W) → List Opt → List Bytes → Chosen api options_host → Outcome Prepared
  read_arguments available options operands c = do
    taken ← take_options api options_host available c options
    elim taken [
      | exits status ↦ returns (exits status)
      | goes c' ↦ returns (check_operands api options_host c' operands)
    ]

  -- All that stands before the block. `errx` ends the process without a look at the error.
  unfoldable pub prepare : List (Engine W) → List Opt → List Bytes → Proc W → Outcome Prepared
  unfolding read_arguments
  prepare available options operands p = do
    (made, p') ← api.queue_init p
    elim made [
      | none ↦ returns (exits exit_failure)
      | some q ↦ elim (get_default_engine available) [
        | none ↦ returns (exits exit_failure)
        | some e ↦ read_arguments available options operands (defaults q e p')
      ]
    ]

  module _ (host : Host W) where
    -- The static variables as the block finds them.
    abbrev pub statics_of : (c : Chosen api options_host) → Statics api c.the_engine host
    statics_of c = record {
      buffer = none;
      ctxt = none;
      queue = some c.the_queue;
      pidfile = c.pidfile;
      proc = c.proc;
    }

    module _ (endian : Endian) (lib : Libc) (log : Log W) where
      -- Where the process is: it has ended before the block, or it is in it with an engine.
      pub data Run : Type 1 where
        exited : ℕ → Run
        in_block : (engine : Engine W) → Progress endian lib log api engine host → Run

      unfoldable pub main : ℕ → List (Engine W) → List Opt → List Bytes → Proc W → Outcome Run
      unfolding prepare
      main rounds available options operands p = do
        prepared ← prepare available options operands p
        elim prepared [
          | exits status ↦ returns (exited status)
          | goes (settings, c) ↦ do
            progress ← run_block endian lib log api c.the_engine host rounds settings (statics_of c)
            returns (in_block c.the_engine progress)
        ]
