-- ===== src/Daemon/Main/Alive.antt =====
-- The whole run of the daemon's `main`, from its options to its loop.
use banip.Base.{ℕ, ◌≡◌, refl, List, Bytes, Outcome, returns, Returns-at, Returns-inv}
use banip.Error.{empty}
use banip.Process.{Proc}
use banip.Parse.Word.{Endian}
use banip.Parse.Addr.{Libc, IsLibc}
use banip.Queue.{QueueApi}
use banip.Queue.Contract.{Terms, IsQueue}
use banip.Engine.{Engine}
use banip.Daemon.Serve.{Log}
use banip.Daemon.Serve.Laws.{Parts, Benign}
use banip.Daemon.Start.{Host, Settings}
use banip.Daemon.Start.Laws.{StartParts, HasUsers}
use banip.Daemon.Options.{Opt, OptionHost, goes, Chosen}
use banip.Daemon.Block.{Progress, run_block}
use banip.Daemon.Block.Laws.{IsAlive, Leads, run_block-IsAlive}
use banip.Daemon.Main.{prepare, statics_of, Run, in_block, main}
use banip.Daemon.Main.Laws.{Settled, prepare-Settled}

module _ {W : Type 0} (endian : Endian) (lib : Libc) (L : IsLibc lib) (log : Log W)
    (api : QueueApi W) (terms : Terms api) (keeps : IsQueue api terms) (options_host : OptionHost W)
    (host : Host W) (settings : Settings) (c : Chosen api options_host)
    (begin : StartParts api c.the_engine host) (users : HasUsers api c.the_engine host)
    (parts : Parts endian lib log api c.the_engine) where
  -- The process is in its block with the engine that was chosen, and goes on from there.
  abbrev pub IsRunning : Outcome (Run api options_host host endian lib log) → Type 1
  IsRunning run =
      (progress : Progress endian lib log api c.the_engine host) × (run
        ≡ returns (in_block c.the_engine progress))
      × IsAlive endian lib L log api c.the_engine host begin users parts settings
          (statics_of api options_host host c) progress

  -- Over a queue that keeps the contract, with no error pending: if the options and operands lead to
  -- the block, with parts that report what they come to, a start that leaves the queue readable where
  -- it succeeds, and texts that are benign, then after any number of rounds the daemon is in its
  -- block with the engine that was chosen, in its loop and ready for the next round, or the start has
  -- stopped and it is about to exit with the status of failure: an error with which the start
  -- stopped has been written to the log and freed, and no error is pending.
  pub main-IsAlive :
      (rounds : ℕ) (available : List (Engine W)) (options : List Opt) (operands : List Bytes)
      (p : Proc W)
      → p.env.slot ≡ empty
      → prepare api options_host available options operands p ≡ returns (goes (settings, c))
      → Leads endian lib L log api c.the_engine host begin users parts settings
          (statics_of api options_host host c)
      → Benign endian lib log api c.the_engine
      → IsRunning (main api options_host host endian lib log rounds available options operands p)
  unfolding main
  main-IsAlive rounds available options operands p clean prepared leads benign =
      let quiet =
        Returns-at (Settled (λ r. r.1.proc.env.slot ≡ empty)) _
          (prepare-Settled api options_host terms keeps available options operands p clean)
          prepared in
      let (progress, run, alive) =
        Returns-inv
          (IsAlive endian lib L log api c.the_engine host begin users parts settings
            (statics_of api options_host host c))
          (run_block endian lib log api c.the_engine host rounds settings
            (statics_of api options_host host c))
          (run_block-IsAlive endian lib L log api c.the_engine host begin users parts rounds
            settings (statics_of api options_host host c)
            (record { no_error = quiet; queue_there = λ h. cc h }) leads benign) in
      (progress, rw (prepared, run, main) refl, alive)
