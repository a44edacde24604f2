-- ===== src/Daemon/Block/Laws.antt =====
-- The start and the loop of the daemon together.
use banip.Base.{
  ℕ, ◌≡◌, refl, ◌≢◌, Bool, true, false, some, if◌then◌else◌, returns, ◌>>=◌, Returns, Returns->>=,
  Returns-inv,
}
use banip.Error.{Slot, null, empty, full, error_free}
use banip.Process.{set_world, set_slot}
use banip.Parse.Word.{Endian}
use banip.Parse.Addr.{Libc, IsLibc}
use banip.Queue.{QueueApi}
use banip.Engine.{Engine}
use banip.Daemon.Serve.{Log, log_error, serve}
use banip.Daemon.Serve.Laws.{Parts, Benign, IsReady, serve-IsReady}
use banip.Daemon.Start.{Host, Settings, Statics, start}
use banip.Daemon.Start.Steps.{Post, IsClean}
use banip.Daemon.Start.Laws.{StartParts, HasUsers, IsStarted, start-IsStarted}
use banip.Daemon.Options.{exit_failure}
use banip.Daemon.Block.{Progress, serving, ended, enter_loop, end_main, run_block}

module _ {W : Type 0} (endian : Endian) (lib : Libc) (L : IsLibc lib) (log : Log W)
    (api : QueueApi W) (engine : Engine W) (host : Host W) (begin : StartParts api engine host)
    (users : HasUsers api engine host) (parts : Parts endian lib log api engine) where
  abbrev TheStatics : Type 0
  TheStatics = Statics api engine host

  abbrev TheProgress : Type 0
  TheProgress = Progress endian lib log api engine host

  -- From the state in which the start stopped, with that slot, to the one at the exit: a pending error has
  -- been written to the log and freed, and without one nothing is done.
  abbrev pub Logs : Slot → TheStatics → TheStatics → Type 0
  Logs null t s = ⊥
  Logs empty t s = s ≡ t
  Logs (full e) t s =
      s
      ≡ record t { proc = set_slot (set_world t.proc (log.write_log (full e) t.proc.world)) empty }

  -- From these settings and that state: the loop is ready for its next round, or the start has stopped,
  -- and the process is about to exit with the status of failure, its error logged and freed.
  abbrev pub IsAlive : Settings → TheStatics → TheProgress → Type 0
  IsAlive settings s0 (serving server) = IsReady endian lib log api engine L parts server
  IsAlive settings s0 (ended status s) =
      (status ≡ exit_failure)
      × (s.proc.env.slot ≡ empty)
      × ((t : TheStatics) × (start api engine host settings s0 ≡ returns (false, t))
          × Logs t.proc.env.slot t s)

  end_main-IsAlive :
      (settings : Settings) (s0 s : TheStatics) (slot : Slot)
      → start api engine host settings s0 ≡ returns (false, s)
      → s.proc.env.slot ≡ slot
      → slot ≢ null
      → Returns (IsAlive settings s0) (end_main endian lib log api engine host s)
  unfolding end_main log_error error_free
  end_main-IsAlive settings s0 s null run same there = absurd (there refl)
  end_main-IsAlive settings s0 s empty run same there =
      rw (same, end_main) (refl, same, (s, run, rw same refl))
  end_main-IsAlive settings s0 s (full e) run same there =
      rw (same, end_main, log_error, same, error_free) (refl, refl, (s, run, rw same refl))

  -- The settings and the state with which the start ends leave the queue readable.
  abbrev pub Leads : Settings → TheStatics → Type 0
  Leads settings s =
      (s' : TheStatics) (q : api.Queue) (size : ℕ)
      → start api engine host settings s ≡ returns (true, s')
      → s'.queue ≡ some q
      → s'.buffer ≡ some size
      → parts.Readable q size s'.proc.world

  loop-IsAlive :
      (rounds : ℕ) (settings : Settings) (s0 s : TheStatics)
      → IsStarted api engine host begin s
      → ((q : api.Queue) (size : ℕ)
          → s.queue ≡ some q
          → s.buffer ≡ some size
          → parts.Readable q size s.proc.world)
      → Benign endian lib log api engine
      → Returns (IsAlive settings s0) (do
        server ← enter_loop endian lib log api engine host settings s
        server' ← serve endian lib log api engine rounds server
        returns (serving server'))
  unfolding enter_loop
  loop-IsAlive rounds settings s0 s started readable benign =
      let sized = started.sized in
      rw (sized.queue_is, sized.buffer_is, enter_loop)
        (Returns->>= (IsReady endian lib log api engine L parts) (IsAlive settings s0)
          (serve endian lib log api engine rounds _) _
          (serve-IsReady endian lib log api engine L parts rounds _ benign (record {
            no_error = sized.no_error;
            readable = readable sized.the_queue _ sized.queue_is sized.buffer_is;
          }))
          λ server ready. ready)

  -- With a queue and no error pending, over parts that report what they come to: if the start
  -- leaves the queue readable where it succeeds, and every text that arrives is benign, then after
  -- any number of rounds the daemon is in its loop and ready for the next one, or it is about to
  -- exit with the status of failure, its error logged and freed.
  pub run_block-IsAlive :
      (rounds : ℕ) (settings : Settings) (s : TheStatics)
      → IsClean api engine host s
      → Leads settings s
      → Benign endian lib log api engine
      → Returns (IsAlive settings s) (run_block endian lib log api engine host rounds settings s)
  unfolding run_block
  run_block-IsAlive rounds settings s clean leads benign =
      let (r, run, post) =
        Returns-inv (Post api engine host (IsStarted api engine host begin)) _
          (start-IsStarted api engine host begin users settings s clean) in
      rw run (goes r.0 r.1 run post)
    where
      goes :
          (go : Bool) (t : TheStatics)
          → start api engine host settings s ≡ returns (go, t)
          → Post api engine host (IsStarted api engine host begin) (go, t)
          → Returns (IsAlive settings s) (
              let looping = (do
                server ← enter_loop endian lib log api engine host settings t
                server' ← serve endian lib log api engine rounds server
                returns (serving server')) in
              let stopped = end_main endian lib log api engine host t in
              if go then looping else stopped)
      goes true t run started =
          loop-IsAlive rounds settings s t started (λ q size. leads t q size run) benign
      goes false t run there = end_main-IsAlive settings s t t.proc.env.slot run refl there
