-- ===== src/Daemon/Cleanup/Laws.antt =====
-- What the end of the daemon frees, and what it leaves behind.
use banip.Base.{
  ◌≡◌, refl, inl, inr, ◌∙◌, Bool, true, false, none, some, Option, Bytes, undefined, invalid_free,
  ◌>>=◌, Returns, Returns-inv, Option-cases,
}
use banip.Error.{null}
use banip.Process.{Proc, done, set_slot, Reply-cases}
use banip.Queue.{QueueApi}
use banip.Queue.Posix.{Kernel, PosixQueue, posix_queue}
use banip.Queue.Posix.Ownership.{HasNames, closed_world, Closes, queue_close-owner}
use banip.Engine.{Engine}
use banip.Engine.Command.{Shell, ipset_engine}
use banip.Engine.Command.Laws.{ipset_open_lem}
use banip.Daemon.Start.{Host, Settings, Statics, engine_step}
use banip.Daemon.Cleanup.{free_ctxt, close_the_queue, remove_pid, cleanup, sigterm, on_signal}

module _ {W : Type 0} (api : QueueApi W) (sh : Shell W) (host : Host W) where
  -- Once the ipset engine has been opened, the cleanup of the daemon is undefined, whatever the
  -- commands come to: the pointer 1 is passed to `free`.
  pub cleanup-ipset :
      (settings : Settings) (s : Statics api (ipset_engine sh) host)
      → (do
        (go, s') ← engine_step api (ipset_engine sh) host settings s
        cleanup api (ipset_engine sh) host s')
        ≡ undefined invalid_free
  unfolding engine_step cleanup free_ctxt
  cleanup-ipset settings s = rw (ipset_open_lem sh settings.table_name s.proc) refl

-- The files that the cleanup removes and closes are not queues.
pub record KeepsNames {W : Type 0} (k : Kernel W) (N : HasNames k) (host : Host W) : Type 0 where
  pub unlink_keeps :
      (file : Bytes) (w : W) (n : Bytes) → N.exists (host.unlink file w).1 n ≡ N.exists w n
  pub warn_keeps : (text : Bytes) (w : W) (n : Bytes) → N.exists (host.warn text w) n ≡ N.exists w n
  pub close_log_keeps : (w : W) (n : Bytes) → N.exists (host.close_log w) n ≡ N.exists w n

module _ {W : Type 0} (k : Kernel W) (N : HasNames k) (engine : Engine W) (host : Host W)
    (K : KeepsNames k N host) where
  abbrev PosixStatics : Type 0
  PosixStatics = Statics (posix_queue k) engine host

  -- Nothing is held any more, and the queue's name is gone.
  pub record IsReleased (name : Bytes) (s : PosixStatics) : Type 0 where
    pub no_buffer : s.buffer ≡ none
    pub no_ctxt : s.ctxt ≡ none
    pub no_queue : s.queue ≡ none
    pub no_name : N.exists s.proc.world name ≡ false

  remove_pid-IsReleased :
      (name : Bytes) (s : PosixStatics)
      → IsReleased name s
      → IsReleased name (remove_pid (posix_queue k) engine host s)
  unfolding remove_pid
  remove_pid-IsReleased name s h = elim (Option-cases s.pidfile) [
    | inl absent ↦ rw (absent, remove_pid) h
    | inr (file, given) ↦ elim (Reply-cases (host.unlink file s.proc.world).0) [
      | inl (n, e) ↦
          rw (given, e, remove_pid)
            (record {
              no_buffer = h.no_buffer;
              no_ctxt = h.no_ctxt;
              no_queue = h.no_queue;
              no_name = K.warn_keeps _ _ name ∙ K.unlink_keeps file s.proc.world name ∙ h.no_name;
            })
      | inr (u, e) ↦
          rw (given, e, remove_pid)
            (record {
              no_buffer = h.no_buffer;
              no_ctxt = h.no_ctxt;
              no_queue = h.no_queue;
              no_name = K.unlink_keeps file s.proc.world name ∙ h.no_name;
            })
    ]
  ]

  -- On SIGTERM, if there is no context, the calls on the queue succeed and the files are not queues,
  -- the daemon frees all it holds and removes the name of the queue that it owns, and the signal is
  -- then sent again.
  pub on_signal-IsReleased :
      (s : PosixStatics) (q : PosixQueue) (name : Bytes)
      → s.ctxt ≡ none
      → s.queue ≡ some q
      → q.filename ≡ some name
      → Closes k q.mq s.proc.world
      → (k.mq_unlink name (closed_world k q.mq s.proc.world)).0 ≡ done tt
      → Returns
          (λ r. (r.0 ≡ true) × IsReleased name r.1)
          (on_signal (posix_queue k) engine host sigterm s)
  unfolding on_signal cleanup free_ctxt close_the_queue
  on_signal-IsReleased s q name no_ctxt the_queue owned closes unlinks =
      let (r, run, h) =
        Returns-inv
          (λ (r : Bool × Option PosixQueue × Proc W).
            (r.0 ≡ true) × (r.1 ≡ none) × (N.exists r.2.world name ≡ false))
          _ (queue_close-owner k N q name (set_slot s.proc null) owned closes unlinks) in
      let closed : PosixStatics = record s {
        buffer = none;
        queue = r.1;
        proc = set_slot r.2 s.proc.env.slot;
      } in
      let released =
        remove_pid-IsReleased name closed
          (record { no_buffer = refl; no_ctxt = no_ctxt; no_queue = h.1; no_name = h.2 }) in
      rw (no_ctxt, the_queue, free_ctxt, run)
        (
          refl,
          record {
            no_buffer = released.no_buffer;
            no_ctxt = released.no_ctxt;
            no_queue = released.no_queue;
            no_name = K.close_log_keeps _ name ∙ released.no_name;
          },
        )
