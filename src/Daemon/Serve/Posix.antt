-- ===== src/Daemon/Serve/Posix.antt =====
-- The parts of the loop as Linux has them: a POSIX queue and the engine that prints.
use banip.Base.{ℕ, ◌≡◌, ◌≤◌, ◌<◌, Option, Bytes, length, Returns, Returns-mono, arith}
use banip.Error.{Slot, empty, Reports}
use banip.Process.{Proc, done}
use banip.Parse.Word.{Endian}
use banip.Parse.Addr.{Libc, Addr}
use banip.Queue.Posix.{Kernel, PosixQueue, queue_receive, posix_queue}
use banip.Queue.Posix.Laws.{queue_receive_lem}
use banip.Queue.{got}
use banip.Engine.{Pointer}
use banip.Engine.Command.{Shell, dummy_engine, dummy_handle}
use banip.Daemon.Serve.{Log}
use banip.Daemon.Serve.Round.{Settles}
use banip.Daemon.Serve.Laws.{Parts}

-- What `mq_receive` documents: a message is at most as long as the limit of its queue; reading,
-- printing and logging leave the limits alone.
pub record HasLimits {W : Type 0} (k : Kernel W) (sh : Shell W) (log : Log W) : Type 0 where
  pub limit : Option ℕ → W → ℕ
  pub within :
      (d : Option ℕ) (size : ℕ) (w : W) (b : Bytes)
      → (k.mq_receive d size w).0 ≡ done b
      → length b ≤ limit d w
  pub receive_keeps :
      (d : Option ℕ) (size : ℕ) (w : W) → limit d (k.mq_receive d size w).1 ≡ limit d w
  pub stderr_keeps : (d : Option ℕ) (line : Bytes) (w : W) → limit d (sh.stderr line w) ≡ limit d w
  pub log_keeps : (d : Option ℕ) (slot : Slot) (w : W) → limit d (log.write_log slot w) ≡ limit d w

module _ {W : Type 0} (endian : Endian) (lib : Libc) (k : Kernel W) (sh : Shell W) (log : Log W)
    (H : HasLimits k sh log) where
  -- The queue can be read while the buffer is longer than its limit.
  abbrev Fits : PosixQueue → ℕ → W → Type 0
  Fits q size w = H.limit q.mq w < size

  Fits-kept :
      (d : Option ℕ) (size : ℕ) {w w' : W}
      → H.limit d w' ≡ H.limit d w
      → H.limit d w < size
      → H.limit d w' < size
  Fits-kept d size same fits = omega arith

  pub queue_receive-Fits :
      (q : PosixQueue) (size : ℕ) (p : Proc W)
      → Fits q size p.world
      → p.env.slot ≡ empty
      → Returns
          (λ r. Reports (got r.0) r.2.env.slot × Fits r.1 size r.2.world)
          (queue_receive k q size size p)
  queue_receive-Fits q size p fits clean =
      let short : (b : Bytes) → (k.mq_receive q.mq size p.world).0 ≡ done b → length b < size =
        λ b h. let within = H.within q.mq size p.world b h in omega arith in
      Returns-mono
        (λ r.
          (r.1 ≡ q)
          × Reports (got r.0) r.2.env.slot
          × (r.2.world ≡ (k.mq_receive q.mq size p.world).1))
        (λ r. Reports (got r.0) r.2.env.slot × Fits r.1 size r.2.world)
        (queue_receive k q size size p) (queue_receive_lem k q size size p clean short)
        λ r (same, reports, world).
          (reports, rw (same, world) (Fits-kept q.mq size (H.receive_keeps q.mq size p.world) fits))

  pub dummy_handle-Fits :
      (ctxt : Option (Pointer (Unit {0}))) (table : Bytes) (addr : Addr) (p : Proc W)
      → p.env.slot ≡ empty
      → Returns
          (λ r.
            Settles r.0 r.1.env.slot
            × ((q : PosixQueue) (size : ℕ) → Fits q size p.world → Fits q size r.1.world))
          (dummy_handle sh ctxt table addr p)
  unfolding dummy_handle
  dummy_handle-Fits ctxt table addr p clean =
      (clean, λ q size fits. Fits-kept q.mq size (H.stderr_keeps q.mq _ p.world) fits)

  pub log-Fits :
      (q : PosixQueue) (size : ℕ) (slot : Slot) (w : W)
      → Fits q size w
      → Fits q size (log.write_log slot w)
  log-Fits q size slot w fits = Fits-kept q.mq size (H.log_keeps q.mq slot w) fits

  -- A POSIX queue and the dummy engine are what the loop relies on.
  abbrev pub posix_parts : Parts endian lib log (posix_queue k) (dummy_engine sh)
  posix_parts = record {
    Readable = Fits;
    receives = queue_receive-Fits;
    handles = λ ctxt table addr p wf clean. dummy_handle-Fits ctxt table addr p clean;
    logs = log-Fits;
  }
