-- ===== src/Tests/Life.antt =====
-- The daemon in its loop, when a message, SIGUSR1 and SIGTERM arrive.
use banip.Base.{
  ℕ, ◌≡◌, refl, true, false, none, some, codes, Returns, Option, Option-cases, inl, inr,
}
use banip.Process.{Proc}
use banip.Parse.Word.{little}
use banip.Queue.Posix.{PosixQueue, initial, posix_queue, queue_close}
use banip.Daemon.Start.{Host, Statics}
use banip.Daemon.Life.{Loop}
use banip.Tests.Parse.{small_libc}
use banip.Tests.Queue.{name, process}
use banip.Tests.Start.{calm_kernel, root_host}
use banip.Tests.Main.{no_log, dummy}

-- A log is kept, and it cannot be opened again.
abbrev log_host : Host ℕ
log_host = record root_host { has_log = λ w. true; reopen_log = λ w. (false, w) }

abbrev loop : Loop little small_libc no_log (posix_queue calm_kernel) dummy log_host
loop = record {
  server = record {
    queue = record initial { mq = some 3; filename = some name };
    ctxt = none;
    table = codes "blacklist";
    size = 1025;
    proc = process 0;
  };
  pidfile = some (codes "/run/banip.pid");
}

close_shut :
    (q : PosixQueue) (p : Proc ℕ)
    → q.mq ≡ none
    → Returns (λ r. r.1 ≡ none) (queue_close calm_kernel (some q) p)
unfolding queue_close
close_shut q p shut = elim (Option-cases q.filename) [
  | inl nameless ↦ rw (shut, nameless, queue_close) refl
  | inr (file, named) ↦ rw (shut, named, queue_close) refl
]

pub closes :
    (q : Option PosixQueue) (p : Proc ℕ) → Returns (λ r. r.1 ≡ none) (queue_close calm_kernel q p)
unfolding queue_close
closes none p = refl
closes (some q) p = elim (Option-cases q.mq) [
  | inl shut ↦ close_shut q p shut
  | inr (d, open_there) ↦ rw (open_there, queue_close) (close_shut (record q { mq = none }) p refl)
]

abbrev gone : Statics (posix_queue calm_kernel) dummy log_host
gone = record { buffer = none; ctxt = none; queue = none; pidfile = loop.pidfile; proc = process 0 }
