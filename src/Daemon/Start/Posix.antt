-- ===== src/Daemon/Start/Posix.antt =====
-- The parts of the start as Linux has them: a POSIX queue and the engine that prints.
use banip.Base.{◌≡◌, refl, Bytes, Returns, Returns-mono}
use banip.Error.{empty, Reports}
use banip.Process.{Proc}
use banip.Queue.{fl_owner}
use banip.Queue.Posix.{Kernel, PosixQueue, queue_open, get_attribute, posix_queue}
use banip.Queue.Posix.Laws.{Opens, queue_open_lem}
use banip.Engine.Command.{Shell, dummy_engine}
use banip.Daemon.Start.{Host}
use banip.Daemon.Start.Laws.{StartParts}

module _ {W : Type 0} (k : Kernel W) (sh : Shell W) (host : Host W) where
  pub queue_open-Reports :
      (q : PosixQueue) (name : Bytes) (p : Proc W)
      → p.env.slot ≡ empty
      → Returns (λ r. Reports r.0 r.2.env.slot) (queue_open k q name fl_owner p)
  queue_open-Reports q name p clean =
      Returns-mono (Opens k p fl_owner) _ _ (queue_open_lem k q name fl_owner p clean)
        λ r h. h.reported

  -- A POSIX queue and the dummy engine are what the start relies on.
  abbrev pub posix_start_parts : StartParts (posix_queue k) (dummy_engine sh) host
  unfolding get_attribute
  posix_start_parts = record {
    limit = λ q. q.attr.msgsize;
    opens = queue_open-Reports;
    sizes = λ q p. refl;
    engine_opens = λ on_open given. absurd (cc given);
  }
