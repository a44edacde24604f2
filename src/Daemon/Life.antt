-- ===== src/Daemon/Life.antt =====
-- banipd.c: the process in its loop, with the signals that arrive between its rounds. A signal that
-- interrupts a round is not modelled.
pub mod Laws
pub mod Block
use banip.Base.{ℕ, ◌≡◌, true, false, Option, some, Bytes, returns}
use banip.Process.{Proc}
use banip.Parse.Word.{Endian}
use banip.Parse.Addr.{Libc}
use banip.Queue.{QueueApi}
use banip.Engine.{Engine}
use banip.Daemon.Serve.{Log, Server, serve_one}
use banip.Daemon.Start.{Host, Statics}
use banip.Daemon.Cleanup.{Signal, sigint, sigterm, sigusr1, on_signal}

module _ {W : Type 0} (endian : Endian) (lib : Libc) (log : Log W) (api : QueueApi W)
    (engine : Engine W) (host : Host W) where
  -- The variables of `main`, with the one static variable that its loop does not use.
  pub record Loop : Type 0 where
    pub server : Server endian lib log api engine
    pub pidfile : Option Bytes

  -- The static variables as a handler finds them.
  abbrev pub statics_in : Loop → Statics api engine host
  statics_in l = record {
    buffer = some l.server.size;
    ctxt = l.server.ctxt;
    queue = some l.server.queue;
    pidfile = l.pidfile;
    proc = l.server.proc;
  }

  abbrev pub with_proc : Loop → Proc W → Loop
  with_proc l p = record l { server = record l.server { proc = p } }

  -- In the loop, or ended by a signal, after the handler.
  pub data Life : Type 0 where
    alive : Loop → Life
    killed : Statics api engine host → Life

  pub data Step : Life → Life → Type 0 where
    serves :
        (l : Loop) (s : Server endian lib log api engine)
        → serve_one endian lib log api engine l.server ≡ returns s
        → Step (alive l) (alive (record l { server = s }))
    reopens :
        (l : Loop) (t : Statics api engine host)
        → on_signal api engine host sigusr1 (statics_in l) ≡ returns (false, t)
        → Step (alive l) (alive (with_proc l t.proc))
    interrupted :
        (l : Loop) (t : Statics api engine host)
        → on_signal api engine host sigint (statics_in l) ≡ returns (true, t)
        → Step (alive l) (killed t)
    terminated :
        (l : Loop) (t : Statics api engine host)
        → on_signal api engine host sigterm (statics_in l) ≡ returns (true, t)
        → Step (alive l) (killed t)

  pub data Reaches (start : Life) : Life → Type 0 where
    here : Reaches start start
    next : {m n : Life} → Reaches start m → Step m n → Reaches start n
