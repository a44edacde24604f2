-- ===== src/Delivery.antt =====
-- The clients and the daemon on one queue: what banip-cli.c, clients/varnish4/vmod_msgsend.c and
-- clients/apache24/mod_banip.c do with an open queue, between the rounds of the loop of banipd.c.
pub mod Laws
pub mod Drain
pub mod Bans
pub mod Enforced
pub mod Engines
use banip.Base.{
  ℕ, Bool, true, false, none, List, [], ◌∷◌, ◌++◌, Bytes, Outcome, returns, undefined, ◌>>=◌, ◌==◌,
  if◌then◌else◌,
}
use banip.Error.{empty}
use banip.Process.{Proc, set_world}
use banip.Parse.Word.{Endian}
use banip.Parse.Addr.{Libc}
use banip.Queue.{QueueApi}
use banip.Queue.Channel.{heard, sent_if}
use banip.Engine.{Engine}
use banip.Daemon.Serve.{Log, Server, serve_one}

-- The client of that number sends a text, its `errno` being the second number, or the daemon does a
-- round of its loop.
pub data Event : Type 0 where
  sends : ℕ → ℕ → Bytes → Event
  round : Event

module _ {W : Type 0} (endian : Endian) (lib : Libc) (log : Log W) (sender receiver : QueueApi W)
    (engine : Engine W) where
  -- The daemon and the clients' queues, with the texts that `queue_send` has accepted and those that the
  -- daemon has received so far, the oldest first.
  pub record System : Type 0 where
    pub server : Server endian lib log receiver engine
    pub clients : ℕ → sender.Queue
    pub accepted : List Bytes
    pub received : List Bytes

  -- The client's process, in the world of the daemon's.
  abbrev pub client_proc : ℕ → System → Proc W
  client_proc errno s = record s.server.proc { env = record { errno = errno; slot = empty } }

  abbrev pub set_client : ℕ → sender.Queue → (ℕ → sender.Queue) → ℕ → sender.Queue
  set_client who q clients i = if i == who then q else clients i

  unfoldable pub client_sends : ℕ → ℕ → Bytes → System → Outcome System
  client_sends who errno text s = do
    (sent, q, p) ← sender.queue_send (s.clients who) text none (client_proc errno s)
    returns (record s {
      server = record s.server { proc = set_world s.server.proc p.world };
      clients = set_client who q s.clients;
      accepted = s.accepted ++ sent_if sent text;
    })

  -- What the next call of `queue_receive` gives.
  abbrev pub next_text : Server endian lib log receiver engine → List Bytes
  next_text server =
      elim (receiver.queue_receive server.queue server.size server.size server.proc) [
        | returns r ↦ heard r.0
        | undefined e ↦ []
      ]

  unfoldable pub one_round : System → Outcome System
  one_round s = do
    server ← serve_one endian lib log receiver engine s.server
    returns (record s { server = server; received = s.received ++ next_text s.server })

  unfoldable pub step : Event → System → Outcome System
  unfolding client_sends one_round
  step (sends who errno text) s = client_sends who errno text s
  step round s = one_round s

  -- An interleaving.
  unfoldable pub run : List Event → System → Outcome System
  unfolding step
  run [] s = returns s
  run (event ∷ rest) s = do s' ← step event s; run rest s'
