-- ===== src/Daemon/Serve.antt =====
-- banipd.c: the loop of `main` that bans one address for each message.
pub mod Round
pub mod Laws
pub mod Posix
use banip.Base.{
  ℕ, zero, suc, Bool, true, false, not, Option, none, some, Bytes, if◌then◌else◌, Outcome, returns,
  ◌>>=◌,
}
use banip.Error.{Slot, Env, error_free}
use banip.Process.{Proc, set_slot, set_world}
use banip.Parse.Word.{Endian}
use banip.Parse.Addr.{Libc, Addr, AddrParse, parse_addr}
use banip.Queue.{QueueApi, Received, message, no_message}
use banip.Engine.{Engine, Pointer}

-- `_verr` with the message of an error: a line in the log. With no message the text is that of a null
-- pointer.
pub record Log (W : Type 0) : Type 0 where
  pub write_log : Slot → W → W

module _ {W : Type 0} (endian : Endian) (lib : Libc) (log : Log W) (api : QueueApi W)
    (engine : Engine W) where
  -- The variables of `main` that the loop uses. `size` is `max_message_size`, with which `buffer` was
  -- allocated.
  pub record Server : Type 0 where
    pub queue : api.Queue
    pub ctxt : Option (Pointer engine.Ctxt)
    pub table : Bytes
    pub size : ℕ
    pub proc : Proc W

  -- `_verr(false, 0, "%s", error); error_free(&error);`
  unfoldable pub log_error : Proc W → Outcome (Proc W)
  log_error p = do
    slot ← error_free p.env.slot
    returns (set_slot (set_world p (log.write_log p.env.slot p.world)) slot)

  abbrev pub set_env : Proc W → Env → Proc W
  set_env p env = record p { env = env }

  -- What is done with the text of a message, and whether it went well.
  unfoldable pub handle_text : Server → Bytes → Outcome (Bool × Proc W)
  handle_text s text = do
    parsed ← parse_addr endian lib text s.proc.env
    let p = set_env s.proc parsed.env
    let banned = engine.on_handle s.ctxt s.table parsed.addr p
    if parsed.ok then banned else returns (false, p)

  unfoldable pub finish_round : Server → Bool × Proc W → Outcome Server
  finish_round s (true, p) = returns (record s { proc = p })
  finish_round s (false, p) = do p' ← log_error p; returns (record s { proc = p' })

  unfoldable pub handle_received : Server → Received → Outcome Server
  unfolding finish_round log_error
  handle_received s no_message = finish_round s (false, s.proc)
  handle_received s (message n text) = do result ← handle_text s text; finish_round s result

  -- One round of `while (1)`.
  unfoldable pub serve_one : Server → Outcome Server
  unfolding handle_received handle_text
  serve_one s = do
    (got, q, p) ← api.queue_receive s.queue s.size s.size s.proc
    handle_received (record s { queue = q; proc = p }) got

  -- The first rounds of the loop, which has no end.
  unfoldable pub serve : ℕ → Server → Outcome Server
  unfolding serve_one
  serve zero s = returns s
  serve (suc n) s = do s' ← serve_one s; serve n s'
