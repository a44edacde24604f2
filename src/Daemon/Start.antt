-- ===== src/Daemon/Start.antt =====
-- banipd.c: `main` from the end of its options to its loop. `CAP_RIGHTS_LIMIT` and `CAP_ENTER` are
-- the constant `true`, since queues/capsicum.h disables Capsicum.
pub mod Steps
pub mod Laws
pub mod Posix
pub mod Context
use banip.Base.{
  is_some, String, ℕ, ◌+◌, ◌^◌, ◌%◌, Bool, true, false, ◌&&◌, List, [], ◌∷◌, Option, none, some,
  Bytes, codes, ◌==◌, if◌then◌else◌, Outcome, returns, undefined, null_pointer, uninitialised,
  ◌>>=◌,
}
use banip.Error.{Error, generic, system, Slot, null, empty, full}
use banip.Process.{Proc, Reply, done, failed, set_world, set_errno, report}
use banip.Parse.Word.{Endian}
use banip.Parse.Addr.{Libc}
use banip.Queue.{
  QueueApi, QueueErr, ok, general_failure, not_supported, not_owner, max_message_size, fl_owner,
}
use banip.Engine.{Engine, Pointer}
use banip.Daemon.Serve.{Log, Server, serve, log_error}

-- The system calls of the start. A call that fails leaves its `errno`.
pub record Host (W : Type 0) : Type 0 where
  pub daemon : Bool → W → Reply (Unit {0}) × W
  -- `fopen`, and where it succeeds `fprintf` and `fclose`
  pub write_pid : Bytes → W → Bool × W
  -- the line of a warning
  pub warn : Bytes → W → W
  pub setgid : ℕ → W → Reply (Unit {0}) × W
  pub setgroups : List ℕ → W → Reply (Unit {0}) × W
  pub calloc : ℕ → W → Bool × W
  pub getuid : W → ℕ
  -- the user's number
  pub getpwnam : Bytes → W → Option ℕ
  pub setuid : ℕ → W → Reply (Unit {0}) × W
  -- the end of a file's name, of the log, and whether it is a file that can be opened again
  pub unlink : Bytes → W → Reply (Unit {0}) × W
  pub close_log : W → W
  pub has_log : W → Bool
  pub reopen_log : W → Bool × W

-- What the options came to.
pub record Settings : Type 0 where
  pub daemonize : Bool
  pub verbose : ℕ
  pub gid : Option ℕ
  pub queue_name : Bytes
  pub table_name : Bytes

module _ {W : Type 0} (api : QueueApi W) (engine : Engine W) (host : Host W) where
  -- The static variables, `buffer` with its size, and the process.
  pub record Statics : Type 0 where
    pub buffer : Option ℕ
    pub ctxt : Option (Pointer engine.Ctxt)
    pub queue : Option api.Queue
    pub pidfile : Option Bytes
    pub proc : Proc W

  -- A step of the block, which says whether the block goes on or is left by `break`.
  abbrev pub Step : Type 0
  Step = Statics → Outcome (Bool × Statics)

  abbrev pub continue_in : Statics → W → Outcome (Bool × Statics)
  continue_in s w = returns (true, record s { proc = set_world s.proc w })

  abbrev pub stop_with : Statics → Proc W → Error → Outcome (Bool × Statics)
  stop_with s p err = do (go, p') ← report p err false; returns (go, record s { proc = p' })

  -- A system call, with a message and `break` where it fails.
  unfoldable pub system_step : Statics → String → Reply (Unit {0}) × W → Outcome (Bool × Statics)
  unfolding report
  system_step s text (done _, w) = continue_in s w
  system_step s text (failed n, w) = stop_with s (set_errno (set_world s.proc w) n) (system text n)

  unfoldable pub become_daemon : Settings → Step
  unfolding system_step
  become_daemon settings s =
      if settings.daemonize
      then system_step s "daemon failed" (host.daemon (settings.verbose == 0) s.proc.world)
      else returns (true, s)

  unfoldable pub put_pid : Step
  put_pid s = elim s.pidfile [
    | none ↦ returns (true, s)
    | some name ↦
        let (written, w) = host.write_pid name s.proc.world in
        continue_in s (if written then w else host.warn (codes "can't create pid file") w)
  ]

  unfoldable pub set_group : Settings → Step
  unfolding system_step
  set_group settings s = elim settings.gid [
    | none ↦ returns (true, s)
    | some g ↦ system_step s "setgid(%d) failed" (host.setgid g s.proc.world)
  ]

  unfoldable pub set_groups : Settings → Step
  unfolding system_step
  set_groups settings s = elim settings.gid [
    | none ↦ returns (true, s)
    | some g ↦ system_step s "setgroups to {%d} failed" (host.setgroups (g ∷ []) s.proc.world)
  ]

  unfoldable pub open_step : Settings → Step
  open_step settings s = elim s.queue [
    | none ↦ undefined null_pointer
    | some q ↦ do
      (opened, q', p) ← api.queue_open q settings.queue_name fl_owner s.proc
      returns (opened, record s { queue = some q'; proc = p })
  ]

  -- `calloc(++max_message_size, sizeof(*buffer))`
  unfoldable pub alloc_buffer : Statics → ℕ → Outcome (Bool × Statics)
  unfolding report
  alloc_buffer s size =
      let size' = (size + 1) % 2 ^ 64 in
      let (got, w) = host.calloc size' s.proc.world in
      if got
      then continue_in (record s { buffer = some size' }) w
      else stop_with s (set_world s.proc w) (generic "malloc(3) failed to allocate %zu bytes")

  -- `max_message_size` is not set before `queue_get_attribute` sets it.
  unfoldable pub sized_buffer : Statics → QueueErr → Option ℕ → Outcome (Bool × Statics)
  unfolding alloc_buffer report
  sized_buffer s ok (some size) = alloc_buffer s size
  sized_buffer s ok none = undefined uninitialised
  sized_buffer s _ value = stop_with s s.proc (generic "queue_get_attribute failed")

  unfoldable pub buffer_step : Step
  unfolding sized_buffer
  buffer_step s = elim s.queue [
    | none ↦ undefined null_pointer
    | some q ↦
        let (err, value, p) = api.queue_get_attribute q max_message_size s.proc in
        sized_buffer (record s { proc = p }) err value
  ]

  unfoldable pub engine_step : Settings → Step
  engine_step settings s = elim engine.on_open [
    | none ↦ returns (true, s)
    | some on_open ↦ do
      (c, p) ← on_open settings.table_name s.proc
      returns (is_some c, record s { ctxt = c; proc = p })
  ]

  -- The account `nobody`, or else `daemon`.
  abbrev pub plain_user : W → Option ℕ
  plain_user w = elim (host.getpwnam (codes "nobody") w) [
    | some uid ↦ some uid
    | none ↦ host.getpwnam (codes "daemon") w
  ]

  unfoldable pub privileges_step : Step
  unfolding system_step report
  privileges_step s =
      let user : Outcome (Bool × Statics) = elim (plain_user s.proc.world) [
        | none ↦
            stop_with s s.proc (generic "no nobody or daemon user accounts found on this system")
        | some uid ↦ system_step s "setuid(%d) failed" (host.setuid uid s.proc.world)
      ] in
      if host.getuid s.proc.world == 0 && engine.drop_privileges then user else returns (true, s)

  -- The block `do { ... } while (false)`.
  unfoldable pub run_steps : List Step → Step
  run_steps [] s = returns (true, s)
  run_steps (step ∷ rest) s = do
    (go, s') ← step s
    let more = run_steps rest s'
    if go then more else returns (false, s')

  abbrev pub start_steps : Settings → List Step
  start_steps settings =
      become_daemon settings
      ∷ put_pid
      ∷ set_group settings
      ∷ set_groups settings
      ∷ open_step settings
      ∷ buffer_step
      ∷ engine_step settings
      ∷ privileges_step
      ∷ []

  unfoldable pub start : Settings → Step
  unfolding run_steps become_daemon put_pid set_group set_groups open_step buffer_step engine_step
      privileges_step
  start settings = run_steps (start_steps settings)
