-- ===== src/Daemon/Options.antt =====
-- banipd.c: the options of `main`, as `getopt_long` hands them over, and the checks behind them.
pub mod Laws
use banip.Base.{
  ℕ, ◌+◌, Bool, true, false, not, ◌||◌, List, [], ◌∷◌, Option, none, some, Bytes, codes, ◌==◌,
  if◌then◌else◌, Outcome, returns, ◌>>=◌,
}
use banip.Error.{Env}
use banip.Process.{Proc, Reply, done, failed, set_world, set_errno}
use banip.Parse.Ulong.{UlongParse, parse_ulong}
use banip.Queue.{QueueApi, QueueAttr, max_message_size, max_message_in_queue}
use banip.Engine.{Engine, get_default_engine, get_engine_by_name}
use banip.Daemon.Start.{Settings}

-- The options with their arguments; `-h` and what is not an option show the usage.
pub data Opt : Type 0 where
  msgsize engine group log pid queue qsize table : Bytes → Opt
  daemonize verbose help : Opt

-- `BANIPD_EXIT_FAILURE`, with which `errx` and `errc` end the process, and `BANIPD_EXIT_USAGE`
abbrev pub exit_failure : ℕ
exit_failure = 1

abbrev pub exit_usage : ℕ
exit_usage = 2

-- The process goes on, or it exits.
pub data Taken {ℓ} (A : Type ℓ) : Type ℓ where
  goes : A → Taken A
  exits : ℕ → Taken A

-- The system calls of the options.
pub record OptionHost (W : Type 0) : Type 0 where
  pub getgrnam : Bytes → W → Reply ℕ × W
  pub open_log : Bytes → W → Bool × W
  pub warn : Bytes → W → W

module _ {W : Type 0} (api : QueueApi W) (host : OptionHost W) where
  pub record Chosen : Type 1 where
    pub the_queue : api.Queue
    pub the_engine : Engine W
    pub become_daemon : Bool
    pub verbosity : ℕ
    pub gid : Option ℕ
    pub pidfile : Option Bytes
    pub logfile : Option Bytes
    pub queue_name : Option Bytes
    pub table_name : Option Bytes
    pub proc : Proc W

  -- An option that sets an attribute; the answer of `queue_set_attribute` is not looked at.
  unfoldable pub set_number : Chosen → QueueAttr → UlongParse → Taken Chosen
  set_number c attr r =
      let q' = (api.queue_set_attribute c.the_queue attr r.val).1 in
      if r.ok
      then goes (record c { the_queue = q'; proc = record c.proc { env = r.env } })
      else exits exit_failure

  unfoldable pub choose_engine : List (Engine W) → Chosen → Bytes → Taken Chosen
  choose_engine available c name = elim (get_engine_by_name name available) [
    | none ↦ exits exit_failure
    | some e ↦ goes (record c { the_engine = e })
  ]

  unfoldable pub choose_group : Chosen → Reply ℕ × W → Taken Chosen
  choose_group c (done g, w) = goes (record c { gid = some g; proc = set_world c.proc w })
  choose_group c (failed n, w) = exits exit_failure

  unfoldable pub choose_log : Chosen → Bytes → Chosen
  choose_log c name =
      let (opened, w) = host.open_log name c.proc.world in
      let w' = if opened then w else host.warn (codes "fopen failed, falling back to stderr") w in
      record c { logfile = some name; proc = set_world c.proc w' }

  unfoldable pub take_option : List (Engine W) → Chosen → Opt → Outcome (Taken Chosen)
  unfolding set_number choose_engine choose_group choose_log
  take_option available c (msgsize arg) = do
    r ← parse_ulong arg c.proc.env
    returns (set_number c max_message_size r)
  take_option available c (qsize arg) = do
    r ← parse_ulong arg c.proc.env
    returns (set_number c max_message_in_queue r)
  take_option available c (engine arg) = returns (choose_engine available c arg)
  take_option available c (group arg) = returns (choose_group c (host.getgrnam arg c.proc.world))
  take_option available c (log arg) = returns (goes (choose_log c arg))
  take_option available c (pid arg) = returns (goes (record c { pidfile = some arg }))
  take_option available c (queue arg) = returns (goes (record c { queue_name = some arg }))
  take_option available c (table arg) = returns (goes (record c { table_name = some arg }))
  take_option available c daemonize = returns (goes (record c { become_daemon = true }))
  take_option available c verbose = returns (goes (record c { verbosity = c.verbosity + 1 }))
  take_option available c help = returns (exits exit_usage)

  -- `while (-1 != (c = getopt_long(...)))`
  unfoldable pub take_options : List (Engine W) → Chosen → List Opt → Outcome (Taken Chosen)
  unfolding take_option
  take_options available c [] = returns (goes c)
  take_options available c (o ∷ rest) = do
    taken ← take_option available c o
    elim taken [ exits status ↦ returns (exits status) | goes c' ↦ take_options available c' rest ]

  -- Both names must be given, and nothing may stand behind the options.
  unfoldable pub check_operands : Chosen → List Bytes → Taken (Settings × Chosen)
  check_operands c (operand ∷ rest) = exits exit_usage
  check_operands c [] = elim c.queue_name [
    | none ↦ exits exit_usage
    | some queue_name ↦ elim c.table_name [
      | none ↦ exits exit_usage
      | some table_name ↦ goes (
        record {
          daemonize = c.become_daemon;
          verbose = c.verbosity;
          gid = c.gid;
          queue_name = queue_name;
          table_name = table_name;
        },
        c,
      )
    ]
  ]
