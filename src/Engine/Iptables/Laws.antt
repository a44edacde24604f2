-- ===== src/Engine/Iptables/Laws.antt =====
-- What the engine runs.
use banip.Base.{
  ℕ, ◌≡◌, refl, ◌<◌, ◌≤◌, Option, none, some, Bytes, length, strchr, leb, true, false, Outcome,
  returns, arith,
}
use banip.Process.{Proc, set_world}
use banip.Parse.Addr.{Addr}
use banip.Engine.{Pointer}
use banip.Engine.Command.{Shell, run_command, exit_success}
use banip.Engine.Iptables.{iptables_handle}

-- `vsnprintf` copies a format that has no `%`.
abbrev pub IsCopying : (Bytes → Bytes → Option Bytes) → Type 0
IsCopying vsnprintf =
    (format argument : Bytes) → strchr b'%' format ≡ none → vsnprintf format argument ≡ some format

module _ {W : Type 0} (sh : Shell W) (vsnprintf : Bytes → Bytes → Option Bytes) where
  -- The name of the table is run as a command, if it is short enough.
  abbrev pub RunsTable : Bytes → Proc W → Outcome (ℕ × Proc W) → Type 0
  RunsTable tablename p run =
      (length tablename < 4096
        → run
          ≡ returns ((sh.system tablename p.world).0, set_world p (sh.system tablename p.world).1))
      × (4096 ≤ length tablename → run ≡ returns (exit_success, p))

  -- If the name of the table has no `%`, then for every address the engine runs that name as a command,
  -- and gives its status; the address is in no command. A name of 4096 bytes or more is not run, and the
  -- status is that of success.
  pub iptables_handle-RunsTable :
      (ctxt : Option (Pointer (Unit {0}))) (tablename : Bytes) (addr : Addr) (p : Proc W)
      → IsCopying vsnprintf
      → strchr b'%' tablename ≡ none
      → RunsTable tablename p (iptables_handle sh vsnprintf ctxt tablename addr p)
  unfolding iptables_handle run_command
  iptables_handle-RunsTable ctxt tablename addr p copies plain =
      rw (copies tablename addr.humanrepr plain, iptables_handle)
        (
          λ short. let fits : leb 4096 (length tablename) ≡ false = ground arith in rw fits refl,
          λ long. let fits : leb 4096 (length tablename) ≡ true = ground arith in rw fits refl,
        )
