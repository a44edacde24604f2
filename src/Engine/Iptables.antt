-- ===== src/Engine/Iptables.antt =====
-- iptables.c: the engine that means to run iptables. `iptables_engine` is left out, since its second
-- function has not the type of the field; `system` and `vsnprintf` are parameters.
pub mod Laws
use banip.Base.{ℕ, Option, none, some, Bytes, Outcome, returns, undefined, out_of_bounds}
use banip.Process.{Proc}
use banip.Parse.Addr.{Addr}
use banip.Engine.{Pointer}
use banip.Engine.Command.{Shell, run_command}

module _ {W : Type 0} (sh : Shell W) (vsnprintf : Bytes → Bytes → Option Bytes) where
  -- The literal stands in the place of the address of the error, which `run_command` does not use, and so the
  -- name of the table is the format. `vsnprintf` gives the text of a format with one string as the
  -- argument, if the format reads no other argument.
  unfoldable pub iptables_handle :
      Option (Pointer (Unit {0})) → Bytes → Addr → Proc W → Outcome (ℕ × Proc W)
  unfolding run_command
  iptables_handle ctxt tablename addr p = elim (vsnprintf tablename addr.humanrepr) [
    | none ↦ undefined out_of_bounds
    | some command ↦ returns (run_command sh command p)
  ]
