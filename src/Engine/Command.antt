-- ===== src/Engine/Command.antt =====
-- command.c, and the engines that run commands or only print: ipset.c and dummy.c.
-- A command is given as the text that `vsnprintf` makes of its format.
pub mod Laws
use banip.Base.{
  ℕ, Bool, true, false, not, ◌&&◌, List, [], ◌∷◌, ◌++◌, Option, none, some, Bytes, codes, length,
  leb, ◌==◌, if◌then◌else◌, Outcome, returns,
}
use banip.Process.{Proc, set_world}
use banip.Parse.Addr.{Addr, Family, inet, is_inet}
use banip.Engine.{Pointer, address, Engine}

-- What the engines ask of the host: `system`, with the status that it returns, and a line to `stderr`.
pub record Shell (W : Type 0) : Type 0 where
  pub system : Bytes → W → ℕ × W
  pub stderr : Bytes → W → W

-- `EXIT_SUCCESS`
abbrev pub exit_success : ℕ
exit_success = 0

abbrev pub ipset_commands : Bytes → List Bytes
ipset_commands table =
    (codes "ipset -! create " ++ (table ++ codes "4 hash:net family inet"))
    ∷ (codes "ipset -! create " ++ (table ++ codes "6 hash:net family inet6"))
    ∷ (codes "iptables -I INPUT -m set --match-set " ++ (table ++ codes "4 src -j DROP"))
    ∷ (codes "iptables -I INPUT -m set --match-set " ++ (table ++ codes "4 src -j DROP"))
    ∷ []

abbrev pub ipset_add : Bytes → Addr → Bytes
ipset_add table addr =
    codes "ipset -! -A "
    ++ (table
        ++ ((if is_inet addr.fa then b'4' ∷ [] else b'6' ∷ []) ++ (codes " " ++ addr.humanrepr)))

module _ {W : Type 0} (sh : Shell W) where
  -- A command that does not fit the buffer of 4096 bytes is not run, and the result is 0.
  unfoldable pub run_command : Bytes → Proc W → ℕ × Proc W
  run_command command p =
      let (status, w) = sh.system command p.world in
      if leb 4096 (length command) then (0, p) else (status, set_world p w)

  -- The chain of `if (!(ok &= (EXIT_SUCCESS != run_command(...)))) break;`, and `ok = true` behind it.
  unfoldable pub run_chain : Bool → List Bytes → Proc W → Bool × Proc W
  run_chain ok [] p = (true, p)
  run_chain ok (command ∷ rest) p =
      let (status, p') = run_command command p in
      let ok' = ok && not (status == exit_success) in
      let more = run_chain ok' rest p' in if not ok' then (ok', p') else more

  -- The result is `(void *) !ok`.
  unfoldable pub ipset_open : Bytes → Proc W → Outcome (Option (Pointer (Unit {0})) × Proc W)
  unfolding run_chain run_command
  ipset_open table p =
      let (ok, p') = run_chain false (ipset_commands table) p in
      returns (if not ok then some (address 1) else none, p')

  unfoldable pub ipset_handle :
      Option (Pointer (Unit {0})) → Bytes → Addr → Proc W → Outcome (Bool × Proc W)
  unfolding run_command
  ipset_handle ctxt table addr p =
      let (status, p') = run_command (ipset_add table addr) p in
      returns (status == exit_success, p')

  abbrev pub ipset_engine : Engine W
  ipset_engine = record {
    drop_privileges = false;
    name = codes "ipset";
    Ctxt = Unit {0};
    on_open = some ipset_open;
    on_handle = ipset_handle;
    on_close = none;
  }

  unfoldable pub dummy_handle :
      Option (Pointer (Unit {0})) → Bytes → Addr → Proc W → Outcome (Bool × Proc W)
  dummy_handle ctxt table addr p = returns (
    true,
    set_world p (sh.stderr (codes "Received: '" ++ (addr.humanrepr ++ codes "'\n")) p.world),
  )

  abbrev pub dummy_engine : Engine W
  dummy_engine = record {
    drop_privileges = true;
    name = codes "dummy";
    Ctxt = Unit {0};
    on_open = none;
    on_handle = dummy_handle;
    on_close = none;
  }
