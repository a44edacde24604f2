-- ===== src/Engine/Command/Laws.antt =====
-- What the engines that run commands do.
use banip.Base.{
  ◌≡◌, ◌⊎◌, ◌<◌, ◌≤◌, ◌↔◌, true, ◌++◌, Option, some, Bytes, codes, length, returns, Returns, arith,
}
use banip.Process.{Proc}
use banip.Parse.Addr.{Addr}
use banip.Engine.{Pointer, address}
use banip.Engine.Command.{Shell, run_command, ipset_open, ipset_add, ipset_handle}

module _ {W : Type 0} (sh : Shell W) where
  -- Of the four commands of `ipset_open` only the first is run, if it fits the buffer, and whatever
  -- its status, the result is the pointer 1.
  pub ipset_open_lem :
      (table : Bytes) (p : Proc W)
      → ipset_open sh table p
        ≡ returns (
          some (address 1),
          (run_command sh
              (codes "ipset -! create " ++ (table ++ codes "4 hash:net family inet"))
              p).1,
        )
  unfolding ipset_open
  ipset_open_lem table p = ground arith

  -- The command is run with success, or is not run for its length.
  abbrev Accepted : Bytes → Proc W → Type 0
  Accepted command p =
      ((length command ≤ 4095) × ((sh.system command p.world).0 ≡ 0)) ⊎ (4095 < length command)

  -- A ban by ipset succeeds exactly if the command for it does, or if it is too long to be run.
  ipset_handle_lem :
      (ctxt : Option (Pointer (Unit {0}))) (table : Bytes) (addr : Addr) (p : Proc W)
      → Returns
          (λ r. ((r.0 ≡ true) ↔ Accepted (ipset_add table addr) p) × (r.1.env ≡ p.env))
          (ipset_handle sh ctxt table addr p)
  unfolding ipset_handle
  ipset_handle_lem ctxt table addr p = ground arith
