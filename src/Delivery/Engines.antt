-- ===== src/Delivery/Engines.antt =====
-- What dummy.c and ipset.c ban: the lines that the one prints, and the commands that the other runs.
use banip.Base.{
  ℕ, ◌≡◌, ◌≤◌, ◌<◌, ◌+◌, Bool-cases, inl, inr, refl, false, List, [], ◌∷◌, ◌++◌, Option, Bytes,
  codes, length, length-append, leb, arith,
}
use banip.Parse.Word.{Endian}
use banip.Parse.Addr.{Libc, IsLibc, Addr, is_inet}
use banip.Queue.{QueueApi}
use banip.Queue.Channel.{IsChannel}
use banip.Engine.{Pointer}
use banip.Engine.Command.{
  Shell, exit_success, ipset_add, run_command, ipset_handle, ipset_engine, dummy_handle,
  dummy_engine,
}
use banip.Daemon.Serve.{Log}
use banip.Delivery.Bans.{IsApart, IsEnforcer}

-- The line that the dummy engine prints for an address.
abbrev pub received_line : Addr → Bytes
received_line addr = codes "Received: '" ++ (addr.humanrepr ++ codes "'\n")

module _ {W : Type 0} (sh : Shell W) where
  -- What has been printed is known, the oldest line first.
  pub record HasLines : Type 0 where
    pub lines : W → List Bytes
    pub prints : (line : Bytes) (w : W) → lines (sh.stderr line w) ≡ lines w ++ line ∷ []

  -- The commands that have been run are known, the oldest first, and they succeed.
  pub record HasCommands : Type 0 where
    pub commands : W → List Bytes
    pub runs : (c : Bytes) (w : W) → commands (sh.system c w).1 ≡ commands w ++ c ∷ []
    pub succeeds : (c : Bytes) (w : W) → (sh.system c w).0 ≡ exit_success

module _ {W : Type 0} (endian : Endian) (lib : Libc) (L : IsLibc lib) (log : Log W)
    (sender receiver : QueueApi W) (sh : Shell W) (C : IsChannel sender receiver) where
  -- The dummy engine prints the line of every address, whatever the context and the table.
  pub dummy_enforcer :
      (H : HasLines sh) (ctxt : Option (Pointer (Unit {0}))) (table : Bytes)
      → IsApart endian lib L log sender receiver (dummy_engine sh) C H.lines
      → IsEnforcer endian lib L log sender receiver
          (dummy_engine sh)
          C
          received_line
          H.lines
          ctxt
          table
  unfolding dummy_handle
  dummy_enforcer H ctxt table apart = record {
    bans = λ addr p wf clean. (refl, H.prints _ _);
    apart = apart;
  }

  leb-above : {n m : ℕ} → n ≡ m → m < 4096 → leb 4096 n ≡ false
  leb-above {n} {m} same small = rw same (ground arith)

  length-ipset_add :
      (table : Bytes) (addr : Addr)
      → length (ipset_add table addr) ≡ 12 + (length table + (2 + length addr.humanrepr))
  length-ipset_add table addr = elim (Bool-cases (is_inet addr.fa)) [
    | inl four ↦ rw four (omega (arith, length-append table (b'4' ∷ b' ' ∷ addr.humanrepr)))
    | inr six ↦ rw six (omega (arith, length-append table (b'6' ∷ b' ' ∷ addr.humanrepr)))
  ]

  ipset_add-fits :
      (table : Bytes) (addr : Addr)
      → length table ≤ 4000
      → length addr.humanrepr ≤ 46
      → leb 4096 (length (ipset_add table addr)) ≡ false
  ipset_add-fits table addr short text = leb-above (length-ipset_add table addr) (omega arith)

  -- The ipset engine adds every address to the set of its family, if the name of the table leaves room
  -- for the command in the buffer.
  pub ipset_enforcer :
      (H : HasCommands sh) (ctxt : Option (Pointer (Unit {0}))) (table : Bytes)
      → length table ≤ 4000
      → IsApart endian lib L log sender receiver (ipset_engine sh) C H.commands
      → IsEnforcer endian lib L log sender receiver
          (ipset_engine sh)
          C
          (ipset_add table)
          H.commands
          ctxt
          table
  unfolding ipset_handle run_command
  ipset_enforcer H ctxt table short apart = record {
    bans = λ addr p wf clean.
        rw (ipset_add-fits table addr short wf.text_fits, H.succeeds (ipset_add table addr) p.world)
          (refl, H.runs (ipset_add table addr) p.world);
    apart = apart;
  }
