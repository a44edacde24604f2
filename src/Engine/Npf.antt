-- ===== src/Engine/Npf.antt =====
-- npf.c: bans by the packet filter of NetBSD. `npf_open` is read with the parenthesis and the argument
-- for the error that its text lacks; what stands behind `#if 0` is left out.
pub mod Laws
use banip.Base.{
  ℕ, ◌/◌, Bool, true, false, List, Option, none, some, Bytes, codes, take, if◌then◌else◌, Outcome,
  returns, undefined, null_pointer,
}
use banip.Error.{generic, system}
use banip.Process.{Proc, Reply, done, failed, set_world, set_errno, report}
use banip.Parse.Addr.{Addr}
use banip.Engine.{Engine, Pointer, heap, address}

-- `npf_data_t`, with a descriptor that is -1 as `none`.
pub record NpfData : Type 0 where
  pub fd : Option ℕ

-- `nct_name` or `nct_tid`
pub data TableId : Type 0 where
  named : Bytes → TableId
  numbered : ℕ → TableId

-- What is set of `npf_ioctl_table_t`, with the 4-byte words of the address; the mask is always
-- `NPF_NO_NETMASK`.
pub record TableEntry : Type 0 where
  pub table_id : TableId
  pub alen : ℕ
  pub words : List ℕ

pub record NpfHost (W : Type 0) : Type 0 where
  pub malloc : W → Bool × W
  pub open_npf : W → Reply ℕ × W
  -- `NPF_ALLOW_NAMED_TABLE`
  pub allow_named_table : Bool
  pub atoi : Bytes → ℕ
  pub table_add : Option ℕ → TableEntry → W → Reply (Unit {0}) × W
  pub close : Option ℕ → W → Reply (Unit {0}) × W
  pub warn : Bytes → W → W

module _ {W : Type 0} (host : NpfHost W) where
  unfoldable pub npf_open : Bytes → Proc W → Outcome (Option (Pointer NpfData) × Proc W)
  unfolding report
  npf_open table p =
      let (got, w) = host.malloc p.world in
      let (opened, w') = host.open_npf w in
      let on_open : Outcome (Option (Pointer NpfData) × Proc W) = elim opened [
        | failed n ↦ report (set_errno (set_world p w') n) (system "failed opening /dev/npf" n) none
        | done fd ↦ returns (some (heap (record { fd = some fd })), set_world p w')
      ] in
      if got
      then on_open
      else report (set_world p w) (generic "malloc(3) failed to allocate %zu bytes") none

  abbrev pub entry_of : Bytes → Addr → TableEntry
  entry_of table addr = record {
    table_id = if host.allow_named_table then named table else numbered (host.atoi table);
    alen = addr.sa_size;
    words = take (addr.sa_size / 4) addr.sa;
  }

  unfoldable pub npf_handle :
      Option (Pointer NpfData) → Bytes → Addr → Proc W → Outcome (Bool × Proc W)
  unfolding report
  npf_handle (some (heap state)) table addr p =
      let (added, w) = host.table_add state.fd (entry_of table addr) p.world in
      let p' = set_world p w in
      elim added [
        | failed n ↦ report (set_errno p' n) (system "ioctl(IOC_NPF_TABLE) failed" n) false
        | done _ ↦ returns (true, p')
      ]
  npf_handle _ table addr p = undefined null_pointer

  -- The data is freed by the caller.
  unfoldable pub npf_close : Pointer NpfData → Proc W → Outcome (Unit {0} × Proc W)
  npf_close (address n) p = undefined null_pointer
  npf_close (heap state) p = elim state.fd [
    | none ↦ returns (tt, p)
    | some fd ↦
        let (closed, w) = host.close (some fd) p.world in
        let w' : W = elim closed [
          | done _ ↦ w
          | failed n ↦ host.warn (codes "closing /dev/npf failed") w
        ] in
        returns (tt, set_world p w')
  ]

  abbrev pub npf_engine : Engine W
  npf_engine = record {
    drop_privileges = true;
    name = codes "npf";
    Ctxt = NpfData;
    on_open = some npf_open;
    on_handle = npf_handle;
    on_close = some npf_close;
  }
