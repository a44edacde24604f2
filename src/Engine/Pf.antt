-- ===== src/Engine/Pf.antt =====
-- pf.c: bans by the packet filter of the BSDs. The parts behind `#if 0` are left out, and the Capsicum
-- macros are the constant `true`. `ULL` has 64 bits.

pub mod Mask
pub mod Kill
use banip.Base.{
  ℕ, ◌+◌, ◌-◌, ◌*◌, ◌/◌, ◌%◌, ◌^◌, Bool, true, false, ◌&&◌, List, [], ◌∷◌, ◌++◌, Option, none, some,
  Bytes, codes, drop, replicate, ltb, str_eq, if◌then◌else◌, Outcome, returns, undefined,
  null_pointer, invalid_free, ◌>>=◌,
}
use banip.Error.{generic, system}
use banip.Process.{Proc, Reply, done, failed, set_world, set_errno, report}
use banip.Parse.Word.{Endian, htonl, load_words}
use banip.Parse.Mask.{write}
use banip.Parse.Addr.{Addr, Family, unspec, inet, inet6, is_inet, is_inet6}
use banip.Engine.{Engine, Pointer, heap, address}

-- `pf_data_t`, with a descriptor that is -1 as `none`.
pub record PfData : Type 0 where
  pub fd : Option ℕ

-- What is set of `struct pfioc_table` and of the `struct pfr_addr` in it.
pub record TableRequest : Type 0 where
  pub table_name : Bytes
  pub af : Family
  pub net : ℕ
  pub words : List ℕ

-- What is set of `struct pfioc_state_kill`: the family, and the address and the mask of the source.
pub record StateKill : Type 0 where
  pub af : Family
  pub addr : Bytes
  pub mask : List ℕ

-- An address that `getaddrinfo` found: the first 16 bytes of the `struct sockaddr`, and the address in it.
pub record Sockaddr : Type 0 where
  pub head : Bytes
  pub ip : Bytes

pub record Found : Type 0 where
  pub family : Family
  pub addr : Option Sockaddr

pub record PfHost (W : Type 0) : Type 0 where
  pub malloc : W → Bool × W
  pub open_pf : W → Reply ℕ × W
  -- what `strlcpy` leaves of a name in `pfrt_name`
  pub table_text : Bytes → Bytes
  pub add_addrs : Option ℕ → TableRequest → W → Reply (Unit {0}) × W
  -- `getaddrinfo` with no hints
  pub resolve : Bytes → W → Reply (List Found) × W
  pub kill_states : Option ℕ → StateKill → W → Reply (Unit {0}) × W
  pub close : Option ℕ → W → Reply (Unit {0}) × W
  pub warn : Bytes → W → W

-- The 16 bytes of an IPv6 mask of fewer than 128 bits.
unfoldable pub mask6 : ℕ → Outcome Bytes
unfolding write
mask6 net =
    let q : ℕ = net / 8 in
    let r : ℕ = net % 8 in
    let filled : Bytes = replicate q 0xff ++ drop q (replicate 16 0) in
    let more = write filled q (0xff00 / 2 ^ r % 2 ^ 8) in if ltb 0 r then more else returns filled

-- The words of `psk_src.addr.v.a.mask`, which were all set to ones.
unfoldable pub pf_mask : Endian → Family → ℕ → Outcome (List ℕ)
unfolding mask6 htonl load_words
pf_mask e family net =
    let full : ℕ = 0xffff_ffff in
    let shifted : ℕ = 0xff_ffff_ffff * 2 ^ (32 - net) % 2 ^ 64 % 2 ^ 32 in
    let wide : Outcome (List ℕ) = (do b ← mask6 net; returns (load_words e b)) in
    if is_inet family && ltb net 32
    then returns (htonl e shifted ∷ full ∷ full ∷ full ∷ [])
    else if is_inet6 family && ltb net 128
    then wide
    else returns (full ∷ full ∷ full ∷ full ∷ [])

module _ {W : Type 0} (e : Endian) (host : PfHost W) where
  unfoldable pub pf_open : Bytes → Proc W → Outcome (Option (Pointer PfData) × Proc W)
  unfolding report
  pf_open table p =
      let (got, w) = host.malloc p.world in
      let (opened, w') = host.open_pf w in
      let on_open : Outcome (Option (Pointer PfData) × Proc W) = elim opened [
        | failed n ↦ report (set_errno (set_world p w') n) (system "failed opening /dev/pf" n) none
        | done fd ↦ returns (some (heap (record { fd = some fd })), set_world p w')
      ] in
      if got
      then on_open
      else report (set_world p w) (generic "malloc(3) failed to allocate %zu bytes") none

  -- `psk_src.addr.v.a.addr`, of 16 bytes, for an address of the family; no other family is known.
  unfoldable pub kill_addr : Family → Bytes → Bytes → Option Bytes
  kill_addr inet ip addr = some (ip ++ drop 4 addr)
  kill_addr inet6 ip addr = some ip
  kill_addr _ ip addr = none

  -- The loop over the results of `getaddrinfo`; `last` is `last_src`, and `psk` keeps what it was set to.
  unfoldable pub kill_all :
      Option ℕ → Bytes → StateKill → List Found → Proc W → Outcome (Bool × Proc W)
  unfolding kill_addr report
  kill_all fd last psk [] p = returns (true, p)
  kill_all fd last psk (f ∷ rest) p = elim f.addr [
    | none ↦ kill_all fd last psk rest p
    | some a ↦ elim (str_eq last a.head) [
      | true ↦ kill_all fd last psk rest p
      | false ↦ elim (kill_addr f.family a.ip psk.addr) [
        | none ↦ report p (generic "unknown address family %d") false
        | some addr ↦
            let psk' : StateKill = record psk { af = f.family; addr = addr } in
            let (killed, w) = host.kill_states fd psk' p.world in
            let p' = set_world p w in
            elim killed [
              | failed n ↦ report (set_errno p' n) (system "ioctl(DIOCKILLSTATES) failed" n) false
              | done _ ↦ kill_all fd a.head psk' rest p'
            ]
      ]
    ]
  ]

  -- The states of the address are killed, once it is in the table.
  unfoldable pub kill_resolved : Option ℕ → Addr → List ℕ → Proc W → Outcome (Bool × Proc W)
  unfolding kill_all report
  kill_resolved fd addr mask p =
      let (found, w) = host.resolve addr.humanrepr p.world in
      let p' = set_world p w in
      elim found [
        | failed code ↦ report p' (generic "getaddrinfo failed: %s") false
        | done list ↦
            kill_all fd (replicate 16 0xff)
              (record { af = unspec; addr = replicate 16 0; mask = mask }) list p'
      ]

  unfoldable pub ban : PfData → Bytes → Addr → Proc W → Outcome (Bool × Proc W)
  unfolding kill_resolved pf_mask report
  ban state table addr p = do
    mask ← pf_mask e addr.fa addr.netmask
    let request : TableRequest = record {
      table_name = host.table_text table;
      af = addr.fa;
      net = addr.netmask;
      words = addr.sa;
    }
    let (added, w) = host.add_addrs state.fd request p.world
    let p' = set_world p w
    elim added [
      | failed n ↦ report (set_errno p' n) (system "ioctl(DIOCRADDADDRS) failed" n) false
      | done _ ↦ kill_resolved state.fd addr mask p'
    ]

  unfoldable pub pf_handle :
      Option (Pointer PfData) → Bytes → Addr → Proc W → Outcome (Bool × Proc W)
  unfolding ban
  pf_handle (some (heap state)) table addr p = ban state table addr p
  pf_handle _ table addr p = undefined null_pointer

  -- The data is freed by the caller.
  unfoldable pub pf_close : Pointer PfData → Proc W → Outcome (Unit {0} × Proc W)
  pf_close (address n) p = undefined null_pointer
  pf_close (heap state) p = elim state.fd [
    | none ↦ returns (tt, p)
    | some fd ↦
        let (closed, w) = host.close (some fd) p.world in
        let w' : W = elim closed [
          | done _ ↦ w
          | failed n ↦ host.warn (codes "closing /dev/pf failed") w
        ] in
        returns (tt, set_world p w')
  ]

  abbrev pub pf_engine : Engine W
  pf_engine = record {
    drop_privileges = true;
    name = codes "pf";
    Ctxt = PfData;
    on_open = some pf_open;
    on_handle = pf_handle;
    on_close = some pf_close;
  }
