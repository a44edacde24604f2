-- ===== src/Engine/Pf/Kill.antt =====
-- Which states pf.c kills, and what `pf_open` and `pf_handle` report.
use banip.Base.{
  ℕ, ◌≤◌, ◌≡◌, refl, Bool, true, false, List, [], ◌∷◌, Option, none, some, is_some, Bytes, str_eq,
  Outcome, returns, Returns, arith, Bool-cases, Option-cases, inl, inr,
}
use banip.Error.{generic, system, empty, error_set, Reports}
use banip.Process.{Proc, done, failed, set_world, set_errno, report, Reply-cases}
use banip.Parse.Word.{Endian}
use banip.Parse.Addr.{Addr, Family}
use banip.Engine.{Pointer, heap, address}
use banip.Engine.Pf.Mask.{pf_mask-defined}
use banip.Engine.Pf.{
  TableRequest, PfData, StateKill, Sockaddr, Found, PfHost, kill_addr, kill_all, kill_resolved, ban,
  pf_open, pf_handle,
}

-- The addresses to kill: those that are there, without one that follows itself.
abbrev pub distinct : Bytes → List Found → List (Family × Sockaddr)
distinct last [] = []
distinct last (f ∷ rest) = elim f.addr [
  | none ↦ distinct last rest
  | some a ↦ elim (str_eq last a.head) [
    | true ↦ distinct last rest
    | false ↦ (f.family, a) ∷ distinct a.head rest
  ]
]

module _ {W : Type 0} (e : Endian) (host : PfHost W) where
  -- One call for each of the addresses, up to the first that fails.
  unfoldable pub kill_each :
      Option ℕ → StateKill → List (Family × Sockaddr) → Proc W → Outcome (Bool × Proc W)
  kill_each fd psk [] p = returns (true, p)
  kill_each fd psk ((family, a) ∷ rest) p = elim (kill_addr e host family a.ip psk.addr) [
    | none ↦ report p (generic "unknown address family %d") false
    | some addr ↦
        let psk' : StateKill = record psk { af = family; addr = addr } in
        let (killed, w) = host.kill_states fd psk' p.world in
        let p' = set_world p w in
        elim killed [
          | failed n ↦ report (set_errno p' n) (system "ioctl(DIOCKILLSTATES) failed" n) false
          | done _ ↦ kill_each fd psk' rest p'
        ]
  ]

  -- The loop over the results of `getaddrinfo` makes one call for each address that is there and
  -- does not begin like the one of the call before, up to the first call that fails.
  pub kill_all-distinct :
      (list : List Found) (fd : Option ℕ) (last : Bytes) (psk : StateKill) (p : Proc W)
      → kill_all e host fd last psk list p ≡ kill_each fd psk (distinct last list) p
  unfolding kill_all kill_each
  kill_all-distinct [] fd last psk p = refl
  kill_all-distinct (f ∷ rest) fd last psk p = elim (Option-cases f.addr) [
    | inl absent ↦ rw (absent, kill_all, distinct) (kill_all-distinct rest fd last psk p)
    | inr (a, given) ↦ elim (Bool-cases (str_eq last a.head)) [
      | inl same ↦ rw (given, same, kill_all, distinct) (kill_all-distinct rest fd last psk p)
      | inr other ↦ elim (Option-cases (kill_addr e host f.family a.ip psk.addr)) [
        | inl unknown ↦ rw (given, other, unknown, kill_all, distinct, kill_each) refl
        | inr (addr, known) ↦
            let psk' : StateKill = record psk { af = f.family; addr = addr } in
            elim (Reply-cases (host.kill_states fd psk' p.world).0) [
              | inl (n, refused) ↦
                  rw (given, other, known, refused, kill_all, distinct, kill_each) refl
              | inr (u, killed) ↦
                  rw (given, other, known, killed, kill_all, distinct, kill_each)
                    (kill_all-distinct rest fd a.head psk' _)
            ]
      ]
    ]
  ]

  kill_each-Reports :
      (fd : Option ℕ) (psk : StateKill) (list : List (Family × Sockaddr)) (p : Proc W)
      → p.env.slot ≡ empty
      → Returns (λ r. Reports r.0 r.1.env.slot) (kill_each fd psk list p)
  unfolding kill_each report error_set
  kill_each-Reports fd psk [] p clean = clean
  kill_each-Reports fd psk ((family, a) ∷ rest) p clean =
      elim (Option-cases (kill_addr e host family a.ip psk.addr)) [
        | inl unknown ↦ rw (unknown, kill_each) (ground arith)
        | inr (addr, known) ↦
            let psk' : StateKill = record psk { af = family; addr = addr } in
            elim (Reply-cases (host.kill_states fd psk' p.world).0) [
              | inl (n, refused) ↦ rw (known, refused, kill_each) (ground arith)
              | inr (u, killed) ↦
                  rw (known, killed, kill_each) (kill_each-Reports fd psk' rest _ clean)
            ]
      ]

  kill_resolved-Reports :
      (fd : Option ℕ) (addr : Addr) (mask : List ℕ) (p : Proc W)
      → p.env.slot ≡ empty
      → Returns (λ r. Reports r.0 r.1.env.slot) (kill_resolved e host fd addr mask p)
  unfolding kill_resolved report error_set
  kill_resolved-Reports fd addr mask p clean =
      elim (Reply-cases (host.resolve addr.humanrepr p.world).0) [
        | inl (n, unknown) ↦ rw (unknown, kill_resolved) (ground arith)
        | inr (list, known) ↦
            rw (known, kill_resolved, kill_all-distinct)
              (kill_each-Reports fd _ (distinct _ list) _ clean)
      ]

  -- With a device that is open, no error pending and a prefix of at most 128 bits, a ban by pf
  -- returns, and leaves an error exactly if it says that it failed.
  pub pf_handle-Reports :
      (state : PfData) (table : Bytes) (addr : Addr) (p : Proc W)
      → addr.netmask ≤ 128
      → p.env.slot ≡ empty
      → Returns (λ r. Reports r.0 r.1.env.slot) (pf_handle e host (some (heap state)) table addr p)
  unfolding pf_handle ban report error_set
  pf_handle-Reports state table addr p short clean =
      let (mask, masked) = pf_mask-defined e addr.fa addr.netmask short in
      let request : TableRequest = record {
        table_name = host.table_text table;
        af = addr.fa;
        net = addr.netmask;
        words = addr.sa;
      } in
      elim (Reply-cases (host.add_addrs state.fd request p.world).0) [
        | inl (n, refused) ↦ rw (masked, refused, ban) (ground arith)
        | inr (u, added) ↦
            rw (masked, added, ban) (kill_resolved-Reports state.fd addr mask _ clean)
      ]

  -- What `pf_open` gives is no integer in a pointer's place.
  abbrev pub IsDevice : Option (Pointer PfData) → Type 0
  IsDevice none = Unit
  IsDevice (some (heap state)) = Unit
  IsDevice (some (address n)) = ⊥

  pub pf_open-Reports :
      (table : Bytes) (p : Proc W)
      → p.env.slot ≡ empty
      → Returns (λ r. Reports (is_some r.0) r.1.env.slot × IsDevice r.0) (pf_open e host table p)
  unfolding pf_open report error_set
  pf_open-Reports table p clean = ground arith
