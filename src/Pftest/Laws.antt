-- ===== src/Pftest/Laws.antt =====
-- pftest.c with the engine pf.
use banip.Base.{
  ℕ, ◌≡◌, ◌≢◌, ◌≤◌, refl, Bool, true, false, Option, none, some, is_some, if◌then◌else◌, ◌>>=◌,
  Returns, Returns->>=, Returns-inv, arith, Bool-cases, inl, inr, ◌⊎◌,
}
use banip.Error.{Slot, null, empty, Reports}
use banip.Process.{Proc}
use banip.Parse.Word.{Endian}
use banip.Parse.Addr.{Libc, IsLibc, AddrParse, inet, inet6}
use banip.Parse.Addr.WellFormed.{IsWellFormed, parse_addr-IsWellFormed}
use banip.Parse.Addr.Errors.{env-clean, parse_addr-Reports}
use banip.Engine.{Pointer, heap, address, close_engine}
use banip.Engine.Pf.{PfData, PfHost, pf_engine, pf_open, pf_handle, pf_close}
use banip.Engine.Pf.Kill.{IsDevice, pf_handle-Reports, pf_open-Reports}
use banip.Cli.{Terminal, success, failure, show_error}
use banip.Cli.Laws.{show_error-empty}
use banip.Pftest.{test_address, table_name, finish_test, ban_address, test_engine}

module _ {W : Type 0} (e : Endian) (lib : Libc) (L : IsLibc lib) (term : Terminal W)
    (host : PfHost W) where
  -- No message is left, and the status is that of success or of failure.
  abbrev pub Finished : ℕ × Proc W → Type 0
  Finished r = r.1.env.slot ≡ empty

  close-clean :
      (state : PfData) (p : Proc W)
      → p.env.slot ≡ empty
      → Returns (λ r. r.env.slot ≡ empty) (close_engine (pf_engine e host) (heap state) p)
  unfolding pf_close
  close-clean state p none_left = ground arith

  finish-Finished :
      (status : ℕ) (ctxt : Option (Pointer PfData)) (p : Proc W)
      → IsDevice e host ctxt
      → p.env.slot ≢ null
      → Returns Finished (finish_test e lib term (pf_engine e host) status ctxt p)
  unfolding finish_test
  finish-Finished status none p device there =
      Returns->>= (λ q. q.env.slot ≡ empty) Finished (show_error term p) _
        (show_error-empty term p there) λ q none_left. none_left
  finish-Finished status (some (heap state)) p device there =
      Returns->>= (λ q. q.env.slot ≡ empty) Finished (show_error term p) _
        (show_error-empty term p there)
        λ q none_left.
          Returns->>= (λ q'. q'.env.slot ≡ empty) Finished
            (close_engine (pf_engine e host) (heap state) q) _ (close-clean state q none_left)
            λ q' still. still
  finish-Finished status (some (address n)) p device there = absurd device

  readable : (ok : Bool) (slot : Slot) → Reports ok slot → slot ≢ null
  readable true slot reports h = cc (reports, h)
  readable false slot reports h = rw h at reports

  banned-Finished :
      (state : PfData) (parsed : AddrParse) (p : Proc W)
      → IsWellFormed e parsed.addr
      → p.env.slot ≡ empty
      → Returns Finished (do
        (banned, q) ← pf_handle e host (some (heap state)) table_name parsed.addr p
        finish_test e lib term
            (pf_engine e host)
            (if banned then success else failure)
            (some (heap state))
            q)
  banned-Finished state parsed p formed clean_slot =
      Returns->>= (λ r. Reports r.0 r.1.env.slot) Finished
        (pf_handle e host (some (heap state)) table_name parsed.addr p) _
        (pf_handle-Reports e host state table_name parsed.addr p (short formed.family) clean_slot)
        λ r reports.
          finish-Finished _ (some (heap state)) r.1 tt (readable r.0 r.1.env.slot reports)
    where
      short :
          ((parsed.addr.fa ≡ inet) × (parsed.addr.sa_size ≡ 4) × (parsed.addr.netmask ≤ 32))
            ⊎ ((parsed.addr.fa ≡ inet6) × (parsed.addr.sa_size ≡ 16) × (parsed.addr.netmask ≤ 128))
          → parsed.addr.netmask ≤ 128
      short kind = ground arith

  ban_address-Finished :
      (state : PfData) (p : Proc W)
      → p.env.slot ≡ empty
      → Returns Finished (ban_address e lib term (pf_engine e host) (some (heap state)) p)
  unfolding ban_address
  ban_address-Finished state p clean_slot =
      let same = env-clean p.env clean_slot in
      let (parsed, run, reports) =
        Returns-inv (λ (r : AddrParse). Reports r.ok r.env.slot) _
          (parse_addr-Reports e lib L test_address p.env.errno (inl refl)) in
      let p' : Proc W = record p { env = parsed.env } in
      rw (same, run)
        (elim (Bool-cases parsed.ok) [
          | inl ok ↦ rw ok (
              banned-Finished state parsed p'
                (parse_addr-IsWellFormed e lib L test_address _ run ok) (rw ok at reports))
          | inr refused ↦ rw refused (
              finish-Finished failure (some (heap state)) p' tt
                (readable parsed.ok parsed.env.slot reports))
        ])

  -- With no error pending, the test program with the engine pf returns, whatever the calls of the
  -- system come to: no call is undefined, and no message is left.
  pub test_engine-Finished :
      (p : Proc W)
      → p.env.slot ≡ empty
      → Returns Finished (test_engine e lib term (pf_engine e host) p)
  unfolding test_engine
  test_engine-Finished p clean_slot =
      Returns->>= (λ r. Reports (is_some r.0) r.1.env.slot × IsDevice e host r.0) Finished
        (pf_open e host table_name p) _ (pf_open-Reports e host table_name p clean_slot)
        λ r h. opened r.0 r.1 h.0 h.1
    where
      opened :
          (ctxt : Option (Pointer PfData)) (q : Proc W)
          → Reports (is_some ctxt) q.env.slot
          → IsDevice e host ctxt
          → Returns Finished (
              let go = ban_address e lib term (pf_engine e host) ctxt q in
              let stop = finish_test e lib term (pf_engine e host) failure ctxt q in
              if is_some ctxt then go else stop)
      opened none q reports device =
          finish-Finished failure none q tt (readable false q.env.slot reports)
      opened (some (heap state)) q reports device = ban_address-Finished state q reports
      opened (some (address n)) q reports device = absurd device
