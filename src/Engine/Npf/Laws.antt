-- ===== src/Engine/Npf/Laws.antt =====
-- A ban by npf.c, from the opening of the device to its end.
use banip.Base.{ℕ, ◌≡◌, refl, some, Bytes, Returns, returns, inl, inr}
use banip.Error.{empty, Reports, error_set}
use banip.Process.{Proc, Reply-cases, report}
use banip.Parse.Addr.{Addr}
use banip.Engine.{heap}
use banip.Engine.Npf.{NpfHost, NpfData, entry_of, npf_handle}

module _ {W : Type 0} (host : NpfHost W) where
  -- With a device that is open and no error pending, a ban by npf returns, leaves an error exactly if it
  -- says that it failed, and does the same for every prefix: only the address itself is banned.
  npf_handle-Reports :
      (state : NpfData) (table : Bytes) (addr : Addr) (prefix : ℕ) (p : Proc W)
      → p.env.slot ≡ empty
      → Returns
          (λ r.
            Reports r.0 r.1.env.slot
            × (npf_handle host (some (heap state)) table (record addr { netmask = prefix }) p
                ≡ returns r))
          (npf_handle host (some (heap state)) table addr p)
  unfolding npf_handle report error_set
  npf_handle-Reports state table addr prefix p clean =
      elim (Reply-cases (host.table_add state.fd (entry_of host table addr) p.world).0) [
        | inl (n, refused) ↦ rw (refused, clean, npf_handle, error_set) (tt, refl)
        | inr (u, added) ↦ rw (added, npf_handle) (clean, refl)
      ]
