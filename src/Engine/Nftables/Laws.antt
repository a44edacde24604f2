-- ===== src/Engine/Nftables/Laws.antt =====
-- What a ban by nftables.c comes to.
use banip.Base.{
  ℕ, zero, suc, ◌%◌, ◌^◌, ◌≡◌, ◌<◌, refl, Bool, Bool-cases, leb, undefined, out_of_bounds, true,
  false, none, some, Bytes, Option, Outcome, Returns, arith, ◌⊎◌, inl, inr, if◌then◌else◌,
}
use banip.Error.{empty, full, system, Reports, error_set}
use banip.Process.{Proc, Reply, Reply-cases, done, set_world, report}
use banip.Parse.Addr.{Addr, is_inet}
use banip.Engine.{heap}
use banip.Engine.Nftables.{
  Netlink, NftablesData, Callback, goes_on, stopped, refused, nfproto_ipv4, nfproto_ipv6,
  receive_all, buffer_size, with_element, send_element, add_element, nftables_handle,
}

-- The run came to its end and returns, and what it returns has the property.
abbrev pub Answers : {A : Type 0} → (A → Type 0) → Option (Outcome A) → Type 0
Answers P none = ⊥
Answers P (some run) = Returns P run

Callback-cases : (c : Callback) → (c ≡ goes_on) ⊎ (c ≡ stopped) ⊎ ((n : ℕ) × (c ≡ refused n))
Callback-cases goes_on = inl refl
Callback-cases stopped = inr (inl refl)
Callback-cases (refused n) = inr (inr (n, refl))

module _ {W S N : Type 0} (net : Netlink W S N) where
  -- The answer to the message, if there was memory for its element.
  abbrev pub element_sent : NftablesData S N → Bytes → Addr → W → Reply (Unit {0}) × W
  element_sent state table addr w =
      net.sendto state.socket (if is_inet addr.fa then nfproto_ipv4 else nfproto_ipv6)
        (net.time w % 2 ^ 32) state.set (with_element net state table (net.elem_alloc w).1)

  -- Whether that message fits the buffer.
  abbrev pub fits : NftablesData S N → Bytes → W → Bool
  fits state table w =
      leb (net.message_size state.set (with_element net state table (net.elem_alloc w).1))
        buffer_size

  -- What a ban comes to: an answer, with an error exactly if it failed, if the message fits, and a
  -- write past the end of the buffer if it does not.
  abbrev pub Handles : Bool → Option (Outcome (Bool × Proc W)) → Type 0
  Handles true run = Answers (λ r. Reports r.0 r.1.env.slot) run
  Handles false run = run ≡ some (undefined out_of_bounds)

  -- A socket has a number of messages that are still to come. Receiving takes one of them, and looking at
  -- one takes none.
  pub record IsFinite : Type 0 where
    pub pending : N → W → ℕ
    pub receiving :
        (n : N) (w : W) (bytes : ℕ)
        → (net.recvfrom n w).0 ≡ done (suc bytes)
        → pending n (net.recvfrom n w).1 < pending n w
    pub looking :
        (n : N) (bytes seq port : ℕ) (w : W)
        → pending n (net.cb_run bytes seq port w).1 ≡ pending n w

  module _ (F : IsFinite) where
    receive_all-Answers :
        (fuel : ℕ) (socket : N) (seq port : ℕ) (p : Proc W)
        → F.pending socket p.world < fuel
        → p.env.slot ≡ empty
        → Answers (λ r. Reports r.0 r.1.env.slot) (receive_all net fuel socket seq port p)
    unfolding receive_all report error_set
    receive_all-Answers zero socket seq port p enough clean = absurd (omega arith)
    receive_all-Answers (suc fuel) socket seq port p enough clean =
        elim (Reply-cases (net.recvfrom socket p.world).0) [
          | inl (n, e) ↦ rw (e, clean, receive_all, error_set) tt
          | inr (zero, e) ↦ rw (e, receive_all) clean
          | inr (suc bytes, e) ↦
              let w : W = (net.recvfrom socket p.world).1 in
              elim (Callback-cases (net.cb_run (suc bytes) seq port w).0) [
                | inl on ↦
                    let fewer = F.receiving socket p.world bytes e in
                    let same = F.looking socket (suc bytes) seq port w in
                    rw (e, on, receive_all)
                      (receive_all-Answers fuel socket seq port
                        (set_world p (net.cb_run (suc bytes) seq port w).1) (omega arith) clean)
                | inr (inl off) ↦ rw (e, off, clean, receive_all, error_set) tt
                | inr (inr (n, off)) ↦ rw (e, off, clean, receive_all, error_set) tt
              ]
        ]

    -- Let there be memory for an element, no error pending and more fuel than the messages that are to
    -- come once the element is sent. If the message for the set, with all the elements that earlier
    -- bans have left in it and the new one, fits the buffer of 8192 bytes, a ban by nftables comes to
    -- its end, and leaves an error exactly if it says that it failed. If it does not fit, the ban
    -- writes past the end of the buffer.
    pub nftables_handle-Answers :
        (fuel : ℕ) (state : NftablesData S N) (table : Bytes) (addr : Addr) (p : Proc W)
        → (net.elem_alloc p.world).0 ≡ true
        → F.pending state.socket (element_sent state table addr p.world).1 < fuel
        → p.env.slot ≡ empty
        → Handles
            (fits state table p.world)
            (nftables_handle net fuel (some (heap state)) table addr p)
    unfolding nftables_handle add_element send_element report error_set
    nftables_handle-Answers fuel state table addr p memory enough clean =
        elim (Bool-cases (fits state table p.world)) [
          | inr long ↦ rw (memory, long, nftables_handle, add_element, send_element) refl
          | inl short ↦ elim (Reply-cases (element_sent state table addr p.world).0) [
            | inl (n, e) ↦
                rw (memory, short, e, clean, nftables_handle, add_element, send_element, error_set)
                  tt
            | inr (u, e) ↦
                rw (memory, short, e, nftables_handle, add_element, send_element)
                  (receive_all-Answers fuel state.socket _ state.portid
                    (set_world p (element_sent state table addr p.world).1) enough clean)
          ]
        ]

  -- With memory for an element, a message that fits and no error pending: if the element is sent, and `mnl_cb_run`
  -- answers the first message with 0, as it does for an acknowledgement, the ban counts as
  -- failed, with a message that has whatever `errno` there was.
  nftables_handle-acknowledged :
      (fuel : ℕ) (state : NftablesData S N) (table : Bytes) (addr : Addr) (p : Proc W) (bytes : ℕ)
      → (net.elem_alloc p.world).0 ≡ true
      → fits state table p.world ≡ true
      → (element_sent state table addr p.world).0 ≡ done tt
      → (net.recvfrom state.socket (element_sent state table addr p.world).1).0 ≡ done (suc bytes)
      → (net.cb_run
          (suc bytes)
          (net.time p.world % 2 ^ 32)
          state.portid
          (net.recvfrom state.socket (element_sent state table addr p.world).1).1).0
        ≡ stopped
      → p.env.slot ≡ empty
      → Answers
          (λ r. (r.0 ≡ false) × (r.1.env.slot ≡ full (system "mnl_cb_run failed" p.env.errno)))
          (nftables_handle net (suc fuel) (some (heap state)) table addr p)
  unfolding nftables_handle add_element send_element receive_all report error_set
  nftables_handle-acknowledged fuel state table addr p bytes memory short sent got answer clean =
      rw
        (
          memory, short, sent, got, answer, clean, nftables_handle, add_element, send_element,
          receive_all, error_set,
        )
        (refl, refl)
