-- ===== src/Engine/Nftables.antt =====
-- nftables.c: bans by the sets of the Linux kernel, over the libraries libnftnl and libmnl. `nftables_open` is
-- read with the parenthesis and the arguments for the error that its text lacks. The element `e` of the
-- data, which is always null, is left out; so is `nftables_engine`, whose initialiser lacks its first
-- field. Of the buffer `buf` of the data, the model has the size, and what is built in it has to fit; its
-- contents are those of the world between a call of the library and the next.
pub mod Laws
use banip.Base.{
  ℕ, zero, suc, ◌%◌, ◌^◌, Bool, true, false, Option, none, some, Bytes, codes, if◌then◌else◌, ◌==◌,
  Outcome, returns, undefined, null_pointer, out_of_bounds, leb,
}
use banip.Error.{generic, system}
use banip.Process.{Proc, Reply, done, failed, set_world, set_errno, report}
use banip.Parse.Addr.{Addr, is_inet}
use banip.Engine.{Pointer, heap, address}

-- What `mnl_cb_run` answers: a positive number, 0, or -1 with `errno`.
pub data Callback : Type 0 where
  goes_on stopped : Callback
  refused : ℕ → Callback

-- The calls of the libraries, over sets of type `S` and sockets of type `N`.
pub record Netlink (W S N : Type 0) : Type 0 where
  pub malloc : W → Bool × W
  pub time : W → ℕ
  pub socket_open : W → Reply N × W
  pub socket_bind : N → W → Reply (Unit {0}) × W
  pub portid : N → W → ℕ
  pub set_alloc : W → Option S × W
  pub set_table : S → Bytes → W → W
  pub set_name : S → Bytes → W → W
  -- whether there is memory for an element, and one with a number as its key, added to a set
  pub elem_alloc : W → Bool × W
  pub elem_add : S → ℕ → W → W
  -- the bytes that `nft_set_nlmsg_build_hdr` and `nft_set_elems_nlmsg_build_payload` write to the
  -- buffer for a set, whatever the size of the buffer
  pub message_size : S → W → ℕ
  -- this message is sent, with the family and the sequence number
  pub sendto : N → ℕ → ℕ → S → W → Reply (Unit {0}) × W
  pub recvfrom : N → W → Reply ℕ × W
  -- the number of bytes, the sequence number and the port
  pub cb_run : ℕ → ℕ → ℕ → W → Callback × W
  pub set_free : S → W → W
  pub socket_close : N → W → W

-- `nftables_data_t`
pub record NftablesData (S N : Type 0) : Type 0 where
  pub portid : ℕ
  pub set : S
  pub socket : N

-- `MNL_SOCKET_BUFFER_SIZE`
abbrev pub buffer_size : ℕ
buffer_size = 8192

-- `NFPROTO_IPV4` and `NFPROTO_IPV6`
abbrev pub nfproto_ipv4 : ℕ
nfproto_ipv4 = 2

abbrev pub nfproto_ipv6 : ℕ
nfproto_ipv6 = 10

module _ {W S N : Type 0} (net : Netlink W S N) where
  abbrev pub Opened : Type 0
  Opened = Outcome (Option (Pointer (NftablesData S N)) × Proc W)

  -- The set, for a socket that is bound. The result of `nft_set_alloc` is not looked at.
  unfoldable pub make_set : N → Proc W → Opened
  make_set socket p =
      let port = net.portid socket p.world in
      let (made, w) = net.set_alloc p.world in
      elim made [
        | none ↦ undefined null_pointer
        | some s ↦ returns (
          some (heap (record { portid = port; set = s; socket = socket })),
          set_world p (net.set_table s (codes "filter") w),
        )
      ]

  -- A socket that cannot be bound is not closed.
  unfoldable pub open_socket : Proc W → Opened
  unfolding make_set report
  open_socket p =
      let (opened, w) = net.socket_open p.world in
      let p' = set_world p w in
      elim opened [
        | failed n ↦ report (set_errno p' n) (system "mnl_socket_open failed" n) none
        | done socket ↦
            let (bound, w') = net.socket_bind socket w in
            let p'' = set_world p w' in
            elim bound [
              | failed n ↦ report (set_errno p'' n) (system "mnl_socket_bind failed" n) none
              | done _ ↦ make_set socket p''
            ]
      ]

  unfoldable pub nftables_open : Bytes → Proc W → Opened
  unfolding open_socket
  nftables_open table p =
      let (got, w) = net.malloc p.world in
      if got
      then open_socket (set_world p w)
      else report (set_world p w) (generic "malloc(3) failed to allocate %zu bytes") none

  -- A run that has not come to its end on its fuel is `none`.
  abbrev pub Handled : Type 0
  Handled = Option (Outcome (Bool × Proc W))

  -- The loop over the answers of the kernel.
  unfoldable pub receive_all : ℕ → N → ℕ → ℕ → Proc W → Handled
  unfolding report
  receive_all zero socket seq port p = none
  receive_all (suc fuel) socket seq port p =
      let (got, w) = net.recvfrom socket p.world in
      let p' = set_world p w in
      elim got [
        | failed n ↦ some (report (set_errno p' n) (system "mnl_socket_recvfrom failed" n) false)
        | done zero ↦ some (returns (true, p'))
        | done (suc bytes) ↦
            let (answer, w') = net.cb_run (suc bytes) seq port w in
            let p'' = set_world p w' in
            let rest = receive_all fuel socket seq port p'' in
            elim answer [
              | goes_on ↦ rest
              | stopped ↦ some (report p'' (system "mnl_cb_run failed" p''.env.errno) false)
              | refused n ↦ some (report (set_errno p'' n) (system "mnl_cb_run failed" n) false)
            ]
      ]

  -- The set with one more element, which has the key 3 whatever the address.
  abbrev pub with_element : NftablesData S N → Bytes → W → W
  with_element state table w = net.elem_add state.set 3 (net.set_name state.set table w)

  -- The set, with all elements that it has got so far, is built into the buffer of the data.
  unfoldable pub send_element :
      NftablesData S N → Bytes → ℕ → ℕ → W → Outcome (Reply (Unit {0}) × W)
  send_element state table family seq w =
      let (got, w1) = net.elem_alloc w in
      let w2 : W = with_element state table w1 in
      let sent : Outcome (Reply (Unit {0}) × W) =
        if leb (net.message_size state.set w2) buffer_size
        then returns (net.sendto state.socket family seq state.set w2)
        else undefined out_of_bounds in
      if got then sent else undefined null_pointer

  unfoldable pub add_element : ℕ → NftablesData S N → Bytes → Addr → Proc W → Handled
  unfolding receive_all send_element report
  add_element fuel state table addr p =
      let seq : ℕ = net.time p.world % 2 ^ 32 in
      let family : ℕ = if is_inet addr.fa then nfproto_ipv4 else nfproto_ipv6 in
      elim (send_element state table family seq p.world) [
        | undefined e ↦ some (undefined e)
        | returns (failed n, w) ↦
            some (report (set_errno (set_world p w) n) (system "mnl_socket_sendto failed" n) false)
        | returns (done _, w) ↦ receive_all fuel state.socket seq state.portid (set_world p w)
      ]

  unfoldable pub nftables_handle :
      ℕ → Option (Pointer (NftablesData S N)) → Bytes → Addr → Proc W → Handled
  unfolding add_element
  nftables_handle fuel (some (heap state)) table addr p = add_element fuel state table addr p
  nftables_handle fuel _ table addr p = some (undefined null_pointer)

  -- The data is freed by the caller.
  unfoldable pub nftables_close : Pointer (NftablesData S N) → Proc W → Outcome (Unit {0} × Proc W)
  nftables_close (address n) p = undefined null_pointer
  nftables_close (heap state) p =
      returns (tt, set_world p (net.socket_close state.socket (net.set_free state.set p.world)))
