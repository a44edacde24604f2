-- ===== src/Tests/Firewalls.antt =====
-- The engine nftables, over a socket with some messages.
use banip.Base.{ℕ, suc, zero, ◌≡◌, ◌<◌, refl, true, some, codes, arith}
use banip.Process.{Reply, done, failed}
use banip.Engine.{heap}
use banip.Engine.Nftables.{Netlink, NftablesData, stopped, nftables_handle}
use banip.Engine.Nftables.Laws.{Handles, IsFinite, nftables_handle-Answers}
use banip.Tests.Pf.{victim}
use banip.Tests.Queue.{process}

-- The world is the number of messages that are to come.
abbrev receive : ℕ → Reply ℕ × ℕ
receive zero = (failed 11, zero)
receive (suc n) = (done 36, n)

abbrev netlink : Netlink ℕ ℕ ℕ
netlink = record {
  malloc = λ w. (true, w);
  time = λ w. 1000;
  socket_open = λ w. (done 3, w);
  socket_bind = λ n w. (done tt, w);
  portid = λ n w. 77;
  set_alloc = λ w. (some 1, w);
  set_table = λ s table w. w;
  set_name = λ s name w. w;
  elem_alloc = λ w. (true, w);
  elem_add = λ s key w. w;
  message_size = λ s w. 64;
  sendto = λ n family seq s w. (done tt, suc w);
  recvfrom = λ n w. receive w;
  cb_run = λ bytes seq port w. (stopped, w);
  set_free = λ s w. w;
  socket_close = λ n w. w;
}

receive-fewer : (w bytes : ℕ) → (receive w).0 ≡ done (suc bytes) → (receive w).1 < w
receive-fewer zero bytes h = absurd (cc h)
receive-fewer (suc w) bytes h = omega arith

abbrev finite : IsFinite netlink
finite = record {
  pending = λ n w. w;
  receiving = λ n w bytes h. receive-fewer w bytes h;
  looking = λ n bytes seq port w. refl;
}

abbrev bound : NftablesData ℕ ℕ
bound = record { portid = 77; set = 1; socket = 3 }

nftables_handle-Answers_example :
    Handles netlink true
      (nftables_handle netlink 2 (some (heap bound)) (codes "blacklist") victim (process 0))
nftables_handle-Answers_example =
    nftables_handle-Answers netlink finite 2 bound (codes "blacklist") victim (process 0) refl
      (omega arith) refl
