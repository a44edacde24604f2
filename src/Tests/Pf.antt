-- ===== src/Tests/Pf.antt =====
-- The engine pf and pftest.c, over a device that counts its calls.
use banip.Base.{ℕ, suc, ◌≡◌, ◌≤◌, refl, true, List, [], ◌∷◌, some, codes, replicate, Returns, arith}
use banip.Error.{Reports}
use banip.Process.{done}
use banip.Parse.Word.{little}
use banip.Parse.Mask.{mask_words}
use banip.Parse.Addr.{Addr, inet, inet6}
use banip.Engine.{heap}
use banip.Engine.Pf.{
  PfData, StateKill, Sockaddr, Found, PfHost, pf_mask, kill_all, pf_handle, pf_engine,
}
use banip.Engine.Pf.Mask.{first_word, pf_mask-mask_words}
use banip.Engine.Pf.Kill.{kill_each, kill_all-distinct, pf_handle-Reports}
use banip.Pftest.{test_engine}
use banip.Pftest.Laws.{Finished, test_engine-Finished}
use banip.Tests.Parse.{small_libc, small_libc-IsLibc}
use banip.Tests.Queue.{process}
use banip.Tests.Start.{dumb}

abbrev socket : Sockaddr
socket = record { head = replicate 16 2; ip = 1 ∷ 2 ∷ 3 ∷ 4 ∷ [] }

-- One address, once for each type of socket.
abbrev results : List Found
results =
    record { family = inet; addr = some socket } ∷ record { family = inet; addr = some socket } ∷ []

abbrev device : PfHost ℕ
device = record {
  malloc = λ w. (true, w);
  open_pf = λ w. (done 3, w);
  table_text = λ name. name;
  add_addrs = λ fd request w. (done tt, suc w);
  resolve = λ text w. (done results, w);
  kill_states = λ fd kill w. (done tt, suc w);
  close = λ fd w. (done tt, w);
  warn = λ text w. w;
}

abbrev opened : PfData
opened = record { fd = some 3 }

abbrev pub victim : Addr
victim = record {
  fa = inet;
  sa_size = 4;
  netmask = 20;
  sa = 0x0000_0201 ∷ 0 ∷ 0 ∷ 0 ∷ [];
  humanrepr = codes "1.2.0.0";
}

abbrev nothing_killed : StateKill
nothing_killed = record { af = inet; addr = replicate 16 0; mask = replicate 4 0xffff_ffff }

pf_mask-mask_words_example :
    (20 ≤ 128 → pf_mask little inet6 20 ≡ mask_words little 20)
    × (20 ≤ 32 → first_word (pf_mask little inet 20) ≡ first_word (mask_words little 20))
pf_mask-mask_words_example = pf_mask-mask_words little 20

kill_all-distinct_example :
    kill_all little device (some 3) (replicate 16 0xff) nothing_killed results (process 0)
    ≡ kill_each little device (some 3) nothing_killed ((inet, socket) ∷ []) (process 0)
kill_all-distinct_example =
    kill_all-distinct little device results (some 3) (replicate 16 0xff) nothing_killed (process 0)

pf_handle-Reports_example :
    Returns
      (λ r. Reports r.0 r.1.env.slot)
      (pf_handle little device (some (heap opened)) (codes "blacklist") victim (process 0))
pf_handle-Reports_example =
    pf_handle-Reports little device opened (codes "blacklist") victim (process 0) (omega arith) refl

test_engine-Finished_example :
    Returns
      (Finished little small_libc small_libc-IsLibc dumb device)
      (test_engine little small_libc dumb (pf_engine little device) (process 0))
test_engine-Finished_example =
    test_engine-Finished little small_libc small_libc-IsLibc dumb device (process 0) refl
