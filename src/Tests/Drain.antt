-- ===== src/Tests/Drain.antt =====
-- The daemon over a System V queue in which two texts wait.
use banip.Base.{
  ℕ, ◌≡◌, ◌≤◌, ◌-◌, refl, inl, true, List, [], ◌∷◌, ◌++◌, none, some, Bytes, codes, length, leb,
  take, if◌then◌else◌, replicate, Returns, arith,
}
use banip.Process.{Reply, done, failed}
use banip.Parse.Word.{little}
use banip.Queue.Channel.{IsChannel, IsPrompt}
use banip.Queue.Systemv.{Kernel, SystemvQueue, initial, systemv_queue}
use banip.Queue.Systemv.Messages.{HasMessages}
use banip.Queue.Systemv.Channel.{systemv_channel, systemv_channel-IsPrompt}
use banip.Engine.Command.{dummy_engine, dummy_handle}
use banip.Daemon.Serve.{Log}
use banip.Daemon.Serve.Round.{Keeps}
use banip.Delivery.{round, System, run}
use banip.Delivery.Laws.{IsInOrder}
use banip.Delivery.Drain.{IsDrained, run-IsDrained}
use banip.Tests.Parse.{small_libc, small_libc-IsLibc}
use banip.Tests.Queue.{process}
use banip.Tests.Start.{silent}

-- `msgrcv` refuses a message that is longer than the size.
abbrev take_first : ℕ → List Bytes → Reply Bytes × List Bytes
take_first size [] = (failed 42, [])
take_first size (b ∷ rest) = if leb (length b) size then (done b, rest) else (failed 7, b ∷ rest)

abbrev post : Kernel (List Bytes)
post = record {
  max_path = 1024;
  strlcpy = λ n s. (take (n - 1) s, length s);
  malloc = λ w. (true, w);
  malloc_bytes = λ n w. (some (replicate n 0), w);
  strdup = λ w. (true, w);
  create_file = λ file w. (done tt, w);
  open_file = λ file w. (done tt, w);
  write_id = λ id w. (done tt, w);
  read_id = λ w. (some 98, w);
  close_file = λ w. w;
  ftok = λ file id w. some 5;
  msgget = λ key create w. (done 7, w);
  msgctl_stat = λ d w. (done 512, w);
  msgctl_remove = λ d w. (done tt, []);
  msgrcv = λ d size w. take_first size w;
  msgsnd = λ d b w. (done tt, w ++ b ∷ []);
  unlink = λ file w. (done tt, w);
}

take_first-done :
    (size : ℕ) (w : List Bytes) (b : Bytes)
    → (take_first size w).0 ≡ done b
    → w ≡ b ∷ (take_first size w).1
take_first-done size [] b h = absurd (cc h)
take_first-done size (c ∷ rest) b h = ground arith

take_first-failed :
    (size : ℕ) (w : List Bytes) (n : ℕ)
    → (take_first size w).0 ≡ failed n
    → (take_first size w).1 ≡ w
take_first-failed size [] n h = refl
take_first-failed size (c ∷ rest) n h = ground arith

take_first-ready :
    (size : ℕ) (w : List Bytes) (b : Bytes) (rest : List Bytes)
    → w ≡ b ∷ rest
    → length b ≤ size
    → (take_first size w).0 ≡ done b
take_first-ready size w b rest same room =
    let fits : leb (length b) size ≡ true = ground (arith, room) in rw (same, fits) refl

abbrev messages : HasMessages post post (some 7) (some 7)
messages = record {
  messages = λ w. w;
  accepts = λ b w h. refl;
  refuses = λ b w n h. absurd (cc h);
  gives = take_first-done;
  withholds = take_first-failed;
}

abbrev channel : IsChannel (systemv_queue post) (systemv_queue post)
channel = systemv_channel post post (some 7) (some 7) messages 16

prompt : IsPrompt (systemv_queue post) (systemv_queue post) channel
prompt =
    systemv_channel-IsPrompt post post (some 7) (some 7) messages 16
      λ size w b rest there room. take_first-ready size w b rest there room

abbrev no_log : Log (List Bytes)
no_log = record { write_log = λ slot w. w }

keeps :
    (c : List Bytes)
    → Keeps little small_libc no_log
        (systemv_queue post)
        (dummy_engine silent)
        (λ w. (channel.contents w ≡ c) × channel.IsIntact w)
unfolding dummy_handle
keeps c = record {
  handles = λ ctxt table addr p wf clean same. (clean, same);
  logs = λ slot w same. same;
}

abbrev opened : SystemvQueue
opened = record initial { qid = some 7; mtext = some (replicate 128 0); buffer_size = 16 }

-- The bytes behind the zero of the first message are those of an older one.
abbrev waiting : List Bytes
waiting = (codes "10.1.2.3" ++ 0 ∷ codes "2.7.9.1") ∷ (codes "192.0.2.1" ++ replicate 7 0) ∷ []

abbrev texts : List Bytes
texts = codes "10.1.2.3" ∷ codes "192.0.2.1" ∷ []

abbrev system :
    System little small_libc no_log (systemv_queue post) (systemv_queue post) (dummy_engine silent)
system = record {
  server = record {
    queue = opened;
    ctxt = none;
    table = codes "blacklist";
    size = 17;
    proc = process waiting;
  };
  clients = λ i. opened;
  accepted = [];
  received = [];
}

at_start :
    IsInOrder little small_libc small_libc-IsLibc no_log
      (systemv_queue post)
      (systemv_queue post)
      (dummy_engine silent)
      channel
      keeps
      texts
      system
at_start = record {
  no_error = refl;
  open_receiver = (refl, omega arith, record { bytes = _; there = refl; long = omega arith });
  open_senders = λ i. (refl, refl, record { bytes = _; there = refl; long = omega arith });
  intact = (
    record { text = _; rest = _; ends = refl; short = omega arith; fits = omega arith },
    (record { text = _; rest = _; ends = refl; short = omega arith; fits = omega arith }, tt),
  );
  sound = (λ errno. inl refl, (λ errno. inl refl, tt));
  in_order = refl;
}

systemv-IsDrained :
    Returns
      (IsDrained little small_libc small_libc-IsLibc no_log
        (systemv_queue post)
        (systemv_queue post)
        (dummy_engine silent)
        channel
        prompt
        keeps
        texts
        system)
      (run little small_libc no_log
        (systemv_queue post)
        (systemv_queue post)
        (dummy_engine silent)
        (replicate 2 round)
        system)
systemv-IsDrained =
    run-IsDrained little small_libc small_libc-IsLibc no_log (systemv_queue post)
      (systemv_queue post) (dummy_engine silent) channel prompt keeps texts 2 system at_start refl
