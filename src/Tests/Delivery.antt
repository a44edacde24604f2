-- ===== src/Tests/Delivery.antt =====
-- A client and the daemon over one POSIX queue, in a kernel whose world is the messages that wait.
use banip.Base.{
  ℕ, ◌<◌, ◌≡◌, ◌≤◌, refl, inl, true, List, [], ◌∷◌, ◌++◌, none, some, Bytes, codes, length, leb,
  if◌then◌else◌, Returns, arith,
}
use banip.Process.{Reply, done, failed}
use banip.Parse.Word.{little}
use banip.Queue.Posix.{Kernel, PosixQueue, initial, posix_queue, c_text}
use banip.Queue.Channel.{IsChannel}
use banip.Queue.Posix.Channel.{HasMessages, posix_channel}
use banip.Engine.Command.{dummy_engine, dummy_handle}
use banip.Daemon.Serve.{Log}
use banip.Daemon.Serve.Round.{Keeps}
use banip.Delivery.{Event, sends, round, System, run}
use banip.Delivery.Laws.{IsInOrder, run-IsInOrder}
use banip.Tests.Parse.{small_libc, small_libc-IsLibc}
use banip.Tests.Queue.{process}
use banip.Tests.Start.{silent}

abbrev pub Waiting : Type 0
Waiting = List Bytes

-- The limit of the queue is 1024 bytes.
abbrev pub put_last : Bytes → Waiting → Reply (Unit {0}) × Waiting
put_last text w = if leb (length text) 1024 then (done tt, w ++ text ∷ []) else (failed 90, w)

abbrev pub take_first : ℕ → Waiting → Reply Bytes × Waiting
take_first size [] = (failed 11, [])
take_first size (b ∷ rest) = if leb 1024 size then (done b, rest) else (failed 90, b ∷ rest)

abbrev fifo : Kernel Waiting
fifo = record {
  malloc = λ w. (true, w);
  strdup = λ w. (true, w);
  mq_open = λ name flags attr w. (done 3, w);
  mq_getattr = λ d w. (done (record { maxmsg = 10; msgsize = 1024 }), w);
  mq_receive = λ d size w. take_first size w;
  mq_send = λ d text w. put_last text w;
  mq_close = λ d w. (done tt, w);
  mq_unlink = λ name w. (done tt, w);
}

pub put_last-done :
    (text : Bytes) (w : Waiting)
    → (put_last text w).0 ≡ done tt
    → ((put_last text w).1 ≡ w ++ text ∷ []) × (length text ≤ 1024)
put_last-done text w h = ground arith

pub put_last-failed :
    (text : Bytes) (w : Waiting) (n : ℕ) → (put_last text w).0 ≡ failed n → (put_last text w).1 ≡ w
put_last-failed text w n h = ground arith

pub take_first-done :
    (size : ℕ) (w : Waiting) (b : Bytes)
    → (take_first size w).0 ≡ done b
    → w ≡ b ∷ (take_first size w).1
take_first-done size [] b h = absurd (cc h)
take_first-done size (c ∷ rest) b h = ground arith

pub take_first-failed :
    (size : ℕ) (w : Waiting) (n : ℕ) → (take_first size w).0 ≡ failed n → (take_first size w).1 ≡ w
take_first-failed size [] n h = refl
take_first-failed size (c ∷ rest) n h = ground arith

pub take_first-ready :
    (size : ℕ) (w : Waiting) (b : Bytes) (rest : Waiting)
    → w ≡ b ∷ rest
    → 1024 < size
    → (take_first size w).0 ≡ done b
take_first-ready size [] b rest h room = absurd (cc h)
take_first-ready size (c ∷ w) b rest h room = ground arith

abbrev messages : HasMessages fifo fifo (some 3) (some 3)
messages = record {
  messages = λ w. w;
  limit = 1024;
  accepts = put_last-done;
  refuses = put_last-failed;
  gives = take_first-done;
  withholds = take_first-failed;
}

abbrev no_log : Log Waiting
no_log = record { write_log = λ slot w. w }

abbrev channel : IsChannel (posix_queue fifo) (posix_queue fifo)
channel = posix_channel fifo fifo (some 3) (some 3) messages

keeps :
    (c : Waiting)
    → Keeps little small_libc no_log
        (posix_queue fifo)
        (dummy_engine silent)
        (λ w. (w ≡ c) × channel.IsIntact w)
unfolding dummy_handle
keeps c = record {
  handles = λ ctxt table addr p wf clean same. (clean, same);
  logs = λ slot w same. same;
}

abbrev opened : PosixQueue
opened = record initial { mq = some 3 }

-- One text waits when the run begins.
abbrev early : Waiting
early = codes "10.1.2.3" ∷ []

abbrev text : Bytes
text = codes "192.0.2.1"

abbrev system :
    System little small_libc no_log (posix_queue fifo) (posix_queue fifo) (dummy_engine silent)
system = record {
  server = record {
    queue = opened;
    ctxt = none;
    table = codes "blacklist";
    size = 1025;
    proc = process early;
  };
  clients = λ i. opened;
  accepted = [];
  received = [];
}

at_start :
    IsInOrder little small_libc small_libc-IsLibc no_log
      (posix_queue fifo)
      (posix_queue fifo)
      (dummy_engine silent)
      channel
      keeps
      early
      system
unfolding c_text
at_start = record {
  no_error = refl;
  open_receiver = (refl, omega arith);
  open_senders = λ i. refl;
  intact = ((refl, omega arith), tt);
  sound = (λ errno. inl refl, tt);
  in_order = refl;
}

-- Two texts are sent, the second of them between two rounds.
abbrev events : List Event
events = sends 0 0 text ∷ round ∷ sends 1 4 text ∷ round ∷ []

run-IsInOrder_example :
    Returns
      (IsInOrder little small_libc small_libc-IsLibc no_log
        (posix_queue fifo)
        (posix_queue fifo)
        (dummy_engine silent)
        channel
        keeps
        early)
      (run little small_libc no_log
        (posix_queue fifo)
        (posix_queue fifo)
        (dummy_engine silent)
        events
        system)
unfolding c_text
run-IsInOrder_example =
    run-IsInOrder little small_libc small_libc-IsLibc no_log (posix_queue fifo) (posix_queue fifo)
      (dummy_engine silent) channel keeps early events system
      ((refl, λ errno. inl refl), (tt, ((refl, λ errno. inl refl), (tt, tt)))) at_start
