-- ===== src/Tests/Bans.antt =====
-- Clients, the daemon and its engines dummy and ipset, over one POSIX queue.
use banip.Base.{
  ◌≡◌, refl, inl, true, List, [], ◌∷◌, ◌++◌, none, some, Bytes, codes, replicate, Outcome, returns,
  undefined, Returns, arith, leb, length, Bool-cases, inr,
}
use banip.Error.{empty}
use banip.Process.{Proc, done}
use banip.Parse.Word.{little}
use banip.Parse.Addr.{Addr, AddrParse, parse_addr, inet}
use banip.Parse.Mask.{apply_netmask}
use banip.Parse.Word.{load_words}
use banip.Queue.Channel.{IsChannel, IsPrompt}
use banip.Queue.Posix.{Kernel, PosixQueue, initial, posix_queue, c_text}
use banip.Queue.Posix.Channel.{HasMessages, posix_channel, posix_channel-IsPrompt}
use banip.Queue.Posix.Channel.Frame.{queue_send-frame, queue_receive-frame}
use banip.Engine.{Engine, address}
use banip.Engine.Command.{
  Shell, ipset_add, run_command, ipset_handle, ipset_engine, dummy_handle, dummy_engine,
}
use banip.Daemon.Serve.{Log}
use banip.Daemon.Serve.Round.{Keeps}
use banip.Delivery.{Event, sends, round, System, run}
use banip.Delivery.Bans.{IsApart, IsEnforcer, IsRead}
use banip.Delivery.Engines.{received_line, dummy_enforcer, ipset_enforcer}
use banip.Delivery.Enforced.{IsEnforced, run-IsEnforced, run-bans_all}
use banip.Tests.Parse.{small_libc, small_libc-IsLibc, v4_text}
use banip.Tests.Queue.{process}
use banip.Tests.Delivery.{
  Waiting, put_last, take_first, put_last-done, put_last-failed, take_first-done, take_first-failed,
  take_first-ready,
}

-- The texts that wait, and the lines that were printed or the commands that were run.
abbrev World : Type 0
World = Waiting × List Bytes

abbrev with_waiting : {A : Type 0} → A × Waiting → World → A × World
with_waiting r w = (r.0, (r.1, w.1))

abbrev fifo : Kernel World
fifo = record {
  malloc = λ w. (true, w);
  strdup = λ w. (true, w);
  mq_open = λ name flags attr w. (done 3, w);
  mq_getattr = λ d w. (done (record { maxmsg = 10; msgsize = 1024 }), w);
  mq_receive = λ d size w. with_waiting (take_first size w.0) w;
  mq_send = λ d text w. with_waiting (put_last text w.0) w;
  mq_close = λ d w. (done tt, w);
  mq_unlink = λ name w. (done tt, w);
}

abbrev messages : HasMessages fifo fifo (some 3) (some 3)
messages = record {
  messages = λ w. w.0;
  limit = 1024;
  accepts = λ text w. put_last-done text w.0;
  refuses = λ text w. put_last-failed text w.0;
  gives = λ size w. take_first-done size w.0;
  withholds = λ size w. take_first-failed size w.0;
}

abbrev channel : IsChannel (posix_queue fifo) (posix_queue fifo)
channel = posix_channel fifo fifo (some 3) (some 3) messages

abbrev no_log : Log World
no_log = record { write_log = λ slot w. w }

-- What is printed, and every command that is run, is kept, and every command succeeds.
abbrev shell : Shell World
shell = record {
  system = λ command w. (0, (w.0, w.1 ++ command ∷ []));
  stderr = λ line w. (w.0, w.1 ++ line ∷ []);
}

abbrev table : Bytes
table = codes "blacklist"

abbrev seen : World → List Bytes
seen w = w.1

apart :
    (e : Engine World)
    → IsApart little small_libc small_libc-IsLibc no_log
        (posix_queue fifo)
        (posix_queue fifo)
        e
        channel
        seen
apart e = record {
  sending = λ q text p open_there plain intact clean.
      queue_send-frame fifo fifo (some 3) (some 3) messages (λ w. w.1) q text p (λ d b w. refl)
        clean;
  receiving = λ q size p reader intact clean.
      queue_receive-frame fifo fifo (some 3) (some 3) messages (λ w. w.1) q size p (λ d n w. refl)
        reader intact clean;
  logging = λ slot w. refl;
}

abbrev dummy : Engine World
dummy = dummy_engine shell

abbrev ipset : Engine World
ipset = ipset_engine shell

prints :
    IsEnforcer little small_libc small_libc-IsLibc no_log
      (posix_queue fifo)
      (posix_queue fifo)
      dummy
      channel
      received_line
      seen
      none
      table
prints =
    dummy_enforcer little small_libc small_libc-IsLibc no_log (posix_queue fifo) (posix_queue fifo)
      shell channel (record { lines = seen; prints = λ line w. refl }) none table (apart dummy)

adds :
    IsEnforcer little small_libc small_libc-IsLibc no_log
      (posix_queue fifo)
      (posix_queue fifo)
      ipset
      channel
      (ipset_add table)
      seen
      (some (address 1))
      table
adds =
    ipset_enforcer little small_libc small_libc-IsLibc no_log (posix_queue fifo) (posix_queue fifo)
      shell channel (record { commands = seen; runs = λ c w. refl; succeeds = λ c w. refl })
      (some (address 1)) table (omega arith) (apart ipset)

dummy-Keeps :
    (c : Waiting)
    → Keeps little small_libc no_log
        (posix_queue fifo)
        dummy
        (λ w. (channel.contents w ≡ c) × channel.IsIntact w)
unfolding dummy_handle
dummy-Keeps c = record {
  handles = λ ctxt table addr p wf clean same. (clean, same);
  logs = λ slot w same. same;
}

run_command-apart :
    (command : Bytes) (p : Proc World)
    → let r = run_command shell command p in
      (r.0 ≡ 0) × (r.1.env ≡ p.env) × (r.1.world.0 ≡ p.world.0)
unfolding run_command
run_command-apart command p = elim (Bool-cases (leb 4096 (length command))) [
  | inl long ↦ rw (long, run_command) (refl, refl, refl)
  | inr short ↦ rw (short, run_command) (refl, refl, refl)
]

ipset-Keeps :
    (c : Waiting)
    → Keeps little small_libc no_log
        (posix_queue fifo)
        ipset
        (λ w. (channel.contents w ≡ c) × channel.IsIntact w)
unfolding ipset_handle
ipset-Keeps c = record {
  handles = λ ctxt table addr p wf clean same.
      let (well, env, world) = run_command-apart (ipset_add table addr) p in
      rw (well, env, world) (clean, same);
  logs = λ slot w same. same;
}

abbrev addr_of : Outcome AddrParse → Addr
addr_of (returns r) = r.addr
addr_of (undefined e) = record { sa = []; fa = inet; sa_size = 0; netmask = 0; humanrepr = [] }

abbrev read : Bytes → Addr
read text = addr_of (parse_addr little small_libc text (record { errno = 0; slot = empty }))

reads :
    (e : Engine World)
    → IsRead little small_libc small_libc-IsLibc no_log
        (posix_queue fifo)
        (posix_queue fifo)
        e
        channel
        v4_text
        (read v4_text)
unfolding parse_addr apply_netmask load_words
reads e env clean = (refl, refl, clean)

abbrev opened : PosixQueue
opened = record initial { mq = some 3 }

abbrev start : Waiting
start = v4_text ∷ []

abbrev dummy_system : System little small_libc no_log (posix_queue fifo) (posix_queue fifo) dummy
dummy_system = record {
  server = record {
    queue = opened;
    ctxt = none;
    table = table;
    size = 1025;
    proc = process (start, []);
  };
  clients = λ i. opened;
  accepted = [];
  received = [];
}

dummy_start :
    IsEnforced little small_libc small_libc-IsLibc no_log
      (posix_queue fifo)
      (posix_queue fifo)
      dummy
      channel
      received_line
      seen
      none
      table
      prints
      dummy-Keeps
      start
      []
      read
      dummy_system
unfolding c_text
dummy_start = record {
  given = (refl, refl);
  order = record {
    no_error = refl;
    open_receiver = (refl, omega arith);
    open_senders = λ i. refl;
    intact = ((refl, omega arith), tt);
    sound = (λ errno. inl refl, tt);
    in_order = refl;
  };
  all_read = (reads dummy, tt);
  enforced = refl;
}

abbrev ipset_system : System little small_libc no_log (posix_queue fifo) (posix_queue fifo) ipset
ipset_system = record {
  server = record {
    queue = opened;
    ctxt = some (address 1);
    table = table;
    size = 1025;
    proc = process (start, []);
  };
  clients = λ i. opened;
  accepted = [];
  received = [];
}

ipset_start :
    IsEnforced little small_libc small_libc-IsLibc no_log
      (posix_queue fifo)
      (posix_queue fifo)
      ipset
      channel
      (ipset_add table)
      seen
      (some (address 1))
      table
      adds
      ipset-Keeps
      start
      []
      read
      ipset_system
unfolding c_text
ipset_start = record {
  given = (refl, refl);
  order = record {
    no_error = refl;
    open_receiver = (refl, omega arith);
    open_senders = λ i. refl;
    intact = ((refl, omega arith), tt);
    sound = (λ errno. inl refl, tt);
    in_order = refl;
  };
  all_read = (reads ipset, tt);
  enforced = refl;
}

abbrev events : List Event
events = sends 0 0 v4_text ∷ round ∷ sends 1 4 v4_text ∷ round ∷ []

-- Two clients, and the engine that prints.
run-IsEnforced_example :
    Returns
      (IsEnforced little small_libc small_libc-IsLibc no_log
        (posix_queue fifo)
        (posix_queue fifo)
        dummy
        channel
        received_line
        seen
        none
        table
        prints
        dummy-Keeps
        start
        []
        read)
      (run little small_libc no_log (posix_queue fifo) (posix_queue fifo) dummy events dummy_system)
unfolding c_text
run-IsEnforced_example =
    run-IsEnforced little small_libc small_libc-IsLibc no_log (posix_queue fifo) (posix_queue fifo)
      dummy channel received_line seen none table prints dummy-Keeps start [] read events
      dummy_system ((refl, λ errno. inl refl), (tt, ((refl, λ errno. inl refl), (tt, tt))))
      (reads dummy, (tt, (reads dummy, (tt, tt)))) dummy_start

prompt : IsPrompt (posix_queue fifo) (posix_queue fifo) channel
prompt =
    posix_channel-IsPrompt fifo fifo (some 3) (some 3) messages
      λ size w b rest there room. take_first-ready size w.0 b rest there room

-- A text that waits, and the engine that runs ipset.
run-bans_all_example :
    Returns
      (λ s'.
        (s'.server.proc.world.0 ≡ [])
        × (s'.server.proc.world.1 ≡ ipset_add table (read v4_text) ∷ []))
      (run little small_libc no_log
        (posix_queue fifo)
        (posix_queue fifo)
        ipset
        (replicate 1 round)
        ipset_system)
run-bans_all_example =
    run-bans_all little small_libc small_libc-IsLibc no_log (posix_queue fifo) (posix_queue fifo)
      ipset channel (ipset_add table) seen (some (address 1)) table adds ipset-Keeps start [] read 1
      ipset_system prompt ipset_start refl
