-- ===== src/Tests/Main.antt =====
-- The whole run of banipd.c, over a POSIX queue and the engine that prints.
use banip.Base.{
  ℕ, ◌≡◌, refl, ap, inl, true, false, List, [], ◌∷◌, Option, some, none, Bytes, codes, length, ◌≤◌,
  ◌<◌, subst, strchr, Outcome, returns, undefined, Bool, Returns, arith, ◌∙◌, sym, some_inj,
}
use banip.Error.{empty}
use banip.Process.{Proc, done}
use banip.Parse.Word.{little}
use banip.Queue.{message}
use banip.Queue.Posix.{
  PosixQueue, initial, posix_queue, queue_init, queue_receive, queue_open, get_attribute,
}
use banip.Queue.Posix.Contract.{posix_terms, posix_queue-IsQueue}
use banip.Engine.{Engine, get_default_engine}
use banip.Engine.Command.{dummy_engine}
use banip.Daemon.Serve.{Log}
use banip.Daemon.Serve.Laws.{Parts, Benign}
use banip.Daemon.Serve.Posix.{HasLimits, posix_parts}
use banip.Daemon.Start.{Settings, Statics, start}
use banip.Daemon.Start.Posix.{posix_start_parts}
use banip.Daemon.Options.{Opt, queue, table, verbose, goes, Chosen, take_options, check_operands}
use banip.Daemon.Block.Laws.{Leads}
use banip.Daemon.Main.{defaults, prepare, statics_of, main}
use banip.Daemon.Main.Laws.{Settled, prepare-Settled}
use banip.Daemon.Main.Alive.{IsRunning, main-IsAlive}
use banip.Tests.Parse.{small_libc, small_libc-IsLibc}
use banip.Tests.Queue.{name, process}
use banip.Tests.Start.{calm_kernel, root_host, root_users, option_host, silent}

abbrev pub no_log : Log ℕ
no_log = record { write_log = λ slot w. w }

pub received_short :
    (d : Option ℕ) (size : ℕ) (w : ℕ) (b : Bytes)
    → (calm_kernel.mq_receive d size w).0 ≡ done b
    → length b ≤ 0
received_short d size w b h = ground arith

abbrev pub limits : HasLimits calm_kernel silent no_log
limits = record {
  limit = λ d w. 0;
  within = received_short;
  receive_keeps = λ d size w. refl;
  stderr_keeps = λ d line w. refl;
  log_keeps = λ d slot w. refl;
}

abbrev pub parts : Parts little small_libc no_log (posix_queue calm_kernel) (dummy_engine silent)
parts = posix_parts little small_libc calm_kernel silent no_log limits

pub text_is :
    (q q' : PosixQueue) (size n : ℕ) (t : Bytes) (p p' : Proc ℕ)
    → queue_receive calm_kernel q size size p ≡ returns (message n t, q', p')
    → [] ≡ t
unfolding queue_receive
text_is q q' size n t p p' received = ground arith

pub benign : Benign little small_libc no_log (posix_queue calm_kernel) (dummy_engine silent)
benign q q' size n t p p' received errno =
    inl (subst (λ (u : Bytes). strchr b'/' u ≡ none) (text_is q q' size n t p p' received) refl)

abbrev pub dummy : Engine ℕ
dummy = dummy_engine silent

abbrev options : List Opt
options = queue name ∷ table (codes "blacklist") ∷ []

abbrev pub settings : Settings
settings = record {
  daemonize = false;
  verbose = 0;
  gid = none;
  queue_name = name;
  table_name = codes "blacklist";
}

abbrev pub chosen : Chosen (posix_queue calm_kernel) option_host
chosen = record (defaults (posix_queue calm_kernel) option_host initial dummy (process 0)) {
  queue_name = some name;
  table_name = some (codes "blacklist");
}

prepare-Settled_example :
    Returns
      (Settled (λ r. r.1.proc.env.slot ≡ empty))
      (prepare (posix_queue calm_kernel) option_host (dummy ∷ []) (verbose ∷ []) [] (process 0))
prepare-Settled_example =
    prepare-Settled (posix_queue calm_kernel) option_host (posix_terms calm_kernel)
      (posix_queue-IsQueue calm_kernel) (dummy ∷ []) (verbose ∷ []) [] (process 0) refl

prepared :
    prepare (posix_queue calm_kernel) option_host (dummy ∷ []) options [] (process 0)
    ≡ returns (goes (settings, chosen))
unfolding prepare queue_init take_options check_operands get_default_engine
prepared = refl

abbrev TheStatics : Type 0
TheStatics = Statics (posix_queue calm_kernel) dummy root_host

-- The run of the start, and the buffer with which it ends.
abbrev started : Outcome (Bool × TheStatics)
started =
    start (posix_queue calm_kernel) dummy root_host settings
      (statics_of (posix_queue calm_kernel) option_host root_host chosen)

abbrev buffer_of : Outcome (Bool × TheStatics) → Option ℕ
buffer_of (returns (go, s)) = s.buffer
buffer_of (undefined e) = none

start-buffer : buffer_of started ≡ some 1025
unfolding start queue_open get_attribute
start-buffer = refl

size_is :
    (s : TheStatics) (size : ℕ) → started ≡ returns (true, s) → s.buffer ≡ some size → 0 < size
size_is s size run sized =
    let same : 1025 ≡ size = some_inj (sym start-buffer ∙ ap buffer_of run ∙ sized) in omega arith

pub leads :
    Leads little small_libc small_libc-IsLibc no_log
      (posix_queue calm_kernel)
      dummy
      root_host
      (posix_start_parts calm_kernel silent root_host)
      root_users
      parts
      settings
      (statics_of (posix_queue calm_kernel) option_host root_host chosen)
leads s q size run there sized = size_is s size run sized

main-IsAlive_example :
    IsRunning little small_libc small_libc-IsLibc no_log
      (posix_queue calm_kernel)
      (posix_terms calm_kernel)
      (posix_queue-IsQueue calm_kernel)
      option_host
      root_host
      settings
      chosen
      (posix_start_parts calm_kernel silent root_host)
      root_users
      parts
      (main
        (posix_queue calm_kernel)
        option_host
        root_host
        little
        small_libc
        no_log
        1000
        (dummy ∷ [])
        options
        []
        (process 0))
main-IsAlive_example =
    main-IsAlive little small_libc small_libc-IsLibc no_log (posix_queue calm_kernel)
      (posix_terms calm_kernel) (posix_queue-IsQueue calm_kernel) option_host root_host settings
      chosen (posix_start_parts calm_kernel silent root_host) root_users parts 1000 (dummy ∷ [])
      options [] (process 0) refl prepared leads benign
