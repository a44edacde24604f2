-- ===== src/Tests/Start.antt =====
-- The start, the options and the end of banipd.c, and banip-cli.c.
use banip.Base.{
  ℕ, ◌≡◌, refl, true, false, [], ◌∷◌, none, some, codes, ◌>>=◌, undefined, invalid_free, Returns,
  arith, some_inj, ◌≢◌,
}
use banip.Process.{done, failed}
use banip.Queue.Posix.{Kernel, initial, posix_queue}
use banip.Engine.{Engine}
use banip.Daemon.Start.Posix.{posix_start_parts}
use banip.Engine.Command.{Shell, ipset_engine, dummy_engine}
use banip.Daemon.Start.{Host, Settings, Statics, engine_step, start}
use banip.Daemon.Start.Steps.{Post}
use banip.Daemon.Start.Laws.{HasUsers, IsStarted, start-IsStarted}
use banip.Daemon.Cleanup.{sigterm, on_signal, cleanup}
use banip.Daemon.Cleanup.Laws.{KeepsNames, IsReleased, cleanup-ipset, on_signal-IsReleased}
use banip.Daemon.Options.{OptionHost}
use banip.Cli.{Terminal, success, send_message, main}
use banip.Cli.Laws.{Ends, EndsTold, send_message-Ends, main-EndsTold}
use banip.Tests.Queue.{Names, the_kernel, the_names, process, name, in_use, owned}

-- A world in which the process runs as `root`, until `setuid` has been called.
abbrev pub root_host : Host ℕ
root_host = record {
  daemon = λ noclose w. (done tt, w);
  write_pid = λ file w. (true, w);
  warn = λ text w. w;
  setgid = λ g w. (done tt, w);
  setgroups = λ gs w. (done tt, w);
  calloc = λ size w. (true, w);
  getuid = λ w. w;
  getpwnam = λ user w. some 65534;
  setuid = λ uid w. (done tt, uid);
  unlink = λ file w. (done tt, w);
  close_log = λ w. w;
  has_log = λ w. false;
  reopen_log = λ w. (true, w);
}

abbrev pub silent : {W : Type 0} → Shell W
silent = record { system = λ command w. (0, w); stderr = λ line w. w }

-- Every call succeeds and leaves the world, which is the user's number, alone.
abbrev pub calm_kernel : Kernel ℕ
calm_kernel = record {
  malloc = λ w. (true, w);
  strdup = λ w. (true, w);
  mq_open = λ file flags attr w. (done 3, w);
  mq_getattr = λ d w. (done (record { maxmsg = 10; msgsize = 1024 }), w);
  mq_receive = λ d size w. (done [], w);
  mq_send = λ d text w. (failed 11, w);
  mq_close = λ d w. (done tt, w);
  mq_unlink = λ file w. (done tt, w);
}

abbrev pub settings : Settings
settings = record {
  daemonize = true;
  verbose = 0;
  gid = some 100;
  queue_name = name;
  table_name = codes "blacklist";
}

abbrev pub fresh : (e : Engine ℕ) → Statics (posix_queue calm_kernel) e root_host
fresh e = record {
  buffer = none;
  ctxt = none;
  queue = some initial;
  pidfile = some (codes "/run/banip.pid");
  proc = process 0;
}

plain_uid : (uid : ℕ) → 65534 ≡ uid → uid ≢ 0
plain_uid uid same zero_uid = omega arith

pub root_users : HasUsers (posix_queue calm_kernel) (dummy_engine silent) root_host
root_users = record {
  becomes = λ uid w w' h. cc h;
  plain = λ w uid given zero_uid. plain_uid uid (some_inj given) zero_uid;
}

start-IsStarted_example :
    Returns
      (Post (posix_queue calm_kernel) (dummy_engine silent) root_host (
        IsStarted
          (posix_queue calm_kernel)
          (dummy_engine silent)
          root_host
          (posix_start_parts calm_kernel silent root_host)))
      (start
        (posix_queue calm_kernel)
        (dummy_engine silent)
        root_host
        settings
        (fresh (dummy_engine silent)))
start-IsStarted_example =
    start-IsStarted (posix_queue calm_kernel) (dummy_engine silent) root_host
      (posix_start_parts calm_kernel silent root_host) root_users settings
      (fresh (dummy_engine silent)) (record { no_error = refl; queue_there = λ h. cc h })

cleanup-ipset_example :
    (do
      (go, s') ←
          engine_step
            (posix_queue calm_kernel)
            (ipset_engine silent)
            root_host
            settings
            (fresh (ipset_engine silent))
      cleanup (posix_queue calm_kernel) (ipset_engine silent) root_host s')
    ≡ undefined invalid_free
cleanup-ipset_example =
    cleanup-ipset (posix_queue calm_kernel) silent root_host settings (fresh (ipset_engine silent))

abbrev names_host : Host Names
names_host = record {
  daemon = λ noclose w. (done tt, w);
  write_pid = λ file w. (true, w);
  warn = λ text w. w;
  setgid = λ g w. (done tt, w);
  setgroups = λ gs w. (done tt, w);
  calloc = λ size w. (true, w);
  getuid = λ w. 1000;
  getpwnam = λ user w. none;
  setuid = λ uid w. (failed 1, w);
  unlink = λ file w. (failed 2, w);
  close_log = λ w. w;
  has_log = λ w. false;
  reopen_log = λ w. (true, w);
}

keeps_names : KeepsNames the_kernel the_names names_host
keeps_names = record {
  unlink_keeps = λ file w n. refl;
  warn_keeps = λ text w n. refl;
  close_log_keeps = λ w n. refl;
}

abbrev running : Statics (posix_queue the_kernel) (dummy_engine silent) names_host
running = record {
  buffer = some 1025;
  ctxt = none;
  queue = some owned;
  pidfile = some (codes "/run/banip.pid");
  proc = process in_use;
}

on_signal-IsReleased_example :
    Returns
      (λ r.
        (r.0 ≡ true)
        × IsReleased the_kernel the_names (dummy_engine silent) names_host keeps_names name r.1)
      (on_signal (posix_queue the_kernel) (dummy_engine silent) names_host sigterm running)
on_signal-IsReleased_example =
    on_signal-IsReleased the_kernel the_names (dummy_engine silent) names_host keeps_names running
      owned name refl refl refl refl refl

abbrev pub option_host : OptionHost ℕ
option_host = record {
  getgrnam = λ group w. (failed 2, w);
  open_log = λ file w. (true, w);
  warn = λ text w. w;
}

abbrev pub dumb : Terminal ℕ
dumb = record { stdout = λ text w. w; stderr = λ text w. w; print_error = λ e w. w }

-- Sending fails, and the status is that of success.
send_message-Ends_example :
    Returns
      (Ends calm_kernel dumb success)
      (send_message (posix_queue calm_kernel) dumb initial (codes "10.1.2.3") (process 0))
send_message-Ends_example =
    send_message-Ends calm_kernel dumb (λ d w. refl) initial (codes "10.1.2.3") (process 0) refl
      refl

main-EndsTold_example :
    Returns
      (EndsTold calm_kernel dumb)
      (main (posix_queue calm_kernel) dumb (name ∷ codes "10.1.2.3" ∷ []) (process 0))
main-EndsTold_example =
    main-EndsTold calm_kernel dumb (λ d w. refl) (name ∷ codes "10.1.2.3" ∷ []) (process 0) refl
