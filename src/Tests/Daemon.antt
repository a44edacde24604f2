-- ===== src/Tests/Daemon.antt =====
-- The loop of banipd.c over a POSIX queue, with the engine that prints.
use banip.Base.{
  ℕ, ◌≡◌, refl, inl, [], none, some, Bytes, codes, length, Option, ◌≤◌, undefined, returns,
  invalid_free, true, false, strchr, subst, Returns, arith,
}
use banip.Process.{Proc, done}
use banip.Parse.Word.{little}
use banip.Queue.{message}
use banip.Queue.Posix.{PosixQueue, initial, posix_queue, queue_receive}
use banip.Engine.Command.{Shell, dummy_engine}
use banip.Daemon.Serve.{Log, Server, serve, serve_one}
use banip.Daemon.Serve.Laws.{Parts, Benign, IsReady, serve-IsReady, serve_one-bad_both}
use banip.Daemon.Serve.Posix.{HasLimits, posix_parts}
use banip.Tests.Parse.{small_libc, small_libc-IsLibc, no_digit_run}
use banip.Tests.Queue.{Names, small_kernel, process}

abbrev quiet : Shell Names
quiet = record { system = λ command w. (0, w); stderr = λ line w. w }

abbrev no_log : Log Names
no_log = record { write_log = λ slot w. w }

abbrev text : Bytes
text = codes "10.1.2.3"

received_short :
    (d : Option ℕ) (size : ℕ) (w : Names) (b : Bytes)
    → ((small_kernel true text).mq_receive d size w).0 ≡ done b
    → length b ≤ 8
received_short d size w b h = ground arith

abbrev limits : HasLimits (small_kernel true text) quiet no_log
limits = record {
  limit = λ d w. 8;
  within = received_short;
  receive_keeps = λ d size w. refl;
  stderr_keeps = λ d line w. refl;
  log_keeps = λ d slot w. refl;
}

abbrev parts :
    Parts little small_libc no_log (posix_queue (small_kernel true text)) (dummy_engine quiet)
parts = posix_parts little small_libc (small_kernel true text) quiet no_log limits

abbrev server :
    (t : Bytes)
    → Server little small_libc no_log (posix_queue (small_kernel true t)) (dummy_engine quiet)
server t = record {
  queue = record initial { mq = some 3 };
  ctxt = none;
  table = codes "blacklist";
  size = 1025;
  proc = process (λ n. false);
}

text_is :
    (q q' : PosixQueue) (size n : ℕ) (t : Bytes) (p p' : Proc Names)
    → queue_receive (small_kernel true text) q size size p ≡ returns (message n t, q', p')
    → text ≡ t
unfolding queue_receive
text_is q q' size n t p p' received = ground arith

benign : Benign little small_libc no_log (posix_queue (small_kernel true text)) (dummy_engine quiet)
benign q q' size n t p p' received errno =
    inl (subst (λ (u : Bytes). strchr b'/' u ≡ none) (text_is q q' size n t p p' received) refl)

serve-IsReady_example :
    Returns
      (IsReady little small_libc no_log
        (posix_queue (small_kernel true text))
        (dummy_engine quiet)
        small_libc-IsLibc
        parts)
      (serve little small_libc no_log
        (posix_queue (small_kernel true text))
        (dummy_engine quiet)
        1000
        (server text))
serve-IsReady_example =
    serve-IsReady little small_libc no_log (posix_queue (small_kernel true text))
      (dummy_engine quiet) small_libc-IsLibc parts 1000 (server text) benign
      (record { no_error = refl; readable = omega arith })

serve_one-bad_both_example :
    serve_one little small_libc no_log
      (posix_queue (small_kernel true (codes "junk/")))
      (dummy_engine quiet)
      (server (codes "junk/"))
    ≡ undefined invalid_free
unfolding queue_receive
serve_one-bad_both_example =
    serve_one-bad_both little small_libc no_log (posix_queue (small_kernel true (codes "junk/")))
      (dummy_engine quiet) small_libc-IsLibc (server (codes "junk/")) (server []).queue
      (codes "junk") [] 5 2 (process (λ n. false)) refl refl no_digit_run tt refl
