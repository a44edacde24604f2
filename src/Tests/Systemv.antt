-- ===== src/Tests/Systemv.antt =====
-- queues/systemv.c over a kernel that keeps the last message, and both queues as what the programs see.
use banip.Base.{
  ◌-◌, ◌≡◌, refl, true, [], some, none, Bytes, codes, length, take, replicate, Returns, ◌>>=◌,
  arith,
}
use banip.Process.{done, failed}
use banip.Queue.{fl_owner, message}
use banip.Queue.Contract.{IsQueue}
use banip.Queue.Posix.{posix_queue}
use banip.Queue.Posix.Contract.{posix_terms, posix_queue-IsQueue}
use banip.Queue.Systemv.{
  Kernel, SystemvQueue, initial, systemv_queue, queue_open, queue_send, queue_receive, queue_close,
}
use banip.Queue.Systemv.Contract.{systemv_terms, systemv_queue-IsQueue}
use banip.Queue.Systemv.Laws.{send_receive, second_owner_keeps}
use banip.Tests.Queue.{process, the_kernel}

-- The file is there, so that no owner can create it; the world is the last message.
abbrev mailbox : Kernel Bytes
mailbox = record {
  max_path = 1024;
  strlcpy = λ n s. (take (n - 1) s, length s);
  malloc = λ w. (true, w);
  malloc_bytes = λ n w. (some (replicate n 0), w);
  strdup = λ w. (true, w);
  create_file = λ file w. (failed 17, w);
  open_file = λ file w. (done tt, w);
  write_id = λ id w. (done tt, w);
  read_id = λ w. (some 98, w);
  close_file = λ w. w;
  ftok = λ file id w. some 5;
  msgget = λ key create w. (done 7, w);
  msgctl_stat = λ d w. (done 512, w);
  msgctl_remove = λ d w. (done tt, w);
  msgrcv = λ d size w. (done w, w);
  msgsnd = λ d bytes w. (done tt, bytes);
  unlink = λ file w. (done tt, w);
}

abbrev opened : SystemvQueue
opened = record initial { qid = some 7; mtext = some (replicate 504 0); buffer_size = 64 }

abbrev file : Bytes
file = codes "/tmp/banip"

abbrev text : Bytes
text = codes "10.1.2.3"

posix_queue-IsQueue_example : IsQueue (posix_queue the_kernel) (posix_terms the_kernel)
posix_queue-IsQueue_example = posix_queue-IsQueue the_kernel

systemv_queue-IsQueue_example : IsQueue (systemv_queue mailbox) (systemv_terms mailbox)
systemv_queue-IsQueue_example = systemv_queue-IsQueue mailbox

send_receive_example :
    Returns
      (λ t. t.0 ≡ message 64 text)
      (do
        (sent, q', p') ← queue_send mailbox opened text none (process [])
        queue_receive mailbox opened 1025 1025 p')
send_receive_example =
    send_receive mailbox opened opened text (replicate 504 0) (replicate 504 0) 1025 1025
      (process []) refl (omega arith) (omega arith) refl refl (omega arith) (omega arith) refl refl

second_owner_keeps_example :
    Returns
      (λ r. (r.1 ≡ none) × (r.2.world ≡ []))
      (do
        (opened, q, p) ← queue_open mailbox initial file fl_owner (process [])
        queue_close mailbox (some q) p)
second_owner_keeps_example = second_owner_keeps mailbox file 17 (process []) refl refl refl refl
