-- ===== src/Queue/Systemv/Transfer.antt =====
-- queues/systemv.c: `queue_receive`, `queue_send` and `queue_close`.
use banip.Base.{
  ℕ, ◌+◌, Bool, true, false, ◌∷◌, ◌++◌, Option, none, some, Bytes, length, take, drop, strchr, leb,
  ltb, if◌then◌else◌, Outcome, returns, undefined, out_of_bounds, null_pointer,
}
use banip.Error.{system}
use banip.Process.{Proc, done, failed, set_world, set_errno, report_with}
use banip.Queue.{Received, message, no_message}
use banip.Queue.Systemv.State.{Kernel, SystemvQueue}

module _ {W : Type 0} (k : Kernel W) where
  -- `strcpy` from `mtext`, which must hold a zero, and what stands before it must fit.
  unfoldable pub copy_out :
      SystemvQueue → ℕ → ℕ → Bytes → Proc W → Outcome (Received × SystemvQueue × Proc W)
  copy_out q capacity read mtext p = elim (strchr 0 mtext) [
    | none ↦ undefined out_of_bounds
    | some (text, rest) ↦
        if ltb (length text) capacity
        then returns (message read text, record q { mtext = some mtext }, p)
        else undefined out_of_bounds
  ]

  -- `msgrcv` writes to `mtext`, whose size is not looked at.
  unfoldable pub queue_receive :
      SystemvQueue → ℕ → ℕ → Proc W → Outcome (Received × SystemvQueue × Proc W)
  unfolding copy_out report_with
  queue_receive q capacity size p = elim q.mtext [
    | none ↦ undefined null_pointer
    | some mtext ↦
        let (got, w) = k.msgrcv q.qid size p.world in
        let p' = set_world p w in
        elim got [
          | failed n ↦ report_with (set_errno p' n) (system "msgrcv failed" n) no_message q
          | done bytes ↦
              let copied =
                copy_out q capacity (length bytes) (bytes ++ drop (length bytes) mtext) p' in
              if leb (length bytes) (length mtext) then copied else undefined out_of_bounds
        ]
  ]

  -- `msgsnd` of the first `buffer_size` bytes of `mtext`.
  unfoldable pub send_mtext : SystemvQueue → Bytes → Proc W → Outcome (Bool × SystemvQueue × Proc W)
  send_mtext q mtext p =
      let q' = record q { mtext = some mtext } in
      let (sent, w) = k.msgsnd q.qid (take q.buffer_size mtext) p.world in
      let p' = set_world p w in
      elim sent [
        | done _ ↦ returns (true, q', p')
        | failed n ↦ report_with (set_errno p' n) (system "msgsnd failed" n) false q'
      ]

  -- `strcpy` to `mtext`; the length is computed and not used.
  unfoldable pub queue_send :
      SystemvQueue → Bytes → Option ℕ → Proc W → Outcome (Bool × SystemvQueue × Proc W)
  unfolding send_mtext report_with
  queue_send q msg msg_len p = elim q.mtext [
    | none ↦ undefined null_pointer
    | some mtext ↦
        let sent = send_mtext q (msg ++ 0 ∷ drop (length msg + 1) mtext) p in
        if ltb (length msg) (length mtext) then sent else undefined out_of_bounds
  ]

  -- The owner removes the file, and the queue is freed.
  unfoldable pub unlink_file :
      SystemvQueue → Bytes → Proc W → Outcome (Bool × Option SystemvQueue × Proc W)
  unlink_file q name p =
      let (gone, w) = k.unlink name p.world in
      let p' = set_world p w in
      elim gone [
        | done _ ↦ returns (true, none, p')
        | failed n ↦ report_with (set_errno p' n) (system "unlink(\"%s\") failed" n) false (some q)
      ]

  -- The owner removes the queue of the system.
  unfoldable pub remove_queue :
      SystemvQueue → Bytes → Proc W → Outcome (Bool × Option SystemvQueue × Proc W)
  unfolding unlink_file
  remove_queue q name p = elim q.qid [
    | none ↦ unlink_file q name p
    | some d ↦
        let (gone, w) = k.msgctl_remove q.qid p.world in
        let p' = set_world p w in
        elim gone [
          | done _ ↦ unlink_file (record q { qid = none }) name p'
          | failed n ↦
              report_with (set_errno p' n) (system "msgctl(%d, IPC_RMID, NULL) failed" n) false
                (some q)
        ]
  ]

  unfoldable pub queue_close :
      Option SystemvQueue → Proc W → Outcome (Bool × Option SystemvQueue × Proc W)
  unfolding remove_queue report_with
  queue_close none p = returns (true, none, p)
  queue_close (some q) p = elim q.filename [
    | none ↦ returns (true, none, p)
    | some name ↦ remove_queue q name p
  ]
