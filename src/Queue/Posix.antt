-- ===== src/Queue/Posix.antt =====
-- queues/posix.c: a queue over the mq_* calls. `CAP_RIGHTS_LIMIT` is the constant `true`, since
-- queues/capsicum.h disables Capsicum; the branch for `ENOSYS` on FreeBSD is left out.
pub mod Channel
pub mod Laws
pub mod Ownership
pub mod Contract
use banip.Base.{
  ℕ, zero, suc, ◌+◌, ◌≡◌, refl, Bool, true, false, List, [], ◌∷◌, ◌++◌, Option, none, some, Bytes,
  length, take, ltb, leb, if◌then◌else◌, Outcome, returns, undefined, out_of_bounds, null_pointer,
  ◌>>=◌,
}
use banip.Error.{generic, system}
use banip.Process.{Proc, Reply, done, failed, set_world, set_errno, report, report_with}
use banip.Queue.{
  fl_sender, fl_owner, has_flag, QueueErr, ok, general_failure, not_supported, not_owner, QueueAttr,
  max_queue_size, max_message_size, max_message_in_queue, Received, message, no_message, QueueApi,
}

-- `struct mq_attr`
pub record MqAttr : Type 0 where
  pub maxmsg : ℕ
  pub msgsize : ℕ

-- The flags of `mq_open`: write only or read only, and `O_CREAT | O_EXCL`.
pub record OpenFlags : Type 0 where
  pub write_only : Bool
  pub create : Bool

-- The system calls. A descriptor that is `none` is `(mqd_t) -1`.
pub record Kernel (W : Type 0) : Type 0 where
  pub malloc : W → Bool × W
  pub strdup : W → Bool × W
  pub mq_open : Bytes → OpenFlags → MqAttr → W → Reply ℕ × W
  pub mq_getattr : Option ℕ → W → Reply MqAttr × W
  -- the message, of at most as many bytes as the size given
  pub mq_receive : Option ℕ → ℕ → W → Reply Bytes × W
  pub mq_send : Option ℕ → Bytes → W → Reply (Unit {0}) × W
  pub mq_close : Option ℕ → W → Reply (Unit {0}) × W
  pub mq_unlink : Bytes → W → Reply (Unit {0}) × W

-- `posix_queue_t`
pub record PosixQueue : Type 0 where
  pub mq : Option ℕ
  pub filename : Option Bytes
  pub attr : MqAttr

abbrev pub initial : PosixQueue
initial = record { mq = none; filename = none; attr = record { maxmsg = 10; msgsize = 1024 } }

unfoldable pub queue_set_attribute : PosixQueue → QueueAttr → ℕ → QueueErr × PosixQueue
queue_set_attribute q attr value = elim q.filename [
  | none ↦ (not_owner, q)
  | some name ↦ elim attr [
    | max_message_size ↦
        (ok, record q { attr = record { maxmsg = q.attr.maxmsg; msgsize = value } })
    | max_message_in_queue ↦
        (ok, record q { attr = record { maxmsg = value; msgsize = q.attr.msgsize } })
    | max_queue_size ↦ (not_supported, q)
  ]
]

-- `queue_get_attribute` without the process, which it leaves alone.
unfoldable pub get_attribute : PosixQueue → QueueAttr → QueueErr × Option ℕ
get_attribute q max_message_size = (ok, some q.attr.msgsize)
get_attribute q max_message_in_queue = (ok, some q.attr.maxmsg)
get_attribute q max_queue_size = (not_supported, none)

-- The bytes before the first zero.
unfoldable pub c_text : Bytes → Bytes
c_text [] = []
c_text (zero ∷ s) = []
c_text (suc c ∷ s) = suc c ∷ c_text s

module _ {W : Type 0} (k : Kernel W) where
  unfoldable pub queue_init : Proc W → Outcome (Option PosixQueue × Proc W)
  unfolding report
  queue_init p =
      let (got, w) = k.malloc p.world in
      if got
      then returns (some initial, set_world p w)
      else report (set_world p w) (generic "malloc(3) failed to allocate %zu bytes") none

  -- The rest of `queue_open` behind a call of `mq_open` that succeeded.
  unfoldable pub opened_queue :
      PosixQueue → OpenFlags → ℕ → Proc W → Outcome (Bool × PosixQueue × Proc W)
  opened_queue q flags oldmask p =
      let (attr, w) = k.mq_getattr q.mq p.world in
      let attributes : Outcome (Bool × PosixQueue × Proc W) = elim attr [
        | failed n ↦
            report_with (set_errno (set_world p w) n) (system "mq_getattr failed" n) false q
        | done a ↦ returns (true, record q { attr = a }, set_world p w)
      ] in
      if flags.create then returns (true, q, record p { umask = oldmask }) else attributes

  -- `mq_open` and what follows it; `oldmask` is what `umask(0)` gave.
  unfoldable pub open_queue :
      PosixQueue → Bytes → OpenFlags → ℕ → Proc W → Outcome (Bool × PosixQueue × Proc W)
  open_queue q filename flags oldmask p =
      let (opened, w) = k.mq_open filename flags q.attr p.world in
      let p' = set_world p w in
      elim opened [
        | failed n ↦
            report_with (set_errno (if flags.create then record p' { umask = oldmask } else p') n)
              (system "mq_open(\"%s\", %u, 0660, %p) failed" n) false (record q { mq = none })
        | done d ↦ opened_queue (record q { mq = some d }) flags oldmask p'
      ]

  -- `umask(0)`, `strdup` and what follows them.
  unfoldable pub owner_open :
      PosixQueue → Bytes → OpenFlags → Proc W → Outcome (Bool × PosixQueue × Proc W)
  owner_open q filename flags p =
      let (copied, w) = k.strdup p.world in
      let p' = record p { umask = 0; world = w } in
      let opened = open_queue (record q { filename = some filename }) filename flags p.umask p' in
      if copied
      then opened
      else report_with p' (generic "strdup failed to copy \"%s\"") false
          (record q { filename = none })

  unfoldable pub queue_open : PosixQueue → Bytes → ℕ → Proc W → Outcome (Bool × PosixQueue × Proc W)
  unfolding owner_open open_queue opened_queue report_with
  queue_open q filename flags p =
      let access : OpenFlags = record {
        write_only = has_flag flags fl_sender;
        create = has_flag flags fl_owner;
      } in
      if access.create
      then owner_open q filename access p
      else open_queue q filename access p.umask p

  -- The terminating zero is written at the index that `mq_receive` returns.
  unfoldable pub queue_receive :
      PosixQueue → ℕ → ℕ → Proc W → Outcome (Received × PosixQueue × Proc W)
  unfolding report_with c_text
  queue_receive q capacity size p =
      let (got, w) = k.mq_receive q.mq size p.world in
      let p' = set_world p w in
      elim got [
        | done bytes ↦
            if ltb (length bytes) capacity
            then returns (message (length bytes) (c_text bytes), q, p')
            else undefined out_of_bounds
        | failed n ↦ report_with (set_errno p' n) (system "mq_receive failed" n) no_message q
      ]

  unfoldable pub send_bytes : PosixQueue → Bytes → Proc W → Outcome (Bool × PosixQueue × Proc W)
  send_bytes q bytes p =
      let (sent, w) = k.mq_send q.mq bytes p.world in
      let p' = set_world p w in
      elim sent [
        | done _ ↦ returns (true, q, p')
        | failed n ↦
            report_with (set_errno p' n) (system "mq_send failed to send \"%.*s\"" n) false q
      ]

  -- A length that is not negative must not exceed the array, of which the last byte is zero.
  unfoldable pub queue_send :
      PosixQueue → Bytes → Option ℕ → Proc W → Outcome (Bool × PosixQueue × Proc W)
  unfolding send_bytes report_with
  queue_send q msg msg_len p =
      let len : ℕ = elim msg_len [ none ↦ length msg | some n ↦ n ] in
      let result = send_bytes q (take len (msg ++ 0 ∷ [])) p in
      if leb len (length msg + 1) then result else undefined out_of_bounds

  -- The second half of `queue_close`: the owner removes the name, and the queue is freed.
  unfoldable pub unlink_queue : PosixQueue → Proc W → Outcome (Bool × Option PosixQueue × Proc W)
  unlink_queue q p = elim q.filename [
    | none ↦ returns (true, none, p)
    | some name ↦
        let (gone, w) = k.mq_unlink name p.world in
        let p' = set_world p w in
        elim gone [
          | done _ ↦ returns (true, none, p')
          | failed n ↦ report_with (set_errno p' n) (system "mq_unlink failed" n) false (some q)
        ]
  ]

  unfoldable pub close_queue : PosixQueue → Proc W → Outcome (Bool × Option PosixQueue × Proc W)
  close_queue q p = elim q.mq [
    | none ↦ unlink_queue q p
    | some d ↦
        let (closed, w) = k.mq_close q.mq p.world in
        let p' = set_world p w in
        elim closed [
          | done _ ↦ unlink_queue (record q { mq = none }) p'
          | failed n ↦ report_with (set_errno p' n) (system "mq_close failed" n) false (some q)
        ]
  ]

  unfoldable pub queue_close :
      Option PosixQueue → Proc W → Outcome (Bool × Option PosixQueue × Proc W)
  unfolding close_queue unlink_queue report_with
  queue_close none p = returns (true, none, p)
  queue_close (some q) p = close_queue q p

  -- The operations as the programs link them.
  abbrev pub posix_queue : QueueApi W
  posix_queue = record {
    Queue = PosixQueue;
    queue_init = queue_init;
    queue_set_attribute = queue_set_attribute;
    queue_open = queue_open;
    queue_get_attribute = λ q attr p. let (e, v) = get_attribute q attr in (e, v, p);
    queue_receive = queue_receive;
    queue_send = queue_send;
    queue_close = queue_close;
  }
