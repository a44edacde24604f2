-- ===== src/Queue/Systemv/State.antt =====
-- queues/systemv.c: the data of a queue, and the calls behind it.
use banip.Base.{ℕ, Bool, Option, none, some, Bytes, if◌then◌else◌, Outcome, returns}
use banip.Error.{generic}
use banip.Process.{Proc, Reply, done, failed, set_world, set_errno, report}
use banip.Queue.{
  QueueErr, ok, general_failure, not_supported, not_owner, QueueAttr, max_message_in_queue,
}

-- The system calls, and the one file that is open at a time.
pub record Kernel (W : Type 0) : Type 0 where
  -- `MAXPATHLEN`
  pub max_path : ℕ
  pub strlcpy : ℕ → Bytes → Bytes × ℕ
  pub malloc : W → Bool × W
  -- the bytes that the memory holds as it is handed out
  pub malloc_bytes : ℕ → W → Option Bytes × W
  pub strdup : W → Bool × W
  -- with "wx" and with "r"
  pub create_file : Bytes → W → Reply (Unit {0}) × W
  pub open_file : Bytes → W → Reply (Unit {0}) × W
  pub write_id : ℕ → W → Reply (Unit {0}) × W
  -- the number, if there are enough bytes
  pub read_id : W → Option ℕ × W
  pub close_file : W → W
  pub ftok : Bytes → ℕ → W → Option ℕ
  -- whether the queue must not exist, and is created
  pub msgget : ℕ → Bool → W → Reply ℕ × W
  -- `msg_qbytes`
  pub msgctl_stat : Option ℕ → W → Reply ℕ × W
  pub msgctl_remove : Option ℕ → W → Reply (Unit {0}) × W
  -- the message, of at most as many bytes as the size given
  pub msgrcv : Option ℕ → ℕ → W → Reply Bytes × W
  pub msgsnd : Option ℕ → Bytes → W → Reply (Unit {0}) × W
  pub unlink : Bytes → W → Reply (Unit {0}) × W

-- `systemv_queue_t`, with the `mtext` of its buffer: the bytes behind the `long`.
pub record SystemvQueue : Type 0 where
  pub qid : Option ℕ
  pub mtext : Option Bytes
  pub filename : Option Bytes
  pub buffer_size : ℕ

abbrev pub initial : SystemvQueue
initial = record { qid = none; mtext = none; filename = none; buffer_size = 0 }

unfoldable pub queue_set_attribute : SystemvQueue → QueueAttr → ℕ → QueueErr × SystemvQueue
queue_set_attribute q attr value = elim q.filename [
  | none ↦ (not_owner, q)
  | some name ↦ (not_supported, q)
]

module _ {W : Type 0} (k : Kernel W) where
  unfoldable pub queue_init : Proc W → Outcome (Option SystemvQueue × Proc W)
  unfolding report
  queue_init p =
      let (got, w) = k.malloc p.world in
      if got
      then returns (some initial, set_world p w)
      else report (set_world p w) (generic "malloc(3) failed to allocate %zu bytes") none

  unfoldable pub queue_get_attribute :
      SystemvQueue → QueueAttr → Proc W → QueueErr × Option ℕ × Proc W
  queue_get_attribute q max_message_in_queue p = (not_supported, none, p)
  queue_get_attribute q _ p =
      let (stat, w) = k.msgctl_stat q.qid p.world in
      elim stat [
        | failed n ↦ (general_failure, none, set_errno (set_world p w) n)
        | done qbytes ↦ (ok, some qbytes, set_world p w)
      ]
