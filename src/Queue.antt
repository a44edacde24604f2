-- ===== src/Queue.antt =====
-- queues/queue.h: the flags, results and attributes of a queue, and the operations that both
-- implementations offer, as the programs use them.
pub mod Contract
pub mod Channel
pub mod Posix
pub mod Systemv
use banip.Base.{true, false, ℕ, Bool, not, ◌==◌, Bytes, Option, Outcome, bit_and}
use banip.Process.{Proc}

-- `QUEUE_FL_SENDER` and `QUEUE_FL_OWNER`
abbrev pub fl_sender : ℕ
fl_sender = 1

abbrev pub fl_owner : ℕ
fl_owner = 2

-- `HAS_FLAG` of queues/common.h
abbrev pub has_flag : ℕ → ℕ → Bool
has_flag value flag = not (bit_and value flag == 0)

-- `queue_err_t`
pub data QueueErr : Type 0 where
  ok general_failure not_supported not_owner : QueueErr

-- `queue_attr_t`
pub data QueueAttr : Type 0 where
  max_queue_size max_message_size max_message_in_queue : QueueAttr

-- What `queue_receive` gives: the result, with the text that the buffer then holds, or -1.
pub data Received : Type 0 where
  message : ℕ → Bytes → Received
  no_message : Received

abbrev pub got : Received → Bool
got (message n text) = true
got no_message = false

-- The operations over an implementation's own data and its system calls. A queue that is `none` is a
-- null pointer; a negative length is `none`; `queue_receive` takes the capacity of the buffer beside
-- the size that it is told.
pub record QueueApi (W : Type 0) : Type 1 where
  pub Queue : Type 0
  pub queue_init : Proc W → Outcome (Option Queue × Proc W)
  pub queue_set_attribute : Queue → QueueAttr → ℕ → QueueErr × Queue
  pub queue_open : Queue → Bytes → ℕ → Proc W → Outcome (Bool × Queue × Proc W)
  pub queue_get_attribute : Queue → QueueAttr → Proc W → QueueErr × Option ℕ × Proc W
  pub queue_receive : Queue → ℕ → ℕ → Proc W → Outcome (Received × Queue × Proc W)
  pub queue_send : Queue → Bytes → Option ℕ → Proc W → Outcome (Bool × Queue × Proc W)
  pub queue_close : Option Queue → Proc W → Outcome (Bool × Option Queue × Proc W)
