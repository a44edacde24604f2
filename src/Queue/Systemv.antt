-- ===== src/Queue/Systemv.antt =====
-- queues/systemv.c: a queue over the msg* calls, which a file stands for. `CAP_RIGHTS_LIMIT` is the
-- constant `true`. A pointer and a `long` have 8 bytes.
pub mod State
pub mod Open
pub mod Transfer
pub mod Contract
pub mod Laws
pub mod Messages
pub mod Channel
pub use banip.Queue.Systemv.State.{Kernel, SystemvQueue, initial}
unfoldable pub use banip.Queue.Systemv.State.{queue_set_attribute, queue_init, queue_get_attribute}
pub use banip.Queue.Systemv.Open.{overflow}
unfoldable pub use banip.Queue.Systemv.Open.{
  attach, attach_to, get_queue, with_key, create_named, open_named, open_plain, open_owned,
  queue_open,
}
unfoldable pub use banip.Queue.Systemv.Transfer.{
  copy_out, queue_receive, send_mtext, queue_send, unlink_file, remove_queue, queue_close,
}
use banip.Base.{
  ℕ, ◌+◌, ◌*◌, ◌/◌, Bool, true, false, List, [], ◌∷◌, ◌++◌, Option, none, some, Bytes, length, take,
  drop, strchr, leb, ltb, if◌then◌else◌, Outcome, returns, undefined, out_of_bounds, null_pointer,
  uninitialised, ◌>>=◌,
}
use banip.Error.{generic, system}
use banip.Process.{Proc, Reply, done, failed, set_world, set_errno, report, report_with}
use banip.Queue.{
  fl_owner, has_flag, QueueErr, ok, general_failure, not_supported, not_owner, QueueAttr,
  max_queue_size, max_message_size, max_message_in_queue, Received, message, no_message, QueueApi,
}

module _ {W : Type 0} (k : Kernel W) where
  -- The operations as the programs link them.
  abbrev pub systemv_queue : QueueApi W
  systemv_queue = record {
    Queue = SystemvQueue;
    queue_init = queue_init k;
    queue_set_attribute = queue_set_attribute;
    queue_open = queue_open k;
    queue_get_attribute = queue_get_attribute k;
    queue_receive = queue_receive k;
    queue_send = queue_send k;
    queue_close = queue_close k;
  }
