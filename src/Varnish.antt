-- ===== src/Varnish.antt =====
-- clients/varnish4/vmod_msgsend.c: the object `mqueue` of the Varnish module. The checks of the magic
-- numbers and the null arguments that they exclude are left to the types.
pub mod Laws
use banip.Base.{
  ℕ, Bool, true, false, Option, none, some, Bytes, if◌then◌else◌, Outcome, returns, undefined,
  assertion, null_pointer, ◌>>=◌,
}
use banip.Error.{Slot, null, empty, error_free}
use banip.Process.{Proc, set_world, set_slot}
use banip.Queue.{QueueApi, fl_sender}

-- What the module uses of Varnish: the log, and the memory for an object.
pub record Server (W : Type 0) : Type 0 where
  pub log : Slot → W → W
  pub alloc : W → Bool × W

module _ {W : Type 0} (api : QueueApi W) (server : Server W) where
  -- `struct vmod_msgsend_mqueue`
  pub record Mqueue : Type 0 where
    pub queue : Option api.Queue
    pub queue_name : Bytes

  -- `VSLb(...); error_free(&error);`
  unfoldable pub log_error : Proc W → Outcome (Proc W)
  log_error p = do
    slot ← error_free p.env.slot
    returns (set_slot (set_world p (server.log p.env.slot p.world)) slot)

  -- The same, if there is a log: `ctx->vsl` may be null.
  unfoldable pub log_if : Bool → Proc W → Outcome (Proc W)
  unfolding log_error
  log_if true p = log_error p
  log_if false p = returns p

  -- The rest of `vmod_mqueue__init` behind `queue_open`: the queue must be there, and memory for the
  -- object.
  unfoldable pub make_object : Bytes → Option api.Queue → Proc W → Outcome (Mqueue × Proc W)
  make_object name none p = undefined assertion
  make_object name (some q) p =
      let (got, w) = server.alloc p.world in
      if got
      then returns (record { queue = some q; queue_name = name }, set_world p w)
      else undefined assertion

  -- A queue that could not be opened is closed, and its errors are ignored.
  unfoldable pub give_up : Bool → Bytes → api.Queue → Proc W → Outcome (Mqueue × Proc W)
  unfolding log_if make_object
  give_up vsl name q p = do
    p1 ← log_if vsl p
    (closed, q', p2) ← api.queue_close (some q) (set_slot p1 null)
    make_object name q' (set_slot p2 p1.env.slot)

  -- `queue_open` is called although `queue_init` gave a null pointer.
  unfoldable pub open_object : Bool → Bytes → Option api.Queue → Proc W → Outcome (Mqueue × Proc W)
  unfolding give_up
  open_object vsl name none p = do p' ← log_if vsl p; undefined null_pointer
  open_object vsl name (some q) p = do
    (opened, q', p') ← api.queue_open q name fl_sender p
    let made = make_object name (some q') p'
    let closed = give_up vsl name q' p'
    if opened then made else closed

  -- `vmod_mqueue__init` over an empty `*qp`; its own `error` is not the caller's.
  unfoldable pub mqueue_init : Bool → Bytes → Proc W → Outcome (Mqueue × Proc W)
  unfolding open_object
  mqueue_init vsl name p = do
    (made, p1) ← api.queue_init (set_slot p empty)
    (object, p2) ← open_object vsl name made p1
    returns (object, set_slot p2 p.env.slot)

  unfoldable pub mqueue_fini : Mqueue → Proc W → Outcome (Proc W)
  mqueue_fini m p = do
    (closed, q, p') ← api.queue_close m.queue (set_slot p null)
    returns (set_slot p' p.env.slot)

  -- The log is not looked at: a null `ctx->vsl` goes to `VSLb`.
  unfoldable pub log_always : Bool → Proc W → Outcome (Proc W)
  unfolding log_error
  log_always true p = log_error p
  log_always false p = undefined null_pointer

  unfoldable pub mqueue_sendmsg : Bool → Mqueue → Bytes → Proc W → Outcome (Mqueue × Proc W)
  unfolding log_always
  mqueue_sendmsg vsl m text p = elim m.queue [
    | none ↦ undefined null_pointer
    | some q ↦ do
      (sent, q', p1) ← api.queue_send q text none (set_slot p empty)
      let m' : Mqueue = record m { queue = some q' }
      let failed = (do p2 ← log_always vsl p1; returns (m', set_slot p2 p.env.slot))
      if sent then returns (m', set_slot p1 p.env.slot) else failed
  ]
