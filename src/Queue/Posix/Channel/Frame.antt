-- ===== src/Queue/Posix/Channel/Frame.antt =====
-- What the calls on an open POSIX queue leave alone.
use banip.Base.{ℕ, ◌≡◌, Option, none, Bytes, All, Returns, Returns-mono, ap, ◌∙◌}
use banip.Error.{empty, Reports}
use banip.Process.{Proc}
use banip.Queue.{got}
use banip.Queue.Posix.{Kernel, PosixQueue, queue_send, queue_receive}
use banip.Queue.Posix.Laws.{is_done, queue_send_text}
use banip.Queue.Posix.Channel.{HasMessages, IsHeld, IsReader, received_of, receive_heard, short}

module _ {W : Type 0} (ks kr : Kernel W) (ds dr : Option ℕ) (H : HasMessages ks kr ds dr)
    {B : Type 0} (f : W → B) where
  -- What `mq_send` leaves alone, `queue_send` does.
  pub queue_send-frame :
      (q : PosixQueue) (text : Bytes) (p : Proc W)
      → ((d : Option ℕ) (b : Bytes) (w : W) → f (ks.mq_send d b w).1 ≡ f w)
      → p.env.slot ≡ empty
      → Returns (λ r. f r.2.world ≡ f p.world) (queue_send ks q text none p)
  queue_send-frame q text p still clean =
      Returns-mono
        (λ r.
          (r.0 ≡ is_done (ks.mq_send q.mq text p.world).0)
          × Reports r.0 r.2.env.slot
          × (r.1 ≡ q)
          × (r.2.world ≡ (ks.mq_send q.mq text p.world).1))
        _ _ (queue_send_text ks q text p clean)
        λ r (ok, reports, kept, world). ap f world ∙ still q.mq text p.world

  -- What `mq_receive` leaves alone, `queue_receive` does.
  pub queue_receive-frame :
      (q : PosixQueue) (size : ℕ) (p : Proc W)
      → ((d : Option ℕ) (n : ℕ) (w : W) → f (kr.mq_receive d n w).1 ≡ f w)
      → IsReader ks kr ds dr H q size
      → All (IsHeld ks kr ds dr H) (H.messages p.world)
      → p.env.slot ≡ empty
      → Returns (λ r. f r.2.world ≡ f p.world) (queue_receive kr q size size p)
  queue_receive-frame q size p still (same, room) waiting clean =
      Returns-mono
        (λ r.
          (r.0 ≡ received_of (kr.mq_receive q.mq size p.world).0)
          × Reports (got r.0) r.2.env.slot
          × (r.1 ≡ q)
          × (r.2.world ≡ (kr.mq_receive q.mq size p.world).1))
        _ _
        (receive_heard ks kr ds dr H q size p clean
          λ b e. short ks kr ds dr H size p.world b (rw same at e) waiting room)
        λ r (answer, reports, kept, world). ap f world ∙ still q.mq size p.world
