-- ===== src/Queue/Posix/Channel.antt =====
-- Two processes that have the same POSIX queue open.
pub mod Frame
use banip.Base.{
  ℕ, ◌≡◌, ◌≤◌, ◌<◌, refl, sym, ◌∙◌, true, List, [], ◌∷◌, ◌++◌, Option, none, Bytes, length, All,
  All-append, ltb, Returns, Returns-mono, arith, inl, inr,
}
use mathlib.Core.List.{append-nil}
use banip.Error.{empty, Reports, error_set}
use banip.Process.{Proc, Reply, Reply-cases, done, failed}
use banip.Queue.{got, Received, message, no_message}
use banip.Queue.Channel.{IsChannel, IsPrompt, heard, sent_if}
use banip.Queue.Posix.Laws.{is_done, queue_send_text}
use banip.Queue.Posix.{Kernel, PosixQueue, posix_queue, c_text, queue_send, queue_receive}

-- What `mq_send` and `mq_receive` document, for descriptors of one queue: the messages of one priority
-- are kept in order, none is longer than the limit, and a call that fails changes nothing.
pub record HasMessages {W : Type 0} (ks kr : Kernel W) (ds dr : Option ℕ) : Type 0 where
  pub messages : W → List Bytes
  pub limit : ℕ
  pub accepts :
      (text : Bytes) (w : W)
      → (ks.mq_send ds text w).0 ≡ done tt
      → (messages (ks.mq_send ds text w).1 ≡ messages w ++ text ∷ []) × (length text ≤ limit)
  pub refuses :
      (text : Bytes) (w : W) (n : ℕ)
      → (ks.mq_send ds text w).0 ≡ failed n
      → messages (ks.mq_send ds text w).1 ≡ messages w
  pub gives :
      (size : ℕ) (w : W) (b : Bytes)
      → (kr.mq_receive dr size w).0 ≡ done b
      → messages w ≡ b ∷ messages (kr.mq_receive dr size w).1
  pub withholds :
      (size : ℕ) (w : W) (n : ℕ)
      → (kr.mq_receive dr size w).0 ≡ failed n
      → messages (kr.mq_receive dr size w).1 ≡ messages w

-- What `queue_receive` makes of an answer.
abbrev pub received_of : Reply Bytes → Received
received_of (done b) = message (length b) (c_text b)
received_of (failed n) = no_message

module _ {W : Type 0} (ks kr : Kernel W) (ds dr : Option ℕ) (H : HasMessages ks kr ds dr) where
  -- A C string, and one that the queue can hold.
  abbrev pub IsCText : Bytes → Type 0
  IsCText text = c_text text ≡ text

  abbrev pub IsHeld : Bytes → Type 0
  IsHeld text = IsCText text × (length text ≤ H.limit)

  abbrev pub IsReader : PosixQueue → ℕ → Type 0
  IsReader q size = (q.mq ≡ dr) × (H.limit < size)

  appended :
      (text : Bytes) (w : W) (reply : Reply (Unit {0}))
      → (ks.mq_send ds text w).0 ≡ reply
      → H.messages (ks.mq_send ds text w).1 ≡ H.messages w ++ sent_if (is_done reply) text
  appended text w (done u) e = (H.accepts text w e).0
  appended text w (failed n) e = H.refuses text w n e ∙ sym (append-nil (H.messages w))

  held :
      (text : Bytes) (w : W) (reply : Reply (Unit {0}))
      → (ks.mq_send ds text w).0 ≡ reply
      → IsCText text
      → All IsHeld (sent_if (is_done reply) text)
  held text w (done u) e plain = ((plain, (H.accepts text w e).1), tt)
  held text w (failed n) e plain = tt

  pub sends-appends :
      (q : PosixQueue) (text : Bytes) (p : Proc W)
      → q.mq ≡ ds
      → IsCText text
      → All IsHeld (H.messages p.world)
      → p.env.slot ≡ empty
      → Returns
          (λ r.
            Reports r.0 r.2.env.slot
            × (r.1.mq ≡ ds)
            × (H.messages r.2.world ≡ H.messages p.world ++ sent_if r.0 text)
            × All IsHeld (H.messages r.2.world))
          (queue_send ks q text none p)
  sends-appends q text p same plain waiting clean =
      Returns-mono
        (λ r.
          (r.0 ≡ is_done (ks.mq_send q.mq text p.world).0)
          × Reports r.0 r.2.env.slot
          × (r.1 ≡ q)
          × (r.2.world ≡ (ks.mq_send q.mq text p.world).1))
        _ _ (queue_send_text ks q text p clean)
        λ r (ok, reports, kept, world). (
          reports,
          rw kept same,
          rw (world, ok, same) (appended text p.world _ refl),
          rw (world, same, appended text p.world _ refl)
              (All-append IsHeld (H.messages p.world) _ waiting (held text p.world _ refl plain)),
        )

  -- What `mq_receive` gives, and what waits behind it.
  taken :
      (size : ℕ) (w : W) (reply : Reply Bytes)
      → (kr.mq_receive dr size w).0 ≡ reply
      → All IsHeld (H.messages w)
      → H.messages w ≡ heard (received_of reply) ++ H.messages (kr.mq_receive dr size w).1
  taken size w (done b) e waiting =
      let given = H.gives size w b e in rw (rw given at waiting).0.0 given
  taken size w (failed n) e waiting = sym (H.withholds size w n e)

  mq_receive-IsHeld :
      (size : ℕ) (w : W) (reply : Reply Bytes)
      → (kr.mq_receive dr size w).0 ≡ reply
      → All IsHeld (H.messages w)
      → All IsHeld (H.messages (kr.mq_receive dr size w).1)
  mq_receive-IsHeld size w (done b) e waiting = (rw (H.gives size w b e) at waiting).1
  mq_receive-IsHeld size w (failed n) e waiting = rw (H.withholds size w n e) waiting

  pub short :
      (size : ℕ) (w : W) (b : Bytes)
      → (kr.mq_receive dr size w).0 ≡ done b
      → All IsHeld (H.messages w)
      → H.limit < size
      → length b < size
  short size w b e waiting room =
      let held_b = (rw (H.gives size w b e) at waiting).0.1 in omega arith

  pub receive_heard :
      (q : PosixQueue) (size : ℕ) (p : Proc W)
      → p.env.slot ≡ empty
      → ((b : Bytes) → (kr.mq_receive q.mq size p.world).0 ≡ done b → length b < size)
      → Returns
          (λ r.
            (r.0 ≡ received_of (kr.mq_receive q.mq size p.world).0)
            × Reports (got r.0) r.2.env.slot
            × (r.1 ≡ q)
            × (r.2.world ≡ (kr.mq_receive q.mq size p.world).1))
          (queue_receive kr q size size p)
  unfolding queue_receive error_set
  receive_heard q size p clean fits = elim (Reply-cases (kr.mq_receive q.mq size p.world).0) [
    | inl (n, e) ↦ rw (e, clean, queue_receive, error_set) (refl, tt, refl, refl)
    | inr (b, e) ↦
        let enough : ltb (length b) size ≡ true = ground (arith, fits b e) in
        rw (e, enough, queue_receive) (refl, clean, refl, refl)
  ]

  pub receives-takes :
      (q : PosixQueue) (size : ℕ) (p : Proc W)
      → IsReader q size
      → All IsHeld (H.messages p.world)
      → p.env.slot ≡ empty
      → Returns
          (λ r.
            Reports (got r.0) r.2.env.slot
            × IsReader r.1 size
            × (H.messages p.world ≡ heard r.0 ++ H.messages r.2.world)
            × All IsHeld (H.messages r.2.world))
          (queue_receive kr q size size p)
  receives-takes q size p (same, room) waiting clean =
      Returns-mono
        (λ r.
          (r.0 ≡ received_of (kr.mq_receive q.mq size p.world).0)
          × Reports (got r.0) r.2.env.slot
          × (r.1 ≡ q)
          × (r.2.world ≡ (kr.mq_receive q.mq size p.world).1))
        _ _ (receive_heard q size p clean λ b e. short size p.world b (rw same at e) waiting room)
        λ r (answer, reports, kept, world). (
          reports,
          (rw kept same, room),
          rw (world, answer, same) (taken size p.world _ refl waiting),
          rw (world, same) (mq_receive-IsHeld size p.world _ refl waiting),
        )

  -- For two processes that have a POSIX queue open, one to send and one to receive with a buffer longer
  -- than its limit: texts arrive once and in order.
  abbrev pub posix_channel : IsChannel (posix_queue ks) (posix_queue kr)
  posix_channel = record {
    contents = H.messages;
    IsSender = λ q. q.mq ≡ ds;
    IsReceiver = IsReader;
    IsText = IsCText;
    IsIntact = λ w. All IsHeld (H.messages w);
    sends = sends-appends;
    receives = λ q size p. receives-takes q size p;
  }

  -- If `mq_receive` gives a message that waits, whenever the buffer is long enough, so does
  -- `queue_receive`.
  pub posix_channel-IsPrompt :
      ((size : ℕ) (w : W) (b : Bytes) (rest : List Bytes)
        → H.messages w ≡ b ∷ rest
        → H.limit < size
        → (kr.mq_receive dr size w).0 ≡ done b)
      → IsPrompt (posix_queue ks) (posix_queue kr) posix_channel
  posix_channel-IsPrompt ready = record {
    waiting = λ q size p text rest (same, room) waiting there clean.
        Returns-mono
          (λ r.
            (r.0 ≡ received_of (kr.mq_receive q.mq size p.world).0)
            × Reports (got r.0) r.2.env.slot
            × (r.1 ≡ q)
            × (r.2.world ≡ (kr.mq_receive q.mq size p.world).1))
          _ _ (receive_heard q size p clean λ b e. short size p.world b (rw same at e) waiting room)
          λ r (answer, reports, kept, world).
            let given = ready size p.world text rest there room in rw (answer, same, given) refl;
  }
