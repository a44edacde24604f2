-- ===== src/Queue/Systemv/Contract.antt =====
-- The System V queue keeps the contract of queues/queue.h, for fewer names and texts.
pub mod Open
use banip.Base.{
  ℕ, ◌+◌, ◌≡◌, ◌≤◌, ◌<◌, refl, is_some, Bool, true, false, Option, none, some, Bytes, length, drop,
  ◌++◌, ◌∷◌, strchr, Returns, arith, Option-cases, Bool-cases, ltb, take, strchr-more,
  if◌then◌else◌, leb, inl, inr,
}
use banip.Error.{null, empty, Reports, error_set}
use banip.Process.{report_with, Proc, Reply, done, failed, Reply-cases}
use banip.Queue.{got, fl_owner, has_flag}
use banip.Queue.Contract.{Terms, IsQueue}
use banip.Queue.Systemv.{
  Kernel, SystemvQueue, systemv_queue, queue_init, queue_open, queue_send, queue_receive,
  queue_close, overflow, attach, attach_to, get_queue, with_key, create_named, open_named,
  open_plain, open_owned, copy_out, send_mtext,
}
use banip.Queue.Systemv.Contract.Open.{IsBuffered, OpenReports, HasId, IsName, open-Reports}

module _ {W : Type 0} (k : Kernel W) where
  init-Reports :
      (p : Proc W)
      → p.env.slot ≡ empty
      → Returns
          (λ r. Reports (is_some r.0) r.1.env.slot × ((q : SystemvQueue) → r.0 ≡ some q → Unit {0}))
          (queue_init k p)
  unfolding queue_init error_set
  init-Reports p clean = ground arith

  close-Reports :
      (q : Option SystemvQueue) (p : Proc W)
      → p.env.slot ≡ empty
      → Returns (λ r. Reports r.0 r.2.env.slot × (r.0 ≡ true → r.1 ≡ none)) (queue_close k q p)
  unfolding queue_close error_set
  close-Reports none p clean = ground arith
  close-Reports (some q) p clean = ground arith

  close-silent :
      (q : Option SystemvQueue) (p : Proc W)
      → p.env.slot ≡ null
      → Returns (λ r. (r.2.env.slot ≡ null) × (r.0 ≡ true → r.1 ≡ none)) (queue_close k q p)
  unfolding queue_close error_set
  close-silent none p quiet = ground arith
  close-silent (some q) p quiet = ground arith

  -- The buffer is there, and a text fits it with its zero.
  abbrev pub IsText : SystemvQueue → Bytes → Type 0
  IsText q text = (bytes : Bytes) × (q.mtext ≡ some bytes) × (length text < length bytes)

  -- A message that arrives fits the buffer of the queue, holds a zero, and what stands before that fits
  -- the caller's.
  abbrev pub IsRoom : SystemvQueue → ℕ → ℕ → W → Type 0
  IsRoom q capacity size w =
      (b : Bytes)
      → (k.msgrcv q.qid size w).0 ≡ done b
      → ((bytes : Bytes) × (q.mtext ≡ some bytes) × (length b ≤ length bytes))
        × ((text : Bytes) × (rest : Bytes) × (strchr 0 b ≡ some (text, rest))
            × (length text < capacity))

  send-Reports :
      (q : SystemvQueue) (text : Bytes) (p : Proc W)
      → IsText q text
      → p.env.slot ≡ empty
      → Returns (λ r. Reports r.0 r.2.env.slot × IsBuffered k r.1) (queue_send k q text none p)
  unfolding queue_send send_mtext error_set
  send-Reports q text p (bytes, there, short) clean =
      let fits : ltb (length text) (length bytes) ≡ true = ground arith in
      elim (Reply-cases
        (k.msgsnd q.qid (take q.buffer_size (text ++ 0 ∷ drop (length text + 1) bytes))
          p.world).0) [
            | inl (n, e) ↦ rw (there, fits, e, queue_send, send_mtext) (ground arith)
            | inr (u, e) ↦ rw (there, fits, e, queue_send, send_mtext) (ground arith)
          ]

  send-silent :
      (q : SystemvQueue) (text : Bytes) (p : Proc W)
      → IsText q text
      → p.env.slot ≡ null
      → Returns (λ r. (r.2.env.slot ≡ null) × IsBuffered k r.1) (queue_send k q text none p)
  unfolding queue_send send_mtext error_set
  send-silent q text p (bytes, there, short) quiet =
      let fits : ltb (length text) (length bytes) ≡ true = ground arith in
      elim (Reply-cases
        (k.msgsnd q.qid (take q.buffer_size (text ++ 0 ∷ drop (length text + 1) bytes))
          p.world).0) [
            | inl (n, e) ↦ rw (there, fits, e, queue_send, send_mtext) (ground arith)
            | inr (u, e) ↦ rw (there, fits, e, queue_send, send_mtext) (ground arith)
          ]

  receive-Reports :
      (q : SystemvQueue) (capacity size : ℕ) (p : Proc W)
      → IsBuffered k q
      → IsRoom q capacity size p.world
      → p.env.slot ≡ empty
      → Returns
          (λ r. Reports (got r.0) r.2.env.slot × IsBuffered k r.1)
          (queue_receive k q capacity size p)
  unfolding queue_receive copy_out error_set
  receive-Reports q capacity size p buffered room clean = elim (Option-cases q.mtext) [
    | inl absent ↦ absurd (ground arith)
    | inr (bytes, there) ↦ elim (Reply-cases (k.msgrcv q.qid size p.world).0) [
      | inl (n, e) ↦ rw (there, e, queue_receive) (ground arith)
      | inr (b, e) ↦
          let ((bytes', there', short), (text, rest, zero_in, fits)) = room b e in
          let enough : leb (length b) (length bytes) ≡ true = ground arith in
          let enough' : ltb (length text) capacity ≡ true = ground arith in
          rw
            (
              there,
              e,
              enough,
              strchr-more 0 b (drop (length b) bytes) zero_in,
              enough',
              queue_receive,
              copy_out,
            )
            (clean, refl)
    ]
  ]

  -- What the calls of the System V queue are defined for.
  abbrev pub systemv_terms : Terms (systemv_queue k)
  systemv_terms = record {
    IsFresh = λ q. Unit;
    IsOpen = IsBuffered k;
    IsName = IsName k;
    IsText = IsText;
    IsRoom = IsRoom;
  }

  -- The System V queue keeps the contract of the interface: each call with no error pending
  -- returns and leaves an error exactly if it says that it failed; for the owner only if the name
  -- has no `:`, for others only if the file holds a number, and only for texts and messages that
  -- fit the buffers.
  pub systemv_queue-IsQueue : IsQueue (systemv_queue k) systemv_terms
  systemv_queue-IsQueue = record {
    inits = init-Reports;
    opens = λ q name flags p fresh named clean. open-Reports k q name flags p clean named;
    sends = λ q text p opened fits clean. send-Reports q text p fits clean;
    sends_silently = λ q text p opened fits quiet. send-silent q text p fits quiet;
    receives =
        λ q capacity size p opened room clean. receive-Reports q capacity size p opened room clean;
    closes = close-Reports;
    closes_silently = close-silent;
  }
