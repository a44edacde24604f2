-- ===== src/Queue/Posix/Contract.antt =====
-- The POSIX queue keeps the contract of queues/queue.h.
use banip.Base.{
  leb, ◌+◌, take-append, inl, inr, ℕ, ◌≡◌, ◌<◌, is_some, Option, none, some, Bytes, length, true,
  Returns, Returns-mono, arith,
}
use banip.Error.{null, empty, Reports, error_set}
use banip.Process.{Reply-cases, Proc, done}
use banip.Queue.{got}
use banip.Queue.Contract.{Terms, IsQueue}
use banip.Queue.Posix.{
  send_bytes, Kernel, PosixQueue, posix_queue, queue_init, queue_open, queue_send, queue_receive,
  queue_close,
}
use banip.Queue.Posix.Laws.{Opens, is_done, queue_open_lem, queue_send_text, queue_receive_lem}

module _ {W : Type 0} (k : Kernel W) where
  -- A message that arrives must be shorter than the buffer.
  abbrev pub IsShort : PosixQueue → ℕ → ℕ → W → Type 0
  IsShort q capacity size w =
      (b : Bytes) → (k.mq_receive q.mq size w).0 ≡ done b → length b < capacity

  init-Reports :
      (p : Proc W)
      → p.env.slot ≡ empty
      → Returns
          (λ r. Reports (is_some r.0) r.1.env.slot × ((q : PosixQueue) → r.0 ≡ some q → Unit {0}))
          (queue_init k p)
  unfolding queue_init error_set
  init-Reports p clean = ground arith

  open-Reports :
      (q : PosixQueue) (name : Bytes) (flags : ℕ) (p : Proc W)
      → p.env.slot ≡ empty
      → Returns
          (λ r. Reports r.0 r.2.env.slot × (r.0 ≡ true → Unit {0}))
          (queue_open k q name flags p)
  open-Reports q name flags p clean =
      Returns-mono (Opens k p flags) _ _ (queue_open_lem k q name flags p clean)
        λ r h. (h.reported, λ e. tt)

  close-Reports :
      (q : Option PosixQueue) (p : Proc W)
      → p.env.slot ≡ empty
      → Returns (λ r. Reports r.0 r.2.env.slot × (r.0 ≡ true → r.1 ≡ none)) (queue_close k q p)
  unfolding queue_close error_set
  close-Reports none p clean = ground arith
  close-Reports (some q) p clean = ground arith

  close-silent :
      (q : Option PosixQueue) (p : Proc W)
      → p.env.slot ≡ null
      → Returns (λ r. (r.2.env.slot ≡ null) × (r.0 ≡ true → r.1 ≡ none)) (queue_close k q p)
  unfolding queue_close error_set
  close-silent none p quiet = ground arith
  close-silent (some q) p quiet = ground arith

  send-Reports :
      (q : PosixQueue) (text : Bytes) (p : Proc W)
      → p.env.slot ≡ empty
      → Returns (λ r. Reports r.0 r.2.env.slot × Unit {0}) (queue_send k q text none p)
  unfolding queue_send error_set
  send-Reports q text p clean =
      Returns-mono
        (λ r.
          (r.0 ≡ is_done (k.mq_send q.mq text p.world).0)
          × Reports r.0 r.2.env.slot
          × (r.1 ≡ q)
          × (r.2.world ≡ (k.mq_send q.mq text p.world).1))
        _ _ (queue_send_text k q text p clean) λ r h. (h.1, tt)

  send-silent :
      (q : PosixQueue) (text : Bytes) (p : Proc W)
      → p.env.slot ≡ null
      → Returns (λ r. (r.2.env.slot ≡ null) × Unit {0}) (queue_send k q text none p)
  unfolding queue_send send_bytes error_set
  send-silent q text p quiet =
      let fits : leb (length text) (length text + 1) ≡ true = ground arith in
      rw (fits, take-append)
        (elim (Reply-cases (k.mq_send q.mq text p.world).0) [
          | inl (n, e) ↦ rw (e, send_bytes) (ground arith)
          | inr (b, e) ↦ rw (e, send_bytes) (ground arith)
        ])

  receive-Reports :
      (q : PosixQueue) (capacity size : ℕ) (p : Proc W)
      → IsShort q capacity size p.world
      → p.env.slot ≡ empty
      → Returns (λ r. Reports (got r.0) r.2.env.slot × Unit {0}) (queue_receive k q capacity size p)
  receive-Reports q capacity size p room clean =
      Returns-mono
        (λ r.
          (r.1 ≡ q)
          × Reports (got r.0) r.2.env.slot
          × (r.2.world ≡ (k.mq_receive q.mq size p.world).1))
        _ _ (queue_receive_lem k q capacity size p clean room) λ r h. (h.1, tt)

  -- Any name and any text will do, and any queue.
  abbrev pub posix_terms : Terms (posix_queue k)
  posix_terms = record {
    IsFresh = λ q. Unit;
    IsOpen = λ q. Unit;
    IsName = λ name flags w. Unit;
    IsText = λ q text. Unit;
    IsRoom = IsShort;
  }

  -- The POSIX queue keeps the contract of the interface for every queue, name and text: each call
  -- with no error pending returns and leaves an error exactly if it says that it failed, as long
  -- as the messages that arrive are shorter than the buffer.
  pub posix_queue-IsQueue : IsQueue (posix_queue k) posix_terms
  posix_queue-IsQueue = record {
    inits = init-Reports;
    opens = λ q name flags p fresh named clean. open-Reports q name flags p clean;
    sends = λ q text p opened fits clean. send-Reports q text p clean;
    sends_silently = λ q text p opened fits quiet. send-silent q text p quiet;
    receives = λ q capacity size p opened room clean. receive-Reports q capacity size p room clean;
    closes = close-Reports;
    closes_silently = close-silent;
  }
