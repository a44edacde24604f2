-- ===== src/Queue/Posix/Laws.antt =====
-- The calls on a POSIX queue, on every branch: what they report and what they leave behind.
use banip.Base.{
  ℕ, ◌+◌, ◌<◌, ◌≡◌, refl, ◌≢◌, ◌⊎◌, inl, inr, Bool, true, false, List, [], ◌∷◌, none, some, Bytes,
  length, leb, take-append, returns, Returns, arith,
}
use banip.Error.{empty, error_set, Reports}
use banip.Process.{Proc, Reply, done, failed, Reply-cases}
use banip.Queue.{got, fl_owner, has_flag, not_owner, QueueAttr}
use banip.Queue.Posix.{
  Kernel, PosixQueue, initial, queue_set_attribute, queue_init, queue_open, queue_receive,
  send_bytes, queue_send,
}

-- Settings made one after another; the results are not looked at.
abbrev set_all : PosixQueue → List (QueueAttr × ℕ) → PosixQueue
set_all q [] = q
set_all q ((attr, value) ∷ rest) = set_all (queue_set_attribute q attr value).1 rest

queue_init-initial :
    {W : Type 0} (k : Kernel W) (p : Proc W) {q : PosixQueue} {p' : Proc W}
    → queue_init k p ≡ returns (some q, p')
    → q ≡ initial
unfolding queue_init error_set
queue_init-initial k p init = ground arith

pub set_attribute-not_owner :
    (q : PosixQueue) (attr : QueueAttr) (value : ℕ)
    → q.filename ≡ none
    → queue_set_attribute q attr value ≡ (not_owner, q)
unfolding queue_set_attribute
set_attribute-not_owner q attr value h = ground arith

set_all-unowned :
    (q : PosixQueue) (settings : List (QueueAttr × ℕ)) → q.filename ≡ none → set_all q settings ≡ q
set_all-unowned q [] h = refl
set_all-unowned q ((attr, value) ∷ rest) h =
    rw (set_attribute-not_owner q attr value h) (set_all-unowned q rest h)

-- In the order of calls that queue.h documents, `queue_set_attribute` comes before `queue_open`, and
-- there it always answers that the process is not the owner; no setting has an effect.
set_attribute_unopened :
    {W : Type 0} (k : Kernel W) (p : Proc W) (settings : List (QueueAttr × ℕ)) (attr : QueueAttr)
    (value : ℕ) {q : PosixQueue} {p' : Proc W}
    → queue_init k p ≡ returns (some q, p')
    → (set_all q settings ≡ q)
      × (queue_set_attribute (set_all q settings) attr value ≡ (not_owner, q))
set_attribute_unopened k p settings attr value {q} init =
    let same = queue_init-initial k p init in
    let kept = set_all-unowned q settings (rw same refl) in
    (kept, rw kept (set_attribute-not_owner q attr value (rw same refl)))

abbrev pub is_done : {A : Type 0} → Reply A → Bool
is_done (done a) = true
is_done (failed n) = false

module _ {W : Type 0} (k : Kernel W) where
  -- What `queue_open` comes to with no error pending.
  pub record Opens (p : Proc W) (flags : ℕ) (r : Bool × PosixQueue × Proc W) : Type 0 where
    pub reported : Reports r.0 r.2.env.slot
    pub usable : r.0 ≡ true → r.1.mq ≢ none
    pub mask :
        (has_flag flags fl_owner ≡ false) ⊎ ((k.strdup p.world).0 ≡ true) → r.2.umask ≡ p.umask

  -- With no error pending, `queue_open` returns: it succeeds with a descriptor and no error, or fails
  -- with an error; the mode mask is as before, unless it is the owner whose `strdup` fails.
  pub queue_open_lem :
      (q : PosixQueue) (name : Bytes) (flags : ℕ) (p : Proc W)
      → p.env.slot ≡ empty
      → Returns (Opens p flags) (queue_open k q name flags p)
  unfolding queue_open error_set
  queue_open_lem q name flags p clean = ground arith

  -- If `strdup` fails for the owner, the process is left with the mode mask 0.
  pub queue_open-umask_lost :
      (q : PosixQueue) (name : Bytes) (flags : ℕ) (p : Proc W)
      → p.env.slot ≡ empty
      → has_flag flags fl_owner ≡ true
      → (k.strdup p.world).0 ≡ false
      → Returns (λ r. (r.0 ≡ false) × (r.2.umask ≡ 0)) (queue_open k q name flags p)
  unfolding queue_open error_set
  queue_open-umask_lost q name flags p clean owner out = ground arith

  -- A message that is shorter than the buffer is received with its length and its text; a failure is
  -- reported, and the queue is left as it was. A longer one is undefined: the terminating zero would
  -- be written past the end.
  pub queue_receive_lem :
      (q : PosixQueue) (capacity size : ℕ) (p : Proc W)
      → p.env.slot ≡ empty
      → ((b : Bytes) → (k.mq_receive q.mq size p.world).0 ≡ done b → length b < capacity)
      → Returns
          (λ r.
            (r.1 ≡ q)
            × Reports (got r.0) r.2.env.slot
            × (r.2.world ≡ (k.mq_receive q.mq size p.world).1))
          (queue_receive k q capacity size p)
  unfolding queue_receive error_set
  queue_receive_lem q capacity size p clean short =
      elim (Reply-cases (k.mq_receive q.mq size p.world).0) [
        | inl (n, e) ↦ rw (e, queue_receive) (ground arith)
        | inr (b, e) ↦ rw (e, queue_receive) (ground (arith, short b e))
      ]

  -- A text that is sent with a negative length is handed to `mq_send` whole; the call succeeds when
  -- that does, and reports its failure.
  pub queue_send_text :
      (q : PosixQueue) (msg : Bytes) (p : Proc W)
      → p.env.slot ≡ empty
      → Returns
          (λ r.
            (r.0 ≡ is_done (k.mq_send q.mq msg p.world).0)
            × Reports r.0 r.2.env.slot
            × (r.1 ≡ q)
            × (r.2.world ≡ (k.mq_send q.mq msg p.world).1))
          (queue_send k q msg none p)
  unfolding queue_send error_set
  queue_send_text q msg p clean =
      let fits : leb (length msg) (length msg + 1) ≡ true = ground arith in
      rw (fits, take-append)
        (elim (Reply-cases (k.mq_send q.mq msg p.world).0) [
          | inl (n, e) ↦ rw (e, send_bytes) (ground arith)
          | inr (b, e) ↦ rw (e, send_bytes) (ground arith)
        ])
