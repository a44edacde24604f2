-- ===== src/Queue/Posix/Ownership.antt =====
-- Who creates and who removes the name of a POSIX queue.
use banip.Base.{
  ℕ, ◌≡◌, refl, sym, ◌∙◌, inl, inr, Bool, true, false, Option, none, some, Bytes, ◌>>=◌, Returns,
  returns, Returns->>=, arith,
}
use banip.Error.{Slot, empty, error_set, IsFull}
use banip.Process.{Proc, done, failed, Reply-cases}
use banip.Queue.{fl_owner}
use banip.Queue.Posix.{
  MqAttr, OpenFlags, Kernel, PosixQueue, queue_open, queue_close, open_queue, owner_open,
}

-- What the system documents of queue names: creation is exclusive, and unlinking removes the name;
-- closing a descriptor and copying a text leave the names alone.
pub record HasNames {W : Type 0} (k : Kernel W) : Type 0 where
  pub exists : W → Bytes → Bool
  pub excl :
      (name : Bytes) (flags : OpenFlags) (attr : MqAttr) (w : W) (d : ℕ)
      → flags.create ≡ true
      → (k.mq_open name flags attr w).0 ≡ done d
      → exists w name ≡ false
  pub creates :
      (name : Bytes) (flags : OpenFlags) (attr : MqAttr) (w : W) (d : ℕ)
      → (k.mq_open name flags attr w).0 ≡ done d
      → exists (k.mq_open name flags attr w).1 name ≡ true
  pub failed_keeps :
      (name : Bytes) (flags : OpenFlags) (attr : MqAttr) (w : W) (n : ℕ)
      → (k.mq_open name flags attr w).0 ≡ failed n
      → exists (k.mq_open name flags attr w).1 name ≡ exists w name
  pub unlinks :
      (name : Bytes) (w : W)
      → (k.mq_unlink name w).0 ≡ done tt
      → exists (k.mq_unlink name w).1 name ≡ false
  pub close_keeps : (d : Option ℕ) (w : W) (n : Bytes) → exists (k.mq_close d w).1 n ≡ exists w n
  pub strdup_keeps : (w : W) (n : Bytes) → exists (k.strdup w).1 n ≡ exists w n

-- The world once the descriptor is closed, if there is one.
abbrev pub closed_world : {W : Type 0} → Kernel W → Option ℕ → W → W
closed_world k none w = w
closed_world k (some d) w = (k.mq_close (some d) w).1

-- Every call that `queue_close` makes for this queue succeeds.
abbrev pub Closes : {W : Type 0} → Kernel W → Option ℕ → W → Type 0
Closes k none w = Unit
Closes k (some d) w = (k.mq_close (some d) w).0 ≡ done tt

module _ {W : Type 0} (k : Kernel W) (N : HasNames k) where
  -- If the calls succeed, closing a queue that this process owns frees it and removes its name.
  pub queue_close-owner :
      (q : PosixQueue) (name : Bytes) (p : Proc W)
      → q.filename ≡ some name
      → Closes k q.mq p.world
      → (k.mq_unlink name (closed_world k q.mq p.world)).0 ≡ done tt
      → Returns
          (λ r. (r.0 ≡ true) × (r.1 ≡ none) × (N.exists r.2.world name ≡ false))
          (queue_close k (some q) p)
  unfolding queue_close
  queue_close-owner q name p owned closes unlinked =
      ground (arith, N.unlinks name (closed_world k q.mq p.world))

  -- If the calls succeed, closing a queue that it does not own frees it and removes no name.
  pub queue_close-user :
      (q : PosixQueue) (name : Bytes) (p : Proc W)
      → q.filename ≡ none
      → Closes k q.mq p.world
      → Returns
          (λ r. (r.0 ≡ true) × (r.1 ≡ none) × (N.exists r.2.world name ≡ N.exists p.world name))
          (queue_close k (some q) p)
  unfolding queue_close
  queue_close-user q name p user closes = ground (arith, N.close_keeps q.mq p.world name)

  -- Opening for the owner under a name that is in use fails, but the process takes itself for the
  -- owner from then on.
  pub queue_open-in_use :
      (q : PosixQueue) (name : Bytes) (p : Proc W)
      → N.exists p.world name ≡ true
      → (k.strdup p.world).0 ≡ true
      → p.env.slot ≡ empty
      → Returns
          (λ r.
            (r.0 ≡ false)
            × (r.1.mq ≡ none)
            × (r.1.filename ≡ some name)
            × (N.exists r.2.world name ≡ true)
            × IsFull r.2.env.slot)
          (queue_open k q name fl_owner p)
  unfolding queue_open error_set
  queue_open-in_use q name p used copied clean =
      let flags : OpenFlags = record { write_only = false; create = true } in
      let w : W = (k.strdup p.world).1 in
      elim (Reply-cases (k.mq_open name flags q.attr w).0) [
        | inl (n, e) ↦
            let still : N.exists (k.mq_open name flags q.attr w).1 name ≡ true =
              N.failed_keeps name flags q.attr w n e ∙ N.strdup_keeps p.world name ∙ used in
            rw (copied, e, queue_open, owner_open, open_queue) (ground arith)
        | inr (d, e) ↦
            absurd
              (cc (used, sym (N.strdup_keeps p.world name), N.excl name flags q.attr w d refl e))
      ]

  -- A second owner fails to open a name in use, with an error, and when it then closes its queue, as the program
  -- does on its way out, the name that belongs to the first owner is removed.
  pub second_owner_unlinks :
      (q : PosixQueue) (name : Bytes) (p : Proc W)
      → N.exists p.world name ≡ true
      → (k.strdup p.world).0 ≡ true
      → p.env.slot ≡ empty
      → ((w : W) → N.exists w name ≡ true → (k.mq_unlink name w).0 ≡ done tt)
      → Returns
          (λ (r : Bool × Slot × (Bool × Option PosixQueue × Proc W)).
            (r.0 ≡ false) × IsFull r.1 × (N.exists r.2.2.world name ≡ false))
          (do
            (opened, q', p') ← queue_open k q name fl_owner p
            closed ← queue_close k (some q') p'
            returns (opened, p'.env.slot, closed))
  second_owner_unlinks q name p used copied clean unlinked =
      Returns->>= _ _ (queue_open k q name fl_owner p) _
        (queue_open-in_use q name p used copied clean)
        λ r (failed_so, no_mq, owned, still, full_slot).
          Returns->>= (λ c. (c.0 ≡ true) × (c.1 ≡ none) × (N.exists c.2.world name ≡ false)) _ _ _
            (queue_close-owner r.1 name r.2 owned (rw no_mq tt)
              (rw no_mq (unlinked r.2.world still)))
            λ c h. (failed_so, full_slot, h.2)
