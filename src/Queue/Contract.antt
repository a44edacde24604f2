-- ===== src/Queue/Contract.antt =====
-- What queues/queue.h promises of every implementation, in terms of what the callers see: each call
-- says whether it went well, and leaves an error exactly if it did not.
use banip.Base.{ℕ, ◌≡◌, is_some, true, Option, none, some, Bytes, Returns}
use banip.Error.{null, empty, Reports}
use banip.Process.{Proc}
use banip.Queue.{QueueApi, got}

-- The states and arguments for which an implementation promises anything.
pub record Terms {W : Type 0} (api : QueueApi W) : Type 1 where
  -- a queue as `queue_init` makes it, and one that `queue_open` opened
  pub IsFresh : api.Queue → Type 0
  pub IsOpen : api.Queue → Type 0
  -- the names, the texts and the buffers
  pub IsName : Bytes → ℕ → W → Type 0
  pub IsText : api.Queue → Bytes → Type 0
  pub IsRoom : api.Queue → ℕ → ℕ → W → Type 0

pub record IsQueue {W : Type 0} (api : QueueApi W) (terms : Terms api) : Type 0 where
  pub inits :
      (p : Proc W)
      → p.env.slot ≡ empty
      → Returns
          (λ r.
            Reports (is_some r.0) r.1.env.slot × ((q : api.Queue) → r.0 ≡ some q → terms.IsFresh q))
          (api.queue_init p)
  pub opens :
      (q : api.Queue) (name : Bytes) (flags : ℕ) (p : Proc W)
      → terms.IsFresh q
      → terms.IsName name flags p.world
      → p.env.slot ≡ empty
      → Returns
          (λ r. Reports r.0 r.2.env.slot × (r.0 ≡ true → terms.IsOpen r.1))
          (api.queue_open q name flags p)
  pub sends :
      (q : api.Queue) (text : Bytes) (p : Proc W)
      → terms.IsOpen q
      → terms.IsText q text
      → p.env.slot ≡ empty
      → Returns (λ r. Reports r.0 r.2.env.slot × terms.IsOpen r.1) (api.queue_send q text none p)
  -- with `NULL` for the error
  pub sends_silently :
      (q : api.Queue) (text : Bytes) (p : Proc W)
      → terms.IsOpen q
      → terms.IsText q text
      → p.env.slot ≡ null
      → Returns (λ r. (r.2.env.slot ≡ null) × terms.IsOpen r.1) (api.queue_send q text none p)
  pub receives :
      (q : api.Queue) (capacity size : ℕ) (p : Proc W)
      → terms.IsOpen q
      → terms.IsRoom q capacity size p.world
      → p.env.slot ≡ empty
      → Returns
          (λ r. Reports (got r.0) r.2.env.slot × terms.IsOpen r.1)
          (api.queue_receive q capacity size p)
  pub closes :
      (q : Option api.Queue) (p : Proc W)
      → p.env.slot ≡ empty
      → Returns (λ r. Reports r.0 r.2.env.slot × (r.0 ≡ true → r.1 ≡ none)) (api.queue_close q p)
  pub closes_silently :
      (q : Option api.Queue) (p : Proc W)
      → p.env.slot ≡ null
      → Returns (λ r. (r.2.env.slot ≡ null) × (r.0 ≡ true → r.1 ≡ none)) (api.queue_close q p)
