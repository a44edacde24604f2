-- ===== src/Varnish/Laws.antt =====
-- The Varnish module over any queue that keeps the contract of queues/queue.h.
use banip.Base.{
  ◌≡◌, refl, Bool, true, false, none, some, is_some, Bytes, if◌then◌else◌, Outcome, returns,
  undefined, assertion, null_pointer, ◌>>=◌, Returns, Returns->>=, Returns-inv, Returns-at, ◌⊎◌,
  arith, Bool-cases, inl, inr,
}
use banip.Error.{Slot, null, empty, IsFull, Reports, error_free}
use banip.Process.{Proc, set_slot}
use banip.Queue.{QueueApi, fl_sender}
use banip.Queue.Contract.{Terms, IsQueue}
use banip.Varnish.{
  Server, Mqueue, log_error, log_if, log_always, make_object, give_up, open_object, mqueue_init,
  mqueue_sendmsg,
}

module _ {W : Type 0} (api : QueueApi W) (terms : Terms api) (keeps : IsQueue api terms)
    (server : Server W) where
  -- The object has a queue that is open.
  pub record IsUsable (m : Mqueue api server) : Type 0 where
    pub the_queue : api.Queue
    pub queue_is : m.queue ≡ some the_queue
    pub is_open : terms.IsOpen the_queue

  -- A usable object of that name, with the caller's error as it was.
  abbrev pub IsKept : Bytes → Slot → Mqueue api server × Proc W → Type 0
  IsKept name slot r = IsUsable r.0 × (r.0.queue_name ≡ name) × (r.1.env.slot ≡ slot)

  log_error-Returns :
      (p : Proc W) → IsFull p.env.slot → Returns (λ q. Unit {0}) (log_error api server p)
  unfolding log_error error_free
  log_error-Returns p there = ground arith

  -- What a call of `mqueue_sendmsg` comes to: it returns with a usable object of that name and the
  -- caller's error as it was, unless the message is refused and there is no log.
  abbrev pub Sends : Bool → Bytes → Slot → Bool → Outcome (Mqueue api server × Proc W) → Type 0
  Sends true name slot sent run = Returns (IsKept name slot) run
  Sends false name slot true run = Returns (IsKept name slot) run
  Sends false name slot false run = run ≡ undefined null_pointer

  -- Over a queue that keeps the contract, for a message that the queue takes and a usable object:
  -- with a log, the call returns, the object stays usable, and the caller's error is as it was,
  -- whether the message was sent or not. Without a log the same holds if the message was sent; if it
  -- was not, a null pointer is handed to the log.
  pub mqueue_sendmsg-Sends :
      (vsl : Bool) (m : Mqueue api server) (u : IsUsable m) (text : Bytes) (p p1 : Proc W)
      (sent : Bool) (q : api.Queue)
      → terms.IsText u.the_queue text
      → api.queue_send u.the_queue text none (set_slot p empty) ≡ returns (sent, q, p1)
      → Sends vsl m.queue_name p.env.slot sent (mqueue_sendmsg api server vsl m text p)
  unfolding mqueue_sendmsg log_always
  mqueue_sendmsg-Sends vsl m u text p p1 sent q fits run =
      let (reports, still) =
        Returns-at (λ r. Reports r.0 r.2.env.slot × terms.IsOpen r.1) _
          (keeps.sends u.the_queue text (set_slot p empty) u.is_open fits refl) run in
      rw (u.queue_is, run, mqueue_sendmsg) (goes vsl sent reports still)
    where
      goes :
          (vsl sent : Bool)
          → Reports sent p1.env.slot
          → terms.IsOpen q
          → Sends vsl m.queue_name p.env.slot sent (
              let m' : Mqueue api server = record m { queue = some q } in
              let failed = (do
                p2 ← log_always api server vsl p1
                returns (m', set_slot p2 p.env.slot)) in
              if sent then returns (m', set_slot p1 p.env.slot) else failed)
      goes true true reports still =
          (record { the_queue = q; queue_is = refl; is_open = still }, refl, refl)
      goes false true reports still =
          (record { the_queue = q; queue_is = refl; is_open = still }, refl, refl)
      goes true false reports still =
          Returns->>= (λ t. Unit {0}) (IsKept m.queue_name p.env.slot) (log_error api server p1) _
            (log_error-Returns p1 reports)
            λ t h. (record { the_queue = q; queue_is = refl; is_open = still }, refl, refl)
      goes false false reports still = refl

  -- An object that is kept, or a failed assertion.
  abbrev pub KeptOrDead : Bytes → Slot → Outcome (Mqueue api server × Proc W) → Type 0
  KeptOrDead name slot run = Returns (IsKept name slot) run ⊎ (run ≡ undefined assertion)

  log_if-Returns :
      (vsl : Bool) (p : Proc W)
      → IsFull p.env.slot
      → Returns (λ q. Unit {0}) (log_if api server vsl p)
  unfolding log_if
  log_if-Returns true p there = log_error-Returns p there
  log_if-Returns false p there = tt

  module _ (enough : (w : W) → (server.alloc w).0 ≡ true)
      (closing : (q : api.Queue) (p : Proc W)
        → p.env.slot ≡ null
        → Returns (λ r. r.0 ≡ true) (api.queue_close (some q) p)) where
    close-none :
        (q : api.Queue) (p : Proc W)
        → p.env.slot ≡ null
        → Returns (λ r. r.1 ≡ none) (api.queue_close (some q) p)
    close-none q p quiet =
        let (r, run, closed) = Returns-inv (λ r. r.0 ≡ true) _ (closing q p quiet) in
        let told = keeps.closes_silently (some q) p quiet in rw run ((rw run at told).1 closed)

    give_up-dead :
        (vsl : Bool) (name : Bytes) (q : api.Queue) (p : Proc W)
        → IsFull p.env.slot
        → give_up api server vsl name q p ≡ undefined assertion
    unfolding give_up make_object
    give_up-dead vsl name q p there =
        let (p1, run1, logged) = Returns-inv (λ t. Unit {0}) _ (log_if-Returns vsl p there) in
        let (r, run, gone) =
          Returns-inv (λ r. r.1 ≡ none) _ (close-none q (set_slot p1 null) refl) in
        rw (run1, run, gone, give_up, make_object) refl

    -- Over a queue that keeps the contract, for a name that it takes, if memory is there and
    -- every `queue_close` succeeds: an object whose queue `queue_init` made gets a queue that is
    -- open, or Varnish ends in a failed assertion; there is no third outcome.
    pub mqueue_init-IsKept :
        (vsl : Bool) (name : Bytes) (q : api.Queue) (p p1 : Proc W)
        → api.queue_init (set_slot p empty) ≡ returns (some q, p1)
        → terms.IsName name fl_sender p1.world
        → KeptOrDead name p.env.slot (mqueue_init api server vsl name p)
    unfolding mqueue_init open_object
    mqueue_init-IsKept vsl name q p p1 made named =
        let (reports, fresh) =
          Returns-at
            (λ r.
              Reports (is_some r.0) r.1.env.slot
              × ((q : api.Queue) → r.0 ≡ some q → terms.IsFresh q))
            _ (keeps.inits (set_slot p empty) refl) made in
        let (r, run, (reports', opens)) =
          Returns-inv (λ r. Reports r.0 r.2.env.slot × (r.0 ≡ true → terms.IsOpen r.1)) _
            (keeps.opens q name fl_sender p1 (fresh q refl) named reports) in
        elim (Bool-cases r.0) [
          | inl opened ↦ inl (
              rw (made, run, opened, enough, mqueue_init, open_object, make_object)
                (record { the_queue = r.1; queue_is = refl; is_open = opens opened }, refl, refl))
          | inr refused ↦ inr (
              rw
                (
                  made,
                  run,
                  refused,
                  give_up-dead vsl name r.1 r.2 (rw refused at reports'),
                  mqueue_init,
                  open_object,
                )
                refl)
        ]
