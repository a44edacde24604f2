-- ===== src/Cli/Laws.antt =====
-- What the client returns.
use banip.Base.{
  ℕ, ◌⊎◌, ◌≡◌, refl, ◌≢◌, inl, inr, Bool, true, false, List, [], ◌∷◌, Option, none, some, Bytes,
  ◌>>=◌, Returns, Returns->>=, Returns-mono, arith, Bool-cases, some_inj, subst, codes,
  if◌then◌else◌,
}
use banip.Error.{Error, Slot, null, empty, full, IsFull, error_set, error_free, Reports}
use banip.Process.{Proc, done, set_world}
use banip.Queue.{fl_sender}
use banip.Queue.Posix.{
  Kernel, PosixQueue, initial, posix_queue, queue_init, queue_open, queue_send, queue_close,
}
use banip.Queue.Posix.Laws.{queue_send_text}
use banip.Cli.{
  Terminal, success, failure, wanted, show_error, finish_main, send_message, send_to, main,
}

module _ {W : Type 0} (term : Terminal W) where
  -- The last act was to print an error, or how the program is to be called.
  abbrev pub Told : W → Type 0
  Told w =
      ((e : Error) × (w' : W) × (w ≡ term.print_error e w'))
      ⊎ ((w' : W) × (w ≡ term.stderr wanted w'))

  -- Printing a message leaves none.
  pub show_error-empty :
      (p : Proc W) → p.env.slot ≢ null → Returns (λ p'. p'.env.slot ≡ empty) (show_error term p)
  unfolding show_error error_free
  show_error-empty p there = ground arith

  show_error-Told :
      (p : Proc W)
      → IsFull p.env.slot
      → Returns (λ p'. (p'.env.slot ≡ empty) × Told p'.world) (show_error term p)
  unfolding show_error error_free
  show_error-Told p there = shown p.env.slot refl there
    where
      shown :
          (slot : Slot)
          → p.env.slot ≡ slot
          → IsFull slot
          → Returns (λ p'. (p'.env.slot ≡ empty) × Told p'.world) (show_error term p)
      shown null same h = absurd h
      shown empty same h = absurd h
      shown (full e) same h = rw (same, show_error) (refl, inl (e, p.world, refl))

module _ {W : Type 0} (k : Kernel W) (term : Terminal W) where
  -- A status of `main`, with no message left behind.
  abbrev pub Ends : ℕ → ℕ × Proc W → Type 0
  Ends status r = (r.0 ≡ status) × (r.1.env.slot ≡ empty)

  -- No message is left behind, and one of failure has been told.
  abbrev pub EndsTold : ℕ × Proc W → Type 0
  EndsTold r = (r.1.env.slot ≡ empty) × (r.0 ≡ failure → Told term r.1.world)

  module _ (closes : (d : Option ℕ) (w : W) → (k.mq_close d w).0 ≡ done tt) where
    finish_main-Ends :
        (q : PosixQueue) (p : Proc W) (status : ℕ)
        → q.filename ≡ none
        → p.env.slot ≢ null
        → Returns (Ends status) (finish_main (posix_queue k) term (some q) p status)
    unfolding finish_main queue_close show_error error_free
    finish_main-Ends q p status user readable = ground (arith, closes q.mq p.world)

    close-user :
        (q : PosixQueue) (p : Proc W)
        → q.filename ≡ none
        → Returns (λ r. r.2.env.slot ≡ p.env.slot) (queue_close k (some q) p)
    unfolding queue_close
    close-user q p user = ground (arith, closes q.mq p.world)

    finish_main-Told :
        (q : PosixQueue) (p : Proc W)
        → q.filename ≡ none
        → IsFull p.env.slot
        → Returns EndsTold (finish_main (posix_queue k) term (some q) p failure)
    unfolding finish_main
    finish_main-Told q p user there =
        Returns->>= (λ r. r.2.env.slot ≡ p.env.slot) EndsTold (queue_close k (some q) p) _
          (close-user q p user)
          λ r same.
            Returns->>= (λ p'. (p'.env.slot ≡ empty) × Told term p'.world) EndsTold
              (show_error term r.2) _ (show_error-Told term r.2 (rw same there))
              λ p' (none_left, told). (none_left, λ e. told)

    open-user :
        (q : PosixQueue) (name : Bytes) (p : Proc W)
        → q.filename ≡ none
        → p.env.slot ≡ empty
        → Returns
            (λ r. (r.1.filename ≡ none) × Reports r.0 r.2.env.slot)
            (queue_open k q name fl_sender p)
    unfolding queue_open error_set
    open-user q name p user clean = ground arith

    readable : (ok : Bool) (slot : Slot) → Reports ok slot → slot ≢ null
    readable true slot reports h = cc (reports, h)
    readable false slot reports h = rw h at reports

    -- If every `mq_close` succeeds: with a queue that another process owns and no error pending, the
    -- client ends with the status of success and no message left, whether `mq_send` succeeds or not.
    pub send_message-Ends :
        (q : PosixQueue) (msg : Bytes) (p : Proc W)
        → q.filename ≡ none
        → p.env.slot ≡ empty
        → Returns (Ends success) (send_message (posix_queue k) term q msg p)
    unfolding send_message
    send_message-Ends q msg p user clean =
        Returns->>= _ (Ends success) (queue_send k q msg none p) _ (queue_send_text k q msg p clean)
          λ r (sent, reports, same, world).
            printed r.0 r.1 r.2 (rw same user) (readable r.0 r.2.env.slot reports)
      where
        printed :
            (sent : Bool) (q' : PosixQueue) (p' : Proc W)
            → q'.filename ≡ none
            → p'.env.slot ≢ null
            → Returns (Ends success) (
                finish_main
                  (posix_queue k)
                  term
                  (some q')
                  (if sent then set_world p' (term.stdout (codes "OK\n") p'.world) else p')
                  success)
        printed true q' p' user' there = finish_main-Ends q' _ success user' there
        printed false q' p' user' there = finish_main-Ends q' p' success user' there

    queue_init-user :
        (p : Proc W)
        → p.env.slot ≡ empty
        → Returns
            (λ r.
              (r.0 ≡ none → IsFull r.1.env.slot)
              × ((q : PosixQueue) → r.0 ≡ some q → (q.filename ≡ none) × (r.1.env.slot ≡ empty)))
            (queue_init k p)
    unfolding queue_init error_set
    queue_init-user p clean = elim (Bool-cases (k.malloc p.world).0) [
      | inl got ↦ rw (got, queue_init) ((λ h. absurd (cc h)), λ q same. (ap_filename q same, clean))
      | inr refused ↦ rw (refused, clean, queue_init) ((λ h. tt), λ q same. absurd (cc same))
    ]
      where
        ap_filename : (q : PosixQueue) → some initial ≡ some q → q.filename ≡ none
        ap_filename q same = subst (λ (x : PosixQueue). x.filename ≡ none) (some_inj same) refl

    nothing-Told :
        (p : Proc W)
        → IsFull p.env.slot
        → Returns EndsTold (finish_main (posix_queue k) term none p failure)
    unfolding finish_main
    nothing-Told p there =
        Returns->>= (λ p'. (p'.env.slot ≡ empty) × Told term p'.world) EndsTold (show_error term p)
          _ (show_error-Told term p there) λ p' (none_left, told). (none_left, λ e. told)

    opened-Told :
        (made : Bool × PosixQueue × Proc W) (msg : Bytes)
        → made.1.filename ≡ none
        → Reports made.0 made.2.env.slot
        → Returns EndsTold (
            let sent = send_message (posix_queue k) term made.1 msg made.2 in
            let unsent = finish_main (posix_queue k) term (some made.1) made.2 failure in
            if made.0 then sent else unsent)
    opened-Told (true, q, p) msg user reports =
        Returns-mono (Ends success) EndsTold _ (send_message-Ends q msg p user reports)
          λ r (well, none_left). (none_left, λ e. absurd (cc (well, e)))
    opened-Told (false, q, p) msg user reports = finish_main-Told q p user reports

    send_to-Told :
        (name msg : Bytes) (p : Proc W)
        → p.env.slot ≡ empty
        → Returns EndsTold (send_to (posix_queue k) term name msg p)
    unfolding send_to
    send_to-Told name msg p clean =
        Returns->>= _ EndsTold (queue_init k p) _ (queue_init-user p clean)
          λ r (there, made). after r.0 r.1 there made
      where
        after :
            (made : Option PosixQueue) (p1 : Proc W)
            → (made ≡ none → IsFull p1.env.slot)
            → ((q : PosixQueue) → made ≡ some q → (q.filename ≡ none) × (p1.env.slot ≡ empty))
            → Returns EndsTold (elim made [
              | none ↦ finish_main (posix_queue k) term none p1 failure
              | some q ↦ do
                (opened, q', p2) ← queue_open k q name fl_sender p1
                let sent = send_message (posix_queue k) term q' msg p2
                let unsent = finish_main (posix_queue k) term (some q') p2 failure
                if opened then sent else unsent
            ])
        after none p1 there made = nothing-Told p1 (there refl)
        after (some q) p1 there made =
            let (user, still_clean) = made q refl in
            Returns->>= _ EndsTold (queue_open k q name fl_sender p1) _
              (open-user q name p1 user still_clean)
              λ r (user', reports). opened-Told r msg user' reports

    usage :
        (p : Proc W)
        → p.env.slot ≡ empty
        → Returns EndsTold (
            finish_main
              (posix_queue k)
              term
              none
              (set_world p (term.stderr wanted p.world))
              failure)
    unfolding finish_main show_error
    usage p clean = rw (clean, finish_main, show_error) (clean, λ e. inr (p.world, refl))

    -- If every `mq_close` succeeds, the client, which starts with no error, returns for any
    -- arguments, and no message is left. If its status is that of failure, the last that it did was to
    -- print an error, or what arguments it expects.
    pub main-EndsTold :
        (args : List Bytes) (p : Proc W)
        → p.env.slot ≡ empty
        → Returns EndsTold (main (posix_queue k) term args p)
    unfolding main
    main-EndsTold [] p clean = usage p clean
    main-EndsTold (name ∷ []) p clean = usage p clean
    main-EndsTold (name ∷ msg ∷ []) p clean = send_to-Told name msg p clean
    main-EndsTold (name ∷ msg ∷ more ∷ rest) p clean = usage p clean
