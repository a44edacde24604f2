-- ===== src/Daemon/Start/Laws.antt =====
-- What the start of the daemon comes to, and what holds when its loop begins.
use banip.Base.{
  is_some, ℕ, ◌+◌, ◌%◌, ◌^◌, ◌≡◌, refl, ◌≢◌, inl, inr, Bool, true, false, [], ◌∷◌, Option, none,
  some, Bytes, Outcome, ◌&&◌, ◌==◌, sym, ◌∙◌, Returns, Returns->>=, arith, Bool-cases, Option-cases,
}
use banip.Error.{empty, Reports}
use banip.Process.{Proc, done}
use banip.Queue.{QueueApi, ok, max_message_size, fl_owner}
use banip.Engine.{Engine, Pointer}
use banip.Daemon.Serve.Round.{Settles}
use banip.Daemon.Start.Steps.{
  Post, Triple, run_steps-Chained, IsClean, stop_with-Post, system_step-Post, IsClean-world,
}
use banip.Daemon.Start.{
  Host, Settings, Statics, Step, become_daemon, put_pid, set_group, set_groups, open_step,
  alloc_buffer, buffer_step, engine_step, plain_user, privileges_step, start_steps, start,
}

module _ {W : Type 0} (api : QueueApi W) (engine : Engine W) (host : Host W) where
  -- What the start relies on: `queue_open` and the engine report what they come to, and the queue
  -- tells the size of its messages.
  pub record StartParts : Type 0 where
    pub limit : api.Queue → ℕ
    pub opens :
        (q : api.Queue) (name : Bytes) (p : Proc W)
        → p.env.slot ≡ empty
        → Returns (λ r. Reports r.0 r.2.env.slot) (api.queue_open q name fl_owner p)
    pub sizes :
        (q : api.Queue) (p : Proc W)
        → api.queue_get_attribute q max_message_size p ≡ (ok, some (limit q), p)
    pub engine_opens :
        (on_open : Bytes → Proc W → Outcome (Option (Pointer engine.Ctxt) × Proc W))
        → engine.on_open ≡ some on_open
        → (table : Bytes) (p : Proc W) → p.env.slot ≡ empty
        → Returns (λ r. Settles (is_some r.0) r.1.env.slot) (on_open table p)

  -- What the system documents of users: `setuid` gives the process that number, and neither of the two
  -- accounts is the superuser.
  pub record HasUsers : Type 0 where
    pub becomes : (uid : ℕ) (w w' : W) → host.setuid uid w ≡ (done tt, w') → host.getuid w' ≡ uid
    pub plain : (w : W) (uid : ℕ) → plain_user api engine host w ≡ some uid → uid ≢ 0

  abbrev TheStatics : Type 0
  TheStatics = Statics api engine host

  abbrev TheTriple : (TheStatics → Type 0) → Step api engine host → (TheStatics → Type 0) → Type 0
  TheTriple = Triple api engine host

  abbrev TheClean : TheStatics → Type 0
  TheClean = IsClean api engine host

  abbrev ThePost : (TheStatics → Type 0) → Bool × TheStatics → Type 0
  ThePost = Post api engine host

  become_daemon-IsClean :
      (settings : Settings) → TheTriple TheClean (become_daemon api engine host settings) TheClean
  unfolding become_daemon
  become_daemon-IsClean settings s h = elim (Bool-cases settings.daemonize) [
    | inl wanted ↦
        rw (wanted, become_daemon)
          (system_step-Post api engine host TheClean s _ _ h.no_error
            λ w e. IsClean-world api engine host s _ h)
    | inr unwanted ↦ rw (unwanted, become_daemon) h
  ]

  put_pid-IsClean : TheTriple TheClean (put_pid api engine host) TheClean
  unfolding put_pid
  put_pid-IsClean s h = elim (Option-cases s.pidfile) [
    | inl absent ↦ rw (absent, put_pid) h
    | inr (name, given) ↦ rw (given, put_pid) (IsClean-world api engine host s _ h)
  ]

  set_group-IsClean :
      (settings : Settings) → TheTriple TheClean (set_group api engine host settings) TheClean
  unfolding set_group
  set_group-IsClean settings s h = elim (Option-cases settings.gid) [
    | inl absent ↦ rw (absent, set_group) h
    | inr (g, given) ↦
        rw (given, set_group)
          (system_step-Post api engine host TheClean s _ _ h.no_error
            λ w e. IsClean-world api engine host s _ h)
  ]

  set_groups-IsClean :
      (settings : Settings) → TheTriple TheClean (set_groups api engine host settings) TheClean
  unfolding set_groups
  set_groups-IsClean settings s h = elim (Option-cases settings.gid) [
    | inl absent ↦ rw (absent, set_groups) h
    | inr (g, given) ↦
        rw (given, set_groups)
          (system_step-Post api engine host TheClean s _ _ h.no_error
            λ w e. IsClean-world api engine host s _ h)
  ]

  module _ (parts : StartParts) where
    open_step-IsClean :
        (settings : Settings) → TheTriple TheClean (open_step api engine host settings) TheClean
    unfolding open_step
    open_step-IsClean settings s h = elim (Option-cases s.queue) [
      | inl absent ↦ absurd (h.queue_there absent)
      | inr (q, given) ↦
          rw (given, open_step)
            (Returns->>= _ (ThePost TheClean) (api.queue_open q settings.queue_name fl_owner s.proc)
              _ (parts.opens q settings.queue_name s.proc h.no_error)
              λ r reports.
                opened (record s { queue = some r.1; proc = r.2 }) r.0 reports (λ e. cc e))
    ]
      where
        opened :
            (t : TheStatics) (go : Bool)
            → Reports go t.proc.env.slot
            → t.queue ≢ none
            → ThePost TheClean (go, t)
        opened t true reports there = record { no_error = reports; queue_there = there }
        opened t false reports there = λ e. rw e at reports

    -- The buffer is one byte longer than the longest message of the queue.
    pub record IsSized (s : TheStatics) : Type 0 where
      pub no_error : s.proc.env.slot ≡ empty
      pub the_queue : api.Queue
      pub queue_is : s.queue ≡ some the_queue
      pub buffer_is : s.buffer ≡ some ((parts.limit the_queue + 1) % 2 ^ 64)

    buffer_step-IsSized : TheTriple TheClean (buffer_step api engine host) IsSized
    unfolding buffer_step alloc_buffer
    buffer_step-IsSized s h = elim (Option-cases s.queue) [
      | inl absent ↦ absurd (h.queue_there absent)
      | inr (q, given) ↦
          let size : ℕ = (parts.limit q + 1) % 2 ^ 64 in
          elim (Bool-cases (host.calloc size s.proc.world).0) [
            | inl got ↦
                rw (given, parts.sizes q s.proc, got, buffer_step, alloc_buffer)
                  (record {
                    no_error = h.no_error;
                    the_queue = q;
                    queue_is = given;
                    buffer_is = refl;
                  })
            | inr refused ↦
                rw (given, parts.sizes q s.proc, refused, buffer_step, alloc_buffer)
                  (stop_with-Post api engine host IsSized s _ _ h.no_error)
          ]
    ]

    engine_step-IsSized :
        (settings : Settings) → TheTriple IsSized (engine_step api engine host settings) IsSized
    unfolding engine_step
    engine_step-IsSized settings s h = elim (Option-cases engine.on_open) [
      | inl absent ↦ rw (absent, engine_step) h
      | inr (on_open, given) ↦
          rw (given, engine_step)
            (Returns->>= _ (ThePost IsSized) (on_open settings.table_name s.proc) _
              (parts.engine_opens on_open given settings.table_name s.proc h.no_error)
              λ r settles.
                opened (record s { ctxt = r.0; proc = r.1 }) (is_some r.0) settles h.the_queue
                  h.queue_is h.buffer_is)
    ]
      where
        opened :
            (t : TheStatics) (go : Bool)
            → Settles go t.proc.env.slot
            → (q : api.Queue) → t.queue ≡ some q
            → t.buffer ≡ some ((parts.limit q + 1) % 2 ^ 64)
            → ThePost IsSized (go, t)
        opened t true settles q there sized = record {
          no_error = settles;
          the_queue = q;
          queue_is = there;
          buffer_is = sized;
        }
        opened t false settles q there sized = settles

    -- What holds when the loop begins.
    pub record IsStarted (s : TheStatics) : Type 0 where
      pub sized : IsSized s
      pub unprivileged : engine.drop_privileges ≡ true → host.getuid s.proc.world ≢ 0

    module _ (users : HasUsers) where
      privileges_step-IsStarted : TheTriple IsSized (privileges_step api engine host) IsStarted
      unfolding privileges_step
      privileges_step-IsStarted s h =
          elim (Bool-cases (host.getuid s.proc.world == 0 && engine.drop_privileges)) [
            | inr plain ↦
                rw (plain, privileges_step)
                  (record {
                    sized = h;
                    unprivileged = λ drops root. ground (arith, plain, drops, root);
                  })
            | inl root ↦ elim (Option-cases (plain_user api engine host s.proc.world)) [
              | inl absent ↦
                  rw (root, absent, privileges_step)
                    (stop_with-Post api engine host IsStarted s _ _ h.no_error)
              | inr (uid, given) ↦
                  rw (root, given, privileges_step)
                    (system_step-Post api engine host IsStarted s _ _ h.no_error λ w e. record {
                      sized = record {
                        no_error = h.no_error;
                        the_queue = h.the_queue;
                        queue_is = h.queue_is;
                        buffer_is = h.buffer_is;
                      };
                      unprivileged = λ drops zero_uid.
                          users.plain s.proc.world uid given
                            (sym (users.becomes uid s.proc.world w e) ∙ zero_uid);
                    })
            ]
          ]

      -- With a queue and no error pending, over parts that report what they come to, the start of
      -- the daemon returns. Where its loop begins, no error is pending, the buffer has one byte more
      -- than the longest message of the queue (as a 64-bit number), and the process is not the
      -- superuser's if the engine lets it drop its privileges; else the error can be read and logged.
      pub start-IsStarted :
          (settings : Settings) (s : TheStatics)
          → TheClean s
          → Returns (ThePost IsStarted) (start api engine host settings s)
      unfolding start
      start-IsStarted settings =
          run_steps-Chained api engine host TheClean IsStarted
            (TheClean ∷ TheClean ∷ TheClean ∷ TheClean ∷ TheClean ∷ IsSized ∷ IsSized ∷ IsStarted
              ∷ [])
            (start_steps api engine host settings)
            (
              become_daemon-IsClean settings,
              (
                put_pid-IsClean,
                (
                  set_group-IsClean settings,
                  (
                    set_groups-IsClean settings,
                    (
                      open_step-IsClean settings,
                      (
                        buffer_step-IsSized,
                        (engine_step-IsSized settings, (privileges_step-IsStarted, λ s h. h)),
                      ),
                    ),
                  ),
                ),
              ),
            )
