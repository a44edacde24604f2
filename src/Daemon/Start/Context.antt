-- ===== src/Daemon/Start/Context.antt =====
-- What the start does with the context of the engine: only one step sets it.
use banip.Base.{
  ◌≡◌, ap, ◌∙◌, sym, Bool, false, String, List, [], ◌∷◌, Option, none, some, Bytes, Outcome,
  returns, >>=-eq-returns, Option-cases, Bool-cases, inl, inr, ◌&&◌, ◌==◌, ℕ, ◌+◌, ◌%◌, ◌^◌,
}
use banip.Error.{Error}
use banip.Process.{Proc, Reply, done, failed, report}
use banip.Queue.{
  QueueApi, QueueErr, ok, general_failure, not_supported, not_owner, max_message_size,
}
use banip.Engine.{Engine, Pointer}
use banip.Daemon.Start.{
  Host, Settings, Statics, Step, stop_with, system_step, become_daemon, put_pid, set_group,
  set_groups, open_step, alloc_buffer, sized_buffer, buffer_step, engine_step, plain_user,
  privileges_step, run_steps, start_steps, start,
}

module _ {W : Type 0} (api : QueueApi W) (engine : Engine W) (host : Host W) where
  abbrev TheStatics : Type 0
  TheStatics = Statics api engine host

  abbrev KeepsContext : Step api engine host → Type 0
  KeepsContext step =
      (s : TheStatics) (r : Bool × TheStatics) → step s ≡ returns r → r.1.ctxt ≡ s.ctxt

  ctxt_of : {r r' : Bool × TheStatics} → returns r ≡ returns r' → r'.1.ctxt ≡ r.1.ctxt
  ctxt_of {r} {r'} h =
      let same : r ≡ r' = cc h in ap (λ (t : Bool × TheStatics). t.1.ctxt) (sym same)

  stop_with-ctxt :
      (s : TheStatics) (p : Proc W) (err : Error) (r : Bool × TheStatics)
      → stop_with api engine host s p err ≡ returns r
      → r.1.ctxt ≡ s.ctxt
  stop_with-ctxt s p err r h =
      let (t, run, rest) = >>=-eq-returns (report p err false) _ h in ctxt_of rest

  system_step-ctxt :
      (s : TheStatics) (text : String) (reply : Reply (Unit {0}) × W) (r : Bool × TheStatics)
      → system_step api engine host s text reply ≡ returns r
      → r.1.ctxt ≡ s.ctxt
  unfolding system_step
  system_step-ctxt s text (done u, w) r h = ctxt_of h
  system_step-ctxt s text (failed n, w) r h = stop_with-ctxt s _ _ r h

  become_daemon-ctxt : (settings : Settings) → KeepsContext (become_daemon api engine host settings)
  unfolding become_daemon
  become_daemon-ctxt settings s r h = elim (Bool-cases settings.daemonize) [
    | inl wanted ↦ system_step-ctxt s _ _ r (rw (wanted, become_daemon) at h)
    | inr unwanted ↦ ctxt_of (rw (unwanted, become_daemon) at h)
  ]

  put_pid-ctxt : KeepsContext (put_pid api engine host)
  unfolding put_pid
  put_pid-ctxt s r h = elim (Option-cases s.pidfile) [
    | inl absent ↦ ctxt_of (rw (absent, put_pid) at h)
    | inr (name, given) ↦ ctxt_of (rw (given, put_pid) at h)
  ]

  set_group-ctxt : (settings : Settings) → KeepsContext (set_group api engine host settings)
  unfolding set_group
  set_group-ctxt settings s r h = elim (Option-cases settings.gid) [
    | inl absent ↦ ctxt_of (rw (absent, set_group) at h)
    | inr (g, given) ↦ system_step-ctxt s _ _ r (rw (given, set_group) at h)
  ]

  set_groups-ctxt : (settings : Settings) → KeepsContext (set_groups api engine host settings)
  unfolding set_groups
  set_groups-ctxt settings s r h = elim (Option-cases settings.gid) [
    | inl absent ↦ ctxt_of (rw (absent, set_groups) at h)
    | inr (g, given) ↦ system_step-ctxt s _ _ r (rw (given, set_groups) at h)
  ]

  open_step-ctxt : (settings : Settings) → KeepsContext (open_step api engine host settings)
  unfolding open_step
  open_step-ctxt settings s r h = elim (Option-cases s.queue) [
    | inl absent ↦ absurd (cc (rw (absent, open_step) at h))
    | inr (q, given) ↦
        let (t, run, rest) =
          >>=-eq-returns (api.queue_open q settings.queue_name _ s.proc) _
            (rw (given, open_step) at h) in
        ctxt_of rest
  ]

  alloc_buffer-ctxt :
      (s : TheStatics) (size : ℕ) (r : Bool × TheStatics)
      → alloc_buffer api engine host s size ≡ returns r
      → r.1.ctxt ≡ s.ctxt
  unfolding alloc_buffer
  alloc_buffer-ctxt s size r h =
      elim (Bool-cases (host.calloc ((size + 1) % 2 ^ 64) s.proc.world).0) [
        | inl got ↦ ctxt_of (rw (got, alloc_buffer) at h)
        | inr refused ↦ stop_with-ctxt s _ _ r (rw (refused, alloc_buffer) at h)
      ]

  sized_buffer-ctxt :
      (s : TheStatics) (err : QueueErr) (value : Option ℕ) (r : Bool × TheStatics)
      → sized_buffer api engine host s err value ≡ returns r
      → r.1.ctxt ≡ s.ctxt
  unfolding sized_buffer
  sized_buffer-ctxt s ok (some size) r h = alloc_buffer-ctxt s size r h
  sized_buffer-ctxt s ok none r h = absurd (cc h)
  sized_buffer-ctxt s general_failure value r h = stop_with-ctxt s _ _ r h
  sized_buffer-ctxt s not_supported value r h = stop_with-ctxt s _ _ r h
  sized_buffer-ctxt s not_owner value r h = stop_with-ctxt s _ _ r h

  buffer_step-ctxt : KeepsContext (buffer_step api engine host)
  unfolding buffer_step
  buffer_step-ctxt s r h = elim (Option-cases s.queue) [
    | inl absent ↦ absurd (cc (rw (absent, buffer_step) at h))
    | inr (q, given) ↦
        let (err, value, p) = api.queue_get_attribute q max_message_size s.proc in
        sized_buffer-ctxt (record s { proc = p }) err value r (rw (given, buffer_step) at h)
  ]

  privileges_step-ctxt : KeepsContext (privileges_step api engine host)
  unfolding privileges_step
  privileges_step-ctxt s r h =
      elim (Bool-cases (host.getuid s.proc.world == 0 && engine.drop_privileges)) [
        | inr plain ↦ ctxt_of (rw (plain, privileges_step) at h)
        | inl root ↦ elim (Option-cases (plain_user api engine host s.proc.world)) [
          | inl absent ↦ stop_with-ctxt s _ _ r (rw (root, absent, privileges_step) at h)
          | inr (uid, given) ↦ system_step-ctxt s _ _ r (rw (root, given, privileges_step) at h)
        ]
      ]

  module _ (Good : Pointer engine.Ctxt → Type 0) where
    -- There is no context, or a good one.
    abbrev pub HasGood : TheStatics → Type 0
    HasGood s = (c : Pointer engine.Ctxt) → s.ctxt ≡ some c → Good c

    abbrev KeepsGood : Step api engine host → Type 0
    KeepsGood step =
        (s : TheStatics) (r : Bool × TheStatics) → step s ≡ returns r → HasGood s → HasGood r.1

    KeepsContext-good : (step : Step api engine host) → KeepsContext step → KeepsGood step
    KeepsContext-good step kept s r h good c given = good c (sym (kept s r h) ∙ given)

    -- The contexts that the engine opens.
    abbrev pub OpensGood : Type 0
    OpensGood =
        (on_open : Bytes → Proc W → Outcome (Option (Pointer engine.Ctxt) × Proc W))
        → engine.on_open ≡ some on_open
        → (table : Bytes) (p p' : Proc W) (c : Pointer engine.Ctxt)
        → on_open table p ≡ returns (some c, p')
        → Good c

    module _ (opens : OpensGood) where
      engine_step-good : (settings : Settings) → KeepsGood (engine_step api engine host settings)
      unfolding engine_step
      engine_step-good settings s r h good c there = elim (Option-cases engine.on_open) [
        | inl absent ↦ good c (sym (ctxt_of (rw (absent, engine_step) at h)) ∙ there)
        | inr (on_open, given) ↦
            let (t, run, rest) =
              >>=-eq-returns (on_open settings.table_name s.proc) _
                (rw (given, engine_step) at h) in
            opens on_open given settings.table_name s.proc t.1 c (
              run
              ∙ ap (λ (u : Option (Pointer engine.Ctxt)). returns (u, t.1))
                  (sym (ctxt_of rest) ∙ there))
      ]

    abbrev AllKeep : List (Step api engine host) → Type 0
    AllKeep [] = Unit
    AllKeep (step ∷ rest) = KeepsGood step × AllKeep rest

    run_steps-good :
        (steps : List (Step api engine host))
        → AllKeep steps
        → KeepsGood (run_steps api engine host steps)
    unfolding run_steps
    run_steps-good [] kept s r h good = λ c there. good c (sym (ctxt_of h) ∙ there)
    run_steps-good (step ∷ rest) (first, others) s r h good =
        let (t, run, more) = >>=-eq-returns (step s) _ h in
        let good' = first s t run good in
        elim (Bool-cases t.0) [
          | inl goes ↦ run_steps-good rest others t.1 r (rw goes at more) good'
          | inr stops ↦ λ c there. good' c (sym (ctxt_of (rw stops at more)) ∙ there)
        ]

    -- If the engine opens good contexts, and there is none or a good one at first, then so it is however the
    -- start ends.
    pub start-good : OpensGood → (settings : Settings) → KeepsGood (start api engine host settings)
    unfolding start
    start-good opens settings = run_steps-good (start_steps api engine host settings) (
      KeepsContext-good _ (become_daemon-ctxt settings),
      (
        KeepsContext-good _ put_pid-ctxt,
        (
          KeepsContext-good _ (set_group-ctxt settings),
          (
            KeepsContext-good _ (set_groups-ctxt settings),
            (
              KeepsContext-good _ (open_step-ctxt settings),
              (
                KeepsContext-good _ buffer_step-ctxt,
                (engine_step-good opens settings, (KeepsContext-good _ privileges_step-ctxt, tt)),
              ),
            ),
          ),
        ),
      ),
    )
