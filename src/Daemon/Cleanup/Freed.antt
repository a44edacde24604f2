-- ===== src/Daemon/Cleanup/Freed.antt =====
-- What the cleanup of the daemon gives back, for any engine of which a context can be freed.
use banip.Base.{
  ◌≡◌, refl, ◌∙◌, Bool, Bytes, codes, Option, none, some, Outcome, returns, ◌>>=◌, >>=-eq-returns,
  Returns, Returns-inv, Option-cases, ◌⊎◌, inl, inr, subst,
}
use banip.Error.{null, empty}
use banip.Process.{Proc, set_slot, Reply-cases}
use banip.Queue.{QueueApi}
use banip.Engine.{Engine, Pointer, close_engine, free_pointer}
use banip.Daemon.Start.{Host, Statics}
use banip.Daemon.Cleanup.{free_ctxt, close_the_queue, remove_pid, cleanup}

module _ {W : Type 0} (api : QueueApi W) (engine : Engine W) (host : Host W) where
  abbrev TheStatics : Type 0
  TheStatics = Statics api engine host

  -- A context that can be closed and freed, with the error left alone.
  abbrev pub IsFreeable : Pointer engine.Ctxt → Type 0
  IsFreeable c =
      (p : Proc W)
      → Returns (λ q. q.env.slot ≡ p.env.slot)
          (do p' ← close_engine engine c p; free_pointer engine c p')

  -- No pointer is left to the buffer, a context or a queue, and no error is pending.
  abbrev pub IsGone : TheStatics → Type 0
  IsGone t = (t.buffer ≡ none) × (t.ctxt ≡ none) × (t.queue ≡ none) × (t.proc.env.slot ≡ empty)

  -- The context, if there is one, closed by the engine and freed.
  abbrev pub free_all : Option (Pointer engine.Ctxt) → Proc W → Outcome (Proc W)
  free_all none p = returns p
  free_all (some c) p = do p' ← close_engine engine c p; free_pointer engine c p'

  -- The file of the process's number, if it has one, has been unlinked, with a warning if that failed.
  abbrev pub RemovesPid : Option Bytes → W → W → Type 0
  RemovesPid none w w' = w' ≡ w
  RemovesPid (some name) w w' =
      let after : W = (host.unlink name w).1 in
      (w' ≡ after) ⊎ (w' ≡ host.warn (codes "unlink failed") after)

  -- What was held in the first state has been given back on the way to the second: the engine closed its
  -- context, which was freed, then the queue was closed, which freed it, then the file of the process's
  -- number was unlinked and the log closed.
  pub record GivesBack (s t : TheStatics) : Type 0 where
    pub after_ctxt : Proc W
    pub after_queue : Proc W
    pub closed : Bool
    pub after_pid : W
    pub ctxt_freed : free_all s.ctxt s.proc ≡ returns after_ctxt
    pub queue_closed :
        api.queue_close s.queue (set_slot after_ctxt null) ≡ returns (closed, none, after_queue)
    pub pid_removed : RemovesPid s.pidfile after_queue.world after_pid
    pub log_closed : t.proc.world ≡ host.close_log after_pid

  -- Every `queue_close` without an address for the error succeeds.
  abbrev pub Closes : Type 0
  Closes =
      (q : Option api.Queue) (p : Proc W)
      → p.env.slot ≡ null
      → Returns (λ r. r.1 ≡ none) (api.queue_close q p)

  free_ctxt-freed :
      (s : TheStatics)
      → ((c : Pointer engine.Ctxt) → s.ctxt ≡ some c → IsFreeable c)
      → Returns
          (λ t.
            (t.ctxt ≡ none)
            × (t.buffer ≡ s.buffer)
            × (t.queue ≡ s.queue)
            × (t.pidfile ≡ s.pidfile)
            × (t.proc.env.slot ≡ s.proc.env.slot)
            × (free_all s.ctxt s.proc ≡ returns t.proc))
          (free_ctxt api engine host s)
  unfolding free_ctxt
  free_ctxt-freed s freeable = elim (Option-cases s.ctxt) [
    | inl absent ↦ rw (absent, free_ctxt) (absent, refl, refl, refl, refl, refl)
    | inr (c, given) ↦
        let (p1, run, same) =
          Returns-inv (λ (q : Proc W). q.env.slot ≡ s.proc.env.slot) _ (freeable c given s.proc) in
        let (p, closed, freed) =
          >>=-eq-returns (close_engine engine c s.proc) (free_pointer engine c) run in
        rw (given, free_ctxt, closed, freed) (refl, refl, refl, refl, same, refl)
  ]

  remove_pid-kept :
      (s : TheStatics)
      → let t = remove_pid api engine host s in
        (t.buffer ≡ s.buffer)
        × (t.ctxt ≡ s.ctxt)
        × (t.queue ≡ s.queue)
        × (t.proc.env.slot ≡ s.proc.env.slot)
        × RemovesPid s.pidfile s.proc.world t.proc.world
  unfolding remove_pid
  remove_pid-kept s = elim (Option-cases s.pidfile) [
    | inl absent ↦ rw (absent, remove_pid) (refl, refl, refl, refl, refl)
    | inr (file, given) ↦ elim (Reply-cases (host.unlink file s.proc.world).0) [
      | inl (n, e) ↦ rw (given, e, remove_pid) (refl, refl, refl, refl, inr refl)
      | inr (u, e) ↦ rw (given, e, remove_pid) (refl, refl, refl, refl, inl refl)
    ]
  ]

  pub cleanup-IsGone :
      (s : TheStatics)
      → Closes
      → ((c : Pointer engine.Ctxt) → s.ctxt ≡ some c → IsFreeable c)
      → s.proc.env.slot ≡ empty
      → Returns (λ t. IsGone t × GivesBack s t) (cleanup api engine host s)
  unfolding cleanup close_the_queue
  cleanup-IsGone s closes freeable clean =
      let held : TheStatics = record s { buffer = none } in
      let (s1, freeing, (no_ctxt, no_buffer, same_queue, same_file, same_slot, freed)) =
        Returns-inv
          (λ (t : TheStatics).
            (t.ctxt ≡ none)
            × (t.buffer ≡ none)
            × (t.queue ≡ s.queue)
            × (t.pidfile ≡ s.pidfile)
            × (t.proc.env.slot ≡ s.proc.env.slot)
            × (free_all s.ctxt s.proc ≡ returns t.proc))
          _ (free_ctxt-freed held freeable) in
      let (r, run, gone) =
        Returns-inv (λ (r : Bool × Option api.Queue × Proc W). r.1 ≡ none) _
          (closes s1.queue (set_slot s1.proc null) refl) in
      let s2 : TheStatics = record s1 { queue = r.1; proc = set_slot r.2 s1.proc.env.slot } in
      let kept = remove_pid-kept s2 in
      rw (freeing, run, close_the_queue)
        (
          (kept.0 ∙ no_buffer, kept.1 ∙ no_ctxt, kept.2 ∙ gone, kept.3 ∙ same_slot ∙ clean),
          record {
            after_ctxt = s1.proc;
            after_queue = r.2;
            closed = r.0;
            after_pid = (remove_pid api engine host s2).proc.world;
            ctxt_freed = freed;
            queue_closed = closing s1 r same_queue gone run;
            pid_removed =
                subst (λ f. RemovesPid f r.2.world (remove_pid api engine host s2).proc.world)
                  same_file kept.4;
            log_closed = refl;
          },
        )
    where
      closing :
          (s1 : TheStatics) (r : Bool × Option api.Queue × Proc W)
          → s1.queue ≡ s.queue
          → r.1 ≡ none
          → api.queue_close s1.queue (set_slot s1.proc null) ≡ returns r
          → api.queue_close s.queue (set_slot s1.proc null) ≡ returns (r.0, none, r.2)
      closing s1 (ok, q, p) same_queue gone run =
          subst
            (λ (q : Option api.Queue).
              api.queue_close s.queue (set_slot s1.proc null) ≡ returns (ok, q, p))
            gone (rw same_queue at run)
