-- ===== src/Daemon/Start/Steps.antt =====
-- A block of steps that `break` may leave: what holds between two steps.
use banip.Base.{
  String, ◌≡◌, refl, ◌≢◌, Bool, true, false, List, [], ◌∷◌, none, if◌then◌else◌, returns, Returns,
  Returns->>=,
}
use banip.Error.{Error, null, empty, full, error_set}
use banip.Process.{Proc, Reply, done, failed, set_world, report}
use banip.Queue.{QueueApi}
use banip.Engine.{Engine}
use banip.Daemon.Start.{Host, Statics, Step, stop_with, system_step, run_steps}

module _ {W : Type 0} (api : QueueApi W) (engine : Engine W) (host : Host W) where
  abbrev pub TheStatics : Type 0
  TheStatics = Statics api engine host

  -- After a step that goes on, a property of the state; after one that breaks, an error that can be
  -- read.
  abbrev pub Post : (TheStatics → Type 0) → Bool × TheStatics → Type 0
  Post Q (true, s) = Q s
  Post Q (false, s) = s.proc.env.slot ≢ null

  abbrev pub Triple : (TheStatics → Type 0) → Step api engine host → (TheStatics → Type 0) → Type 0
  Triple P step Q = (s : TheStatics) → P s → Returns (Post Q) (step s)

  run_steps-then :
      (P Q R : TheStatics → Type 0) (step : Step api engine host)
      (rest : List (Step api engine host))
      → Triple P step Q
      → Triple Q (run_steps api engine host rest) R
      → Triple P (run_steps api engine host (step ∷ rest)) R
  unfolding run_steps
  run_steps-then P Q R step rest first others s h =
      Returns->>= (Post Q) (Post R) (step s) _ (first s h) goes
    where
      goes :
          (r : Bool × TheStatics)
          → Post Q r
          → Returns (Post R) (
              let more = run_steps api engine host rest r.1 in
              if r.0 then more else returns (false, r.1))
      goes (true, t) q = others t q
      goes (false, t) q = q

  -- The properties in the list hold between the steps of a block.
  abbrev pub Chained :
      (TheStatics → Type 0)
      → List (TheStatics → Type 0)
      → List (Step api engine host)
      → (TheStatics → Type 0)
      → Type 0
  Chained P [] [] R = (s : TheStatics) → P s → R s
  Chained P (Q ∷ more) (step ∷ rest) R = Triple P step Q × Chained Q more rest R
  Chained P [] (step ∷ rest) R = ⊥
  Chained P (Q ∷ more) [] R = ⊥

  pub run_steps-Chained :
      (P R : TheStatics → Type 0) (between : List (TheStatics → Type 0))
      (steps : List (Step api engine host))
      → Chained P between steps R
      → Triple P (run_steps api engine host steps) R
  unfolding run_steps
  run_steps-Chained P R [] [] last s h = last s h
  run_steps-Chained P R (Q ∷ more) (step ∷ rest) (first, others) s h =
      run_steps-then P Q R step rest first (run_steps-Chained Q R more rest others) s h
  run_steps-Chained P R [] (step ∷ rest) wrong s h = absurd wrong
  run_steps-Chained P R (Q ∷ more) [] wrong s h = absurd wrong

  full-named : (e : Error) → full e ≢ null
  full-named e h = cc h

  -- No error is pending, and there is a queue.
  pub record IsClean (s : TheStatics) : Type 0 where
    pub no_error : s.proc.env.slot ≡ empty
    pub queue_there : s.queue ≢ none

  pub stop_with-Post :
      (Q : TheStatics → Type 0) (s : TheStatics) (p : Proc W) (err : Error)
      → p.env.slot ≡ empty
      → Returns (Post Q) (stop_with api engine host s p err)
  unfolding report error_set
  stop_with-Post Q s p err clean = rw clean (full-named err)

  pub system_step-Post :
      (Q : TheStatics → Type 0) (s : TheStatics) (text : String) (reply : Reply (Unit {0}) × W)
      → s.proc.env.slot ≡ empty
      → ((w : W) → reply ≡ (done tt, w) → Q (record s { proc = set_world s.proc w }))
      → Returns (Post Q) (system_step api engine host s text reply)
  unfolding system_step
  system_step-Post Q s text (done tt, w) clean goes = goes w refl
  system_step-Post Q s text (failed n, w) clean goes = stop_with-Post Q s _ _ clean

  pub IsClean-world :
      (s : TheStatics) (w : W) → IsClean s → IsClean (record s { proc = set_world s.proc w })
  IsClean-world s w h = record { no_error = h.no_error; queue_there = h.queue_there }
