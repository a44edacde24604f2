-- ===== src/Process.antt =====
-- What a call of the programs reads and writes beside its own data: `errno`, the caller's error, the
-- file mode mask of the process, and the world behind the system calls.
use banip.Base.{ℕ, ◌≡◌, refl, ◌⊎◌, inl, inr, Outcome, returns, ◌>>=◌}
use banip.Error.{Slot, null, Env, Error, error_set}

pub record Proc (W : Type 0) : Type 0 where
  pub env : Env
  pub umask : ℕ
  pub world : W

-- A system call does its work, or fails and leaves a value in `errno`.
pub data Reply (A : Type 0) : Type 0 where
  done : A → Reply A
  failed : ℕ → Reply A

module _ {W : Type 0} where
  abbrev pub set_world : Proc W → W → Proc W
  set_world p w = record p { world = w }

  abbrev pub set_errno : Proc W → ℕ → Proc W
  set_errno p n = record p { env = record { errno = n; slot = p.env.slot } }

  abbrev pub set_slot : Proc W → Slot → Proc W
  set_slot p s = record p { env = record { errno = p.env.errno; slot = s } }

  -- A message for the caller, and a result.
  unfoldable pub report {ℓ} : {A : Type ℓ} → Proc W → Error → A → Outcome (A × Proc W)
  report p e a = do slot ← error_set p.env.slot e; returns (a, set_slot p slot)

  -- A call with `NULL` for the error.
  unfoldable pub ignoring_errors {ℓ} :
      {A : Type ℓ} → (Proc W → Outcome (A × Proc W)) → Proc W → Outcome (A × Proc W)
  ignoring_errors call p = do (a, q) ← call (set_slot p null); returns (a, set_slot q p.env.slot)

  -- Likewise with two results.
  unfoldable pub report_with : {A B : Type 0} → Proc W → Error → A → B → Outcome (A × B × Proc W)
  report_with p e a b = do slot ← error_set p.env.slot e; returns (a, b, set_slot p slot)

pub Reply-cases : {A : Type 0} (r : Reply A) → ((n : ℕ) × (r ≡ failed n)) ⊎ ((a : A) × (r ≡ done a))
Reply-cases (done a) = inr (a, refl)
Reply-cases (failed n) = inl (n, refl)
