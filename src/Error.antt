-- ===== src/Error.antt =====
-- queues/error.c and queues/error.h: the error message that a call leaves for its caller.
-- A message is its format string, with the value of `errno` for `set_system_error`; the arguments
-- that are printed into it are left out, and the memory for it is taken to be there.
pub mod Text
use banip.Base.{
  String, ◌≡◌, ◌≢◌, refl, Bool, true, false, ℕ, Outcome, returns, undefined, invalid_free,
  assertion, ◌>>=◌,
}

pub data Error : Type 0 where
  -- `set_generic_error` and the macros that stand on it
  generic : String → Error
  -- `set_system_error`
  system : String → ℕ → Error

-- The argument `char **error`: null, or the address of the caller's variable `char *error`, an
-- automatic variable in every program of the repository, that is null or holds a message.
pub data Slot : Type 0 where
  null : Slot
  empty : Slot
  full : Error → Slot

-- What every fallible call reads and writes beside its own data.
pub record Env : Type 0 where
  pub errno : ℕ
  pub slot : Slot

-- A slot that is full is passed to `free` itself, in place of the message that it holds.
unfoldable pub error_set : Slot → Error → Outcome Slot
error_set null e = returns null
error_set empty e = returns (full e)
error_set (full old) e = undefined invalid_free

unfoldable pub error_free : Slot → Outcome Slot
error_free null = undefined assertion
error_free empty = returns empty
error_free (full e) = returns empty

-- `set_generic_error` or `set_system_error` in a function that then returns `a`.
abbrev pub fail {ℓ} : {A : Type ℓ} → Env → Error → (Env → A) → Outcome A
fail env e a = do slot ← error_set env.slot e; returns (a (record env { slot = slot }))

-- A message waits for the caller.
abbrev pub IsFull : Slot → Type 0
IsFull null = ⊥
IsFull empty = ⊥
IsFull (full e) = Unit

-- Success leaves no message, failure leaves one.
abbrev pub Reports : Bool → Slot → Type 0
Reports true slot = slot ≡ empty
Reports false slot = IsFull slot

pub Reports-true : (ok : Bool) (slot : Slot) → ok ≡ true → slot ≡ empty → Reports ok slot
Reports-true true slot h none_left = none_left
Reports-true false slot h none_left = absurd (cc h)

pub Reports-false : (ok : Bool) (slot : Slot) → ok ≡ false → IsFull slot → Reports ok slot
Reports-false false slot h message = message
Reports-false true slot h message = absurd (cc h)

pub error_set-full :
    (slot : Slot) (e : Error) → IsFull slot → error_set slot e ≡ undefined invalid_free
unfolding error_set
error_set-full null e h = absurd h
error_set-full empty e h = absurd h
error_set-full (full old) e h = refl

pub error_free-empty : (slot : Slot) → slot ≢ null → error_free slot ≡ returns empty
unfolding error_free
error_free-empty null h = absurd (h refl)
error_free-empty empty h = refl
error_free-empty (full e) h = refl
