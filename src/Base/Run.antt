-- ===== src/Base/Run.antt =====
-- What a run of C code comes to: it returns, or it does what the language leaves undefined.
use mathlib.Core.Path.{◌≡◌, refl}

-- The undefined acts that the code can reach.
pub data Fault : Type 0 where
  -- `free` of a pointer that `malloc` did not give
  invalid_free : Fault
  -- a read or a write past the end of an object
  out_of_bounds : Fault
  -- an access to memory that has been freed
  use_after_free : Fault
  -- a failed `assert`
  assertion : Fault
  -- an access to a null pointer
  null_pointer : Fault
  -- a read of a variable that was not set
  uninitialised : Fault
  -- a signed sum that its type cannot hold
  signed_overflow : Fault

pub data Outcome {ℓ} (A : Type ℓ) : Type ℓ where
  returns : A → Outcome A
  undefined : Fault → Outcome A

infixl 5 ◌>>=◌
abbrev pub ◌>>=◌ {ℓ κ} : {A : Type ℓ} {B : Type κ} → Outcome A → (A → Outcome B) → Outcome B
returns a >>= f = f a
undefined e >>= f = undefined e

-- The run returns, and what it returns has the property.
abbrev pub Returns {ℓ} : {A : Type ℓ} → (A → Type 0) → Outcome A → Type 0
Returns P (returns a) = P a
Returns P (undefined e) = ⊥

-- A property of a run from one of its first part.
pub Returns->>= {ℓ κ} :
    {A : Type ℓ} {B : Type κ} (P : A → Type 0) (Q : B → Type 0) (m : Outcome A) (f : A → Outcome B)
    → Returns P m
    → ((a : A) → P a → Returns Q (f a))
    → Returns Q (m >>= f)
Returns->>= P Q (returns a) f h k = k a h
Returns->>= P Q (undefined e) f h k = absurd h

-- A property of a run in three parts from one of its first two.
pub Returns-then {ℓ κ μ} :
    {A : Type ℓ} {B : Type κ} {C : Type μ} (P : B → Type 0) (Q : C → Type 0) (m : Outcome A)
    (f : A → Outcome B) (g : B → Outcome C)
    → Returns P (m >>= f)
    → ((b : B) → P b → Returns Q (g b))
    → Returns Q (m >>= λ a. f a >>= g)
Returns-then P Q (returns a) f g h k = Returns->>= P Q (f a) g h k
Returns-then P Q (undefined e) f g h k = absurd h

-- A weaker property of the same run.
pub Returns-mono {ℓ} :
    {A : Type ℓ} (P Q : A → Type 0) (m : Outcome A)
    → Returns P m
    → ((a : A) → P a → Q a)
    → Returns Q m
Returns-mono P Q (returns a) h k = k a h
Returns-mono P Q (undefined e) h k = absurd h

-- What a run returned has the property.
pub Returns-at {ℓ} :
    {A : Type ℓ} (P : A → Type 0) (m : Outcome A) {a : A} → Returns P m → m ≡ returns a → P a
Returns-at P m h e = rw e at h

-- A run that returns has returned from its first part.
pub >>=-eq-returns {ℓ κ} :
    {A : Type ℓ} {B : Type κ} (m : Outcome A) (f : A → Outcome B) {b : B}
    → (m >>= f) ≡ returns b
    → (a : A) × (m ≡ returns a) × (f a ≡ returns b)
>>=-eq-returns (returns a) f h = (a, refl, h)
>>=-eq-returns (undefined e) f h = cc

pub Returns-inv {ℓ} :
    {A : Type ℓ} (P : A → Type 0) (m : Outcome A) → Returns P m → (a : A) × (m ≡ returns a) × P a
Returns-inv P (returns a) h = (a, refl, h)
Returns-inv P (undefined e) h = absurd h

pub Returns-both {ℓ} :
    {A : Type ℓ} (P Q : A → Type 0) (m : Outcome A)
    → Returns P m
    → Returns Q m
    → Returns (λ a. P a × Q a) m
Returns-both P Q (returns a) p q = (p, q)
Returns-both P Q (undefined e) p q = absurd p
