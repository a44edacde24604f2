-- ===== src/Base/Bits.antt =====
-- `&` on the native numbers by binary digits, and its meaning for a mask of high bits.
use Prim.Native.Nat.{min, digits, bit_and-bitwise}
use Prim.Native.Nat.{ℕ, zero, suc, ◌+◌, ◌-◌, ◌*◌, ◌/◌, ◌%◌, ◌^◌, ◌≤◌, ◌<◌, bit_and}
use mathlib.Core.Path.{◌≡◌, refl, ap, sym, ◌∙◌}
use native.Mathlib.Nat.{pow-suc, one-le-pow, le_refl}
use native.Mathlib.Omega.{arith}

-- The digits of a conjunction, with any count of digits that reaches the first number.
abbrev conj : ℕ → ℕ → ℕ → ℕ
conj = digits (λ _. zero) min

conj_count : (n m a b : ℕ) → a ≤ n → a ≤ m → conj n a b ≡ conj m a b
conj_count zero zero a b p q = refl
conj_count zero (suc m) zero b p q = refl
conj_count (suc n) zero zero b p q = refl
conj_count (suc n) (suc m) zero b p q = refl
conj_count zero (suc m) (suc a) b p q = absurd (omega arith)
conj_count (suc n) zero (suc a) b p q = absurd (omega arith)
conj_count (suc n) (suc m) (suc a) b p q =
    ap (λ (t : ℕ). t * 2 + min (suc a % 2) (b % 2))
      (conj_count n m (suc a / 2) (b / 2) (omega arith) (omega arith))

zero-bit_and : (b : ℕ) → bit_and 0 b ≡ 0
zero-bit_and b = bit_and-bitwise 0 b

-- The lowest digit of a conjunction, and the others.
bit_and_digit : (a b : ℕ) → bit_and a b ≡ bit_and (a / 2) (b / 2) * 2 + min (a % 2) (b % 2)
bit_and_digit zero b = omega (arith, zero-bit_and b, zero-bit_and (b / 2))
bit_and_digit (suc a) b =
    bit_and-bitwise (suc a) b
    ∙ ap (λ (t : ℕ). t * 2 + min (suc a % 2) (b % 2))
        (conj_count a (suc a / 2) (suc a / 2) (b / 2) (omega arith) (le_refl _)
          ∙ sym (bit_and-bitwise (suc a / 2) (b / 2)))

pub bit_and-zero : (n a : ℕ) → a ≤ n → bit_and a 0 ≡ 0
bit_and-zero n zero h = zero-bit_and 0
bit_and-zero zero (suc a) h = absurd (omega arith)
bit_and-zero (suc n) (suc a) h =
    omega (arith, bit_and_digit (suc a) 0, bit_and-zero n (suc a / 2) (omega arith))

shift_suc : (q k : ℕ) → q * 2 ^ suc k ≡ q * 2 ^ k * 2
shift_suc q k = omega (arith, ap (λ (t : ℕ). q * t) (pow-suc 2 k))

-- A conjunction splits at any digit.
pub bit_and_split :
    (k q r q' r' : ℕ)
    → r < 2 ^ k
    → r' < 2 ^ k
    → bit_and (q * 2 ^ k + r) (q' * 2 ^ k + r') ≡ bit_and q q' * 2 ^ k + bit_and r r'
bit_and_split zero q r q' r' h h' = ground (arith, bit_and-zero 0 0)
bit_and_split (suc k) q r q' r' h h' = ground (
  arith,
  bit_and_digit (q * 2 ^ suc k + r) (q' * 2 ^ suc k + r'),
  bit_and_digit r r',
  shift_suc q k,
  shift_suc q' k,
  shift_suc (bit_and q q') k,
  pow-suc 2 k,
  bit_and_split k q (r / 2) q' (r' / 2) (omega arith) (omega arith),
)

-- Ones in every digit that the number has.
pub bit_and_ones : (k q : ℕ) → q < 2 ^ k → bit_and q (2 ^ k - 1) ≡ q
bit_and_ones zero q h = ground (arith, zero-bit_and 0)
bit_and_ones (suc k) q h = ground (
  arith,
  bit_and_digit q (2 ^ suc k - 1),
  pow-suc 2 k,
  one-le-pow k 2 (omega arith),
  bit_and_ones k (q / 2) (omega arith),
)

bit_and-le_fuel : (n a b : ℕ) → a ≤ n → bit_and a b ≤ a
bit_and-le_fuel n zero b h = omega (arith, zero-bit_and b)
bit_and-le_fuel zero (suc a) b h = absurd (omega arith)
bit_and-le_fuel (suc n) (suc a) b h =
    omega (arith, bit_and_digit (suc a) b, bit_and-le_fuel n (suc a / 2) (b / 2) (omega arith))

pub bit_and-le : (a b : ℕ) → bit_and a b ≤ a
bit_and-le a b = bit_and-le_fuel a a b (le_refl a)
