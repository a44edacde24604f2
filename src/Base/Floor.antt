-- ===== src/Base/Floor.antt =====
-- Numbers with their low binary digits cleared, and how clearing meets concatenation.
use Prim.Native.Nat.{ℕ, zero, suc, ◌+◌, ◌-◌, ◌*◌, ◌/◌, ◌%◌, ◌^◌, ◌≤◌, ◌<◌, bit_and, min}
use mathlib.Core.Logic.{inl, inr}
use banip.Base.Tests.{leb, Bool-cases}
use mathlib.Core.Path.{◌≡◌, ap, sym, ◌∙◌}
use native.Mathlib.Nat.{
  mul-div_left, pow-suc, one-le-pow, div-add-mod', mod-lt, div-div-eq-div-mul, mul-add-div_right,
  div-eq_of_lt, div-lt_iff_lt-mul, mul_comm, le_refl,
}
use native.Mathlib.Omega.{arith}
use banip.Base.Bits.{bit_and_split, bit_and_ones, bit_and-zero}

-- `n` with its `k` low digits cleared.
abbrev pub floor_to : ℕ → ℕ → ℕ
floor_to k n = n / 2 ^ k * 2 ^ k

pub two_pow_pos : (k : ℕ) → 0 < 2 ^ k
two_pow_pos k = one-le-pow k 2 (omega arith)

pub pow_add : (a b : ℕ) → 2 ^ (a + b) ≡ 2 ^ a * 2 ^ b
pow_add zero b = ground arith
pow_add (suc a) b =
    ap (λ (t : ℕ). 2 ^ t) suc_add
    ∙ omega (arith, pow-suc 2 (a + b), pow_add a b, ap (λ (t : ℕ). t * 2 ^ b) (pow-suc 2 a))
  where
    suc_add : suc a + b ≡ suc (a + b)
    suc_add = omega arith

pub floor_to-high :
    (k w H L : ℕ) → L < 2 ^ w → floor_to (k + w) (H * 2 ^ w + L) ≡ floor_to k H * 2 ^ w
floor_to-high k w H L h =
    ap (λ (t : ℕ). (H * 2 ^ w + L) / t * t) (pow_add k w ∙ mul_comm (2 ^ k) (2 ^ w))
    ∙ ap (λ (t : ℕ). t * (2 ^ w * 2 ^ k)) quotient
    ∙ omega arith
  where
    quotient : (H * 2 ^ w + L) / (2 ^ w * 2 ^ k) ≡ H / 2 ^ k
    quotient =
        sym (div-div-eq-div-mul (H * 2 ^ w + L) (2 ^ w) (2 ^ k))
        ∙ ap (λ (t : ℕ). t / 2 ^ k)
            (mul-add-div_right (two_pow_pos w) H L ∙ omega (arith, div-eq_of_lt h))

pub floor_to-low : (k d H L : ℕ) → floor_to k (H * 2 ^ (d + k) + L) ≡ H * 2 ^ (d + k) + floor_to k L
floor_to-low k d H L =
    ap (λ (t : ℕ). (t + L) / 2 ^ k * 2 ^ k) regroup
    ∙ ap (λ (t : ℕ). t * 2 ^ k) (mul-add-div_right (two_pow_pos k) (H * 2 ^ d) L)
    ∙ omega (arith, regroup)
  where
    regroup : H * 2 ^ (d + k) ≡ H * 2 ^ d * 2 ^ k
    regroup = omega (arith, ap (λ (t : ℕ). H * t) (pow_add d k))

-- A mask of `n` ones above `k` zeros clears the low digits of a number of `n + k` digits.
pub bit_and_high : (n k h : ℕ) → h < 2 ^ (n + k) → bit_and h ((2 ^ n - 1) * 2 ^ k) ≡ floor_to k h
bit_and_high n k h p =
    ap (λ (t : ℕ). bit_and t ((2 ^ n - 1) * 2 ^ k)) (sym (div-add-mod' h (2 ^ k)))
    ∙ ap (λ (t : ℕ). bit_and (h / 2 ^ k * 2 ^ k + h % 2 ^ k) t) (omega arith)
    ∙ bit_and_split k (h / 2 ^ k) (h % 2 ^ k) (2 ^ n - 1) 0 (mod-lt h (two_pow_pos k))
        (two_pow_pos k)
    ∙ ap (λ (t : ℕ). t * 2 ^ k + bit_and (h % 2 ^ k) 0) (bit_and_ones n (h / 2 ^ k) fits)
    ∙ omega (arith, bit_and-zero (h % 2 ^ k) (h % 2 ^ k) (le_refl _))
  where
    fits : h / 2 ^ k < 2 ^ n
    fits = (div-lt_iff_lt-mul (two_pow_pos k)).1 (rw (← pow_add n k) p)

floor_to-zero : (n : ℕ) → floor_to 0 n ≡ n
floor_to-zero n = omega arith

floor_to-eq-zero : (k n : ℕ) → n < 2 ^ k → floor_to k n ≡ 0
floor_to-eq-zero k n h = rw (div-eq_of_lt h) (omega arith)

-- Clearing the low digits of a number that ends in a 32-bit word, word by word.
pub floor_to-word :
    (k H L : ℕ)
    → L < 2 ^ 32
    → floor_to k (H * 2 ^ 32 + L) ≡ floor_to (k - 32) H * 2 ^ 32 + floor_to (min k 32) L
floor_to-word k H L h = elim (Bool-cases (leb 32 k)) [
  | inl wide ↦ above (ground arith)
  | inr narrow ↦ below (ground arith)
]
  where
    above :
        32 ≤ k → floor_to k (H * 2 ^ 32 + L) ≡ floor_to (k - 32) H * 2 ^ 32 + floor_to (min k 32) L
    above le =
        let split : k - 32 + 32 ≡ k = omega arith in
        let least : min k 32 ≡ 32 = omega arith in
        ap (λ (t : ℕ). floor_to t (H * 2 ^ 32 + L)) (sym split)
        ∙ floor_to-high (k - 32) 32 H L h
        ∙ omega (arith, floor_to-eq-zero 32 L h, ap (λ (t : ℕ). floor_to t L) least)

    below :
        k < 32 → floor_to k (H * 2 ^ 32 + L) ≡ floor_to (k - 32) H * 2 ^ 32 + floor_to (min k 32) L
    below lt =
        let split : 32 - k + k ≡ 32 = omega arith in
        let least : min k 32 ≡ k = omega arith in
        let none_left : k - 32 ≡ 0 = omega arith in
        ap (λ (t : ℕ). floor_to k (H * 2 ^ t + L)) (sym split)
        ∙ floor_to-low k (32 - k) H L
        ∙ ap (λ (t : ℕ). H * 2 ^ t + floor_to k L) split
        ∙ omega (
          arith,
          ap (λ (t : ℕ). floor_to t L) least,
          ap (λ (t : ℕ). floor_to t H) none_left,
          floor_to-zero H,
        )

pub floor_to_idem : (k n : ℕ) → floor_to k (floor_to k n) ≡ floor_to k n
floor_to_idem k n = ap (λ (t : ℕ). t * 2 ^ k) (mul-div_left (n / 2 ^ k) (two_pow_pos k))
