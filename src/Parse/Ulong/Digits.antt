-- ===== src/Parse/Ulong/Digits.antt =====
-- Decimal digits as text, their value, and what `strtoul` makes of them.
use banip.Base.{
  All-append, ℕ, zero, suc, ◌+◌, ◌-◌, ◌*◌, ◌/◌, ◌%◌, ◌^◌, ◌≤◌, ◌<◌, ◌≡◌, refl, ◌∙◌, ◌≢◌, [], ◌∷◌,
  ◌++◌, Bytes, All, ltb, if◌then◌else◌, arith, Bool-cases, inl, inr,
}
use banip.Parse.Strtoul.{ulong_max, erange, read_digits, strtoul}

abbrev pub IsDigit : ℕ → Type 0
IsDigit c = (48 ≤ c) × (c ≤ 57)

-- The number that decimal digits write, behind the number `acc`.
abbrev pub digits_value : ℕ → Bytes → ℕ
digits_value acc [] = acc
digits_value acc (c ∷ s) = digits_value (acc * 10 + (c - 48)) s

pub read_digits-All :
    (acc : ℕ) (ds : Bytes) → All IsDigit ds → read_digits acc ds ≡ (digits_value acc ds, [])
unfolding read_digits
read_digits-All acc [] h = refl
read_digits-All acc (c ∷ ds) h = ground (arith, read_digits-All (acc * 10 + (c - 48)) ds)

-- Digits only, or digits behind a minus.
pub strtoul-digits :
    (errno c : ℕ) (ds : Bytes)
    → All IsDigit (c ∷ ds)
    → strtoul errno (c ∷ ds) ≡ (
        if ltb ulong_max (digits_value 0 (c ∷ ds))
        then record { val = ulong_max; rest = []; errno = erange }
        else record { val = digits_value 0 (c ∷ ds); rest = []; errno = errno })
unfolding strtoul
strtoul-digits errno c ds h = ground (arith, read_digits-All 0 (c ∷ ds) h)

pub strtoul-minus :
    (errno c : ℕ) (ds : Bytes)
    → All IsDigit (c ∷ ds)
    → strtoul errno (b'-' ∷ c ∷ ds) ≡ (
        if ltb ulong_max (digits_value 0 (c ∷ ds))
        then record { val = ulong_max; rest = []; errno = erange }
        else record { val = (2 ^ 64 - digits_value 0 (c ∷ ds)) % 2 ^ 64; rest = []; errno = errno })
unfolding strtoul
strtoul-minus errno c ds h = ground (arith, read_digits-All 0 (c ∷ ds) h)

-- Printing, as `%lu` does.
pub decimal_fuel : ℕ → ℕ → Bytes
decimal_fuel zero n = []
decimal_fuel (suc f) n =
    let more = decimal_fuel f (n / 10) in (if ltb n 10 then [] else more) ++ (48 + n % 10) ∷ []

unfoldable pub decimal : ℕ → Bytes
unfolding decimal_fuel
decimal n = decimal_fuel (suc n) n

digits_value-append :
    (acc : ℕ) (s t : Bytes) → digits_value acc (s ++ t) ≡ digits_value (digits_value acc s) t
digits_value-append acc [] t = refl
digits_value-append acc (c ∷ s) t = digits_value-append (acc * 10 + (c - 48)) s t

decimal_fuel-value : (f n : ℕ) → n < f → digits_value 0 (decimal_fuel f n) ≡ n
unfolding decimal_fuel
decimal_fuel-value zero n h = absurd (omega arith)
decimal_fuel-value (suc f) n h = elim (Bool-cases (ltb n 10)) [
  | inl small ↦ rw small (ground arith)
  | inr large ↦ rw large (
      digits_value-append 0 (decimal_fuel f (n / 10)) ((48 + n % 10) ∷ [])
      ∙ ground (arith, decimal_fuel-value f (n / 10)))
]

decimal_fuel-digits : (f n : ℕ) → All IsDigit (decimal_fuel f n)
unfolding decimal_fuel
decimal_fuel-digits zero n = tt
decimal_fuel-digits (suc f) n = elim (Bool-cases (ltb n 10)) [
  | inl small ↦ rw small (omega arith)
  | inr large ↦ rw large (
      All-append IsDigit (decimal_fuel f (n / 10)) _ (decimal_fuel-digits f (n / 10)) (omega arith))
]

append-cons_ne_nil : (s : Bytes) (c : ℕ) → s ++ c ∷ [] ≢ []
append-cons_ne_nil [] c h = cc
append-cons_ne_nil (x ∷ s) c h = cc

decimal_fuel-cons : (f n : ℕ) → decimal_fuel (suc f) n ≢ []
unfolding decimal_fuel
decimal_fuel-cons f n = append-cons_ne_nil _ (48 + n % 10)

pub decimal-value : (n : ℕ) → digits_value 0 (decimal n) ≡ n
unfolding decimal
decimal-value n = decimal_fuel-value (suc n) n (omega arith)

pub decimal-digits : (n : ℕ) → All IsDigit (decimal n)
unfolding decimal
decimal-digits n = decimal_fuel-digits (suc n) n

pub decimal-ne-nil : (n : ℕ) → decimal n ≢ []
unfolding decimal
decimal-ne-nil n = decimal_fuel-cons n n
