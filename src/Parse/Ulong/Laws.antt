-- ===== src/Parse/Ulong/Laws.antt =====
-- What `parse_ulong` accepts, what it refuses, and what it leaves in the caller's error.
use banip.Base.{
  ℕ, ◌-◌, ◌^◌, ◌≤◌, ◌<◌, ◌≡◌, refl, ◌∙◌, ◌≢◌, ◌⊎◌, true, false, [], ◌∷◌, Bytes, All, arith, inr,
  returns, Returns,
}
use banip.Error.{Env, empty, error_set, IsFull, Reports}
use banip.Parse.Strtoul.{ulong_max, erange, Conversion, strtoul}
use banip.Parse.Ulong.{UlongParse, check_ulong, parse_ulong}
use banip.Parse.Ulong.Digits.{
  IsDigit, digits_value, strtoul-digits, strtoul-minus, decimal, decimal-value, decimal-digits,
  decimal-ne-nil,
}

abbrev pub accepted : ℕ → Env → UlongParse
accepted val env = record { ok = true; val = val; env = env }

-- A string of decimal digits, not empty, whose value lies between 1 and `ULONG_MAX` is accepted with
-- that value, and `errno` and the error are left as they are; for `ULONG_MAX` itself `errno` must not
-- hold a stale `ERANGE`.
pub parse_ulong-digits :
    (ds : Bytes) (env : Env)
    → ds ≢ []
    → All IsDigit ds
    → 0 < digits_value 0 ds
    → digits_value 0 ds ≤ ulong_max
    → (env.errno ≢ erange) ⊎ (digits_value 0 ds < ulong_max)
    → parse_ulong ds env ≡ returns (accepted (digits_value 0 ds) env)
unfolding parse_ulong
parse_ulong-digits [] env ne h lo hi fresh = absurd (ne refl)
parse_ulong-digits (c ∷ ds) env ne h lo hi fresh = ground (arith, strtoul-digits env.errno c ds h)

-- Printing a number in decimal and parsing it gives the number back, from 1 to below `ULONG_MAX`,
-- whatever `errno` and the error hold.
pub parse_ulong-decimal :
    (n : ℕ) (env : Env)
    → 0 < n
    → n < ulong_max
    → parse_ulong (decimal n) env ≡ returns (accepted n env)
parse_ulong-decimal n env lo hi =
    parse_ulong-digits (decimal n) env (decimal-ne-nil n) (decimal-digits n) (omega (arith, same))
      (omega (arith, same)) (inr (omega (arith, same)))
    ∙ rw same
  where
    same : digits_value 0 (decimal n) ≡ n
    same = decimal-value n

-- Digits behind a minus, of a value between 1 and `ULONG_MAX`, are accepted too, with 2^64 less
-- their value; for the value 1 `errno` must not hold a stale `ERANGE`.
pub parse_ulong-minus :
    (ds : Bytes) (env : Env)
    → ds ≢ []
    → All IsDigit ds
    → 0 < digits_value 0 ds
    → digits_value 0 ds ≤ ulong_max
    → (env.errno ≢ erange) ⊎ (1 < digits_value 0 ds)
    → parse_ulong (b'-' ∷ ds) env ≡ returns (accepted (2 ^ 64 - digits_value 0 ds) env)
unfolding parse_ulong
parse_ulong-minus [] env ne h lo hi fresh = absurd (ne refl)
parse_ulong-minus (c ∷ ds) env ne h lo hi fresh = ground (arith, strtoul-minus env.errno c ds h)

-- With no error pending, digits whose value is 0 or above `ULONG_MAX` are refused, with a message
-- for the caller.
pub parse_ulong-out_of_range :
    (ds : Bytes) (errno : ℕ)
    → ds ≢ []
    → All IsDigit ds
    → (digits_value 0 ds ≡ 0) ⊎ (ulong_max < digits_value 0 ds)
    → Returns
        (λ r. (r.ok ≡ false) × IsFull r.env.slot)
        (parse_ulong ds (record { errno = errno; slot = empty }))
unfolding parse_ulong
parse_ulong-out_of_range [] errno ne h out = absurd (ne refl)
parse_ulong-out_of_range (c ∷ ds) errno ne h out = ground (arith, strtoul-digits errno c ds h)

check_ulong-Reports :
    (str : Bytes) (errno : ℕ) (c : Conversion)
    → Returns
        (λ r. Reports r.ok r.env.slot)
        (check_ulong str (record { errno = errno; slot = empty }) c)
unfolding check_ulong error_set
check_ulong-Reports str errno c = ground arith

-- A call with no pending error always returns: it accepts and leaves no error, or it refuses and
-- leaves one.
pub parse_ulong-Reports :
    (str : Bytes) (errno : ℕ)
    → Returns
        (λ r. Reports r.ok r.env.slot)
        (parse_ulong str (record { errno = errno; slot = empty }))
unfolding parse_ulong
parse_ulong-Reports str errno =
    check_ulong-Reports str (strtoul errno str).errno (strtoul errno str)
