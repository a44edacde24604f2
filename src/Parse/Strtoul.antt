-- ===== src/Parse/Strtoul.antt =====
-- strtoul(3) in base 10, as ISO C defines it, with 64-bit longs: leading white space, a sign, digits.
-- `errno` is written on overflow only.
use banip.Base.{
  ℕ, ◌+◌, ◌-◌, ◌*◌, ◌%◌, ◌^◌, Bool, true, false, ◌&&◌, ◌||◌, [], ◌∷◌, Bytes, length, leb, ltb, ◌==◌,
  if◌then◌else◌,
}

abbrev pub ulong_max : ℕ
ulong_max = 2 ^ 64 - 1

-- `ERANGE`
abbrev pub erange : ℕ
erange = 34

abbrev pub is_space : ℕ → Bool
is_space c = c == 32 || leb 9 c && leb c 13

abbrev pub is_digit : ℕ → Bool
is_digit c = leb 48 c && leb c 57

unfoldable pub skip_space : Bytes → Bytes
skip_space [] = []
skip_space (c ∷ s) = elim (is_space c) [ true ↦ skip_space s | false ↦ c ∷ s ]

-- Whether there is a minus, and what follows the sign.
unfoldable pub read_sign : Bytes → Bool × Bytes
read_sign [] = (false, [])
read_sign (c ∷ s) =
    if c == b'-' then (true, s) else if c == b'+' then (false, s) else (false, c ∷ s)

-- The value of the leading digits behind the value `acc`, and what follows them.
unfoldable pub read_digits : ℕ → Bytes → ℕ × Bytes
read_digits acc [] = (acc, [])
read_digits acc (c ∷ s) = elim (is_digit c) [
  | true ↦ read_digits (acc * 10 + (c - 48)) s
  | false ↦ (acc, c ∷ s)
]

-- `rest` is what `*endptr` points to.
pub record Conversion : Type 0 where
  pub val : ℕ
  pub rest : Bytes
  pub errno : ℕ

unfoldable pub convert : ℕ → Bytes → Bool × Bytes → Conversion
convert errno str (minus, body) =
    let (n, rest) = read_digits 0 body in
    if length rest == length body
    then record { val = 0; rest = str; errno = errno }
    else if ltb ulong_max n
    then record { val = ulong_max; rest = rest; errno = erange }
    else record { val = if minus then (2 ^ 64 - n) % 2 ^ 64 else n; rest = rest; errno = errno }

unfoldable pub strtoul : ℕ → Bytes → Conversion
unfolding convert read_sign skip_space read_digits
strtoul errno str = convert errno str (read_sign (skip_space str))
