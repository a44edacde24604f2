-- ===== src/Parse/Ulong/Grammar.antt =====
-- The texts that `parse_ulong` accepts, and the numbers that it reads from them.
use banip.Base.{
  ℕ, ◌+◌, ◌-◌, ◌*◌, ◌%◌, ◌^◌, ◌≤◌, ◌<◌, ◌≡◌, refl, ◌≢◌, ◌⊎◌, Bool, true, false, [], ◌∷◌, Bytes,
  length, All, if◌then◌else◌, arith, inl, inr, returns,
}
use banip.Error.{Env, error_set}
use banip.Parse.Strtoul.{
  ulong_max, erange, Conversion, strtoul, convert, read_digits, read_sign, skip_space,
}
use banip.Parse.Ulong.{UlongParse, check_ulong, parse_ulong}
use banip.Parse.Ulong.Digits.{IsDigit, digits_value}

-- `body` is a sign or none before digits; a minus takes the value from 2^64.
abbrev pub Writes : Bytes → ℕ → Bytes → Type 0
Writes body val ds =
    ((body ≡ ds) × (val ≡ digits_value 0 ds))
    ⊎ ((body ≡ b'+' ∷ ds) × (val ≡ digits_value 0 ds))
    ⊎ ((body ≡ b'-' ∷ ds) × (val + digits_value 0 ds ≡ 2 ^ 64))

pub record IsNumeral (body : Bytes) (val : ℕ) : Type 0 where
  pub digits : Bytes
  pub some_digit : digits ≢ []
  pub all_digits : All IsDigit digits
  pub in_range : (0 < digits_value 0 digits) × (digits_value 0 digits ≤ ulong_max)
  pub writes : Writes body val digits

read_digits_sound :
    (acc : ℕ) (s : Bytes)
    → (read_digits acc s).1 ≡ []
    → All IsDigit s × ((read_digits acc s).0 ≡ digits_value acc s)
unfolding read_digits
read_digits_sound acc [] h = (tt, refl)
read_digits_sound acc (c ∷ s) h = ground (arith, read_digits_sound (acc * 10 + (c - 48)) s)

check_ulong_sound :
    (str : Bytes) (env : Env) (c : Conversion) {r : UlongParse}
    → check_ulong str env c ≡ returns r
    → r.ok ≡ true
    → (c.rest ≡ [])
      × (length c.rest ≢ length str)
      × (0 < c.val)
      × (r.val ≡ c.val)
      × (r.env ≡ env)
      × ((c.errno ≢ erange) ⊎ (c.val ≢ ulong_max))
unfolding check_ulong error_set
check_ulong_sound str env c run ok = ground arith

abbrev signed : Bool → ℕ → ℕ
signed minus n = if minus then (2 ^ 64 - n) % 2 ^ 64 else n

convert_sound :
    (errno : ℕ) (str body : Bytes) (minus : Bool)
    → let c = convert errno str (minus, body) in
      c.rest ≡ []
      → length c.rest ≢ length str
      → 0 < c.val
      → (c.errno ≢ erange) ⊎ (c.val ≢ ulong_max)
      → (body ≢ [])
        × All IsDigit body
        × (digits_value 0 body ≤ ulong_max)
        × (c.val ≡ signed minus (digits_value 0 body))
        × (c.errno ≡ errno)
unfolding convert
convert_sound errno str body minus nil some_read pos fresh =
    ground (arith, read_digits_sound 0 body)

read_sign_cases :
    (s : Bytes)
    → ((s ≡ (read_sign s).1) × ((read_sign s).0 ≡ false))
      ⊎ ((s ≡ b'+' ∷ (read_sign s).1) × ((read_sign s).0 ≡ false))
      ⊎ ((s ≡ b'-' ∷ (read_sign s).1) × ((read_sign s).0 ≡ true))
unfolding read_sign
read_sign_cases [] = inl (refl, refl)
read_sign_cases (c ∷ s) = ground arith

read_sign-Writes :
    (s : Bytes) (val : ℕ)
    → 0 < val
    → digits_value 0 (read_sign s).1 ≤ ulong_max
    → val ≡ signed (read_sign s).0 (digits_value 0 (read_sign s).1)
    → Writes s val (read_sign s).1
read_sign-Writes s val pos le same = elim (read_sign_cases s) [
  | inl (e, bare) ↦ inl (e, ground arith)
  | inr (inl (e, plus)) ↦ inr (inl (e, ground arith))
  | inr (inr (e, minus)) ↦ inr (inr (e, ground arith))
]

-- What is accepted is a sign or none before decimal digits, behind white space, and nothing after;
-- the value of the digits lies between 1 and `ULONG_MAX`, and the number read is that value, or 2^64
-- less that value behind a minus. `errno` and the error are left as they were.
pub parse_ulong_sound :
    (str : Bytes) (env : Env) {r : UlongParse}
    → parse_ulong str env ≡ returns r
    → r.ok ≡ true
    → IsNumeral (skip_space str) r.val × (r.env ≡ env)
unfolding parse_ulong
parse_ulong_sound str env {r} run ok =
    let sign = read_sign (skip_space str) in
    let c = strtoul env.errno str in
    let checked = check_ulong_sound str (record env { errno = c.errno }) c run ok in
    let read = convert_sound env.errno str sign.1 sign.0 checked.0 checked.1 checked.2 checked.5 in
    (
      record {
        digits = sign.1;
        some_digit = read.0;
        all_digits = read.1;
        in_range = ground arith;
        writes = read_sign-Writes (skip_space str) r.val (ground arith) read.2 (ground arith);
      },
      ground arith,
    )
