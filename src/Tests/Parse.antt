-- ===== src/Tests/Parse.antt =====
-- parse.c over a small resolver.
use banip.Base.{
  ℕ, ◌-◌, ◌^◌, ◌≡◌, refl, inl, inr, true, false, List, [], ◌∷◌, ◌++◌, Option, none, some, Bytes,
  codes, All, length, take, str_eq, if◌then◌else◌, returns, Returns, arith, Bool-cases, some_inj,
  subst,
}
use banip.Base.Floor.{floor_to}
use banip.Error.{full, generic, IsFull, Reports}
use banip.Parse.Strtoul.{skip_space}
use banip.Parse.Ulong.{UlongParse, refused, parse_ulong}
use banip.Parse.Ulong.Digits.{decimal}
use banip.Parse.Ulong.Laws.{
  accepted, parse_ulong-decimal, parse_ulong-minus, parse_ulong-out_of_range,
}
use banip.Parse.Ulong.Grammar.{IsNumeral, parse_ulong_sound}
use banip.Parse.Word.{little, IsByte, net_value, htonl, load_words}
use banip.Parse.Mask.{apply_netmask}
use banip.Parse.Mask.Laws.{IsSa, apply_netmask-clears}
use banip.Parse.Addr.{Family, inet, inet6, Info, found, failed, Libc, IsLibc, Addr, parse_addr}
use banip.Parse.Addr.WellFormed.{IsWellFormed, parse_addr-IsWellFormed}
use banip.Parse.Addr.Accepts.{Accepts, parse_addr-prefix}
use banip.Parse.Addr.Errors.{clean, parse_addr-Reports, parse_addr-bad_prefix}

abbrev pub v4_text : Bytes
v4_text = codes "10.1.2.3"

abbrev v4_bytes : Bytes
v4_bytes = 10 ∷ 1 ∷ 2 ∷ 3 ∷ []

abbrev v6_text : Bytes
v6_text = codes "2001:db8::1"

abbrev v6_bytes : Bytes
v6_bytes = 0x20 ∷ 1 ∷ 0x0d ∷ 0xb8 ∷ 0 ∷ 0 ∷ 0 ∷ 0 ∷ 0 ∷ 0 ∷ 0 ∷ 0 ∷ 0 ∷ 0 ∷ 0 ∷ 1 ∷ []

abbrev small_pton : Family → Bytes → Option Bytes
small_pton inet s = if str_eq s v4_text then some v4_bytes else none
small_pton inet6 s = if str_eq s v6_text then some v6_bytes else none
small_pton _ s = none

abbrev small_info : Bytes → Info
small_info s =
    if str_eq s v4_text then found inet else if str_eq s v6_text then found inet6 else failed 2

abbrev pub small_libc : Libc
small_libc = record {
  inet_pton = small_pton;
  getaddrinfo = λ errno s. (small_info s, errno);
  strlcpy = λ n s. (take (n - 1) s, length s);
}

small_inet_size : (s b : Bytes) → small_pton inet s ≡ some b → (length b ≡ 4) × All IsByte b
small_inet_size s b h = elim (Bool-cases (str_eq s v4_text)) [
  | inl same ↦
      subst (λ (t : Bytes). (length t ≡ 4) × All IsByte t) (some_inj (rw same at h)) (omega arith)
  | inr differ ↦ absurd (ground arith)
]

small_inet6_size : (s b : Bytes) → small_pton inet6 s ≡ some b → (length b ≡ 16) × All IsByte b
small_inet6_size s b h = elim (Bool-cases (str_eq s v6_text)) [
  | inl same ↦
      subst (λ (t : Bytes). (length t ≡ 16) × All IsByte t) (some_inj (rw same at h)) (omega arith)
  | inr differ ↦ absurd (ground arith)
]

pub small_libc-IsLibc : IsLibc small_libc
small_libc-IsLibc = record {
  inet_size = small_inet_size;
  inet6_size = small_inet6_size;
  copies = λ n s h. refl;
}

parse_ulong-decimal_example : parse_ulong (decimal 24) (clean 34) ≡ returns (accepted 24 (clean 34))
parse_ulong-decimal_example = parse_ulong-decimal 24 (clean 34) (omega arith) (omega arith)

parse_ulong-minus_example :
    parse_ulong (codes "-8") (clean 0) ≡ returns (accepted (2 ^ 64 - 8) (clean 0))
parse_ulong-minus_example =
    parse_ulong-minus (codes "8") (clean 0) (λ h. cc h) (omega arith) (omega arith) (omega arith)
      (inr (omega arith))

parse_ulong-out_of_range_example :
    Returns
      (λ r. (r.ok ≡ false) × IsFull r.env.slot)
      (parse_ulong (codes "18446744073709551616") (clean 0))
parse_ulong-out_of_range_example =
    parse_ulong-out_of_range (codes "18446744073709551616") 0 (λ h. cc h) (omega arith)
      (inr (omega arith))

spaced : parse_ulong (codes " +7") (clean 0) ≡ returns (accepted 7 (clean 0))
unfolding parse_ulong
spaced = refl

parse_ulong_sound_example : IsNumeral (skip_space (codes " +7")) 7 × (clean 0 ≡ clean 0)
parse_ulong_sound_example = parse_ulong_sound (codes " +7") (clean 0) spaced refl

abbrev v4_words : List ℕ
v4_words = 0x0302010a ∷ 0 ∷ 0 ∷ 0 ∷ []

apply_netmask-clears_example :
    Returns
      (λ r. IsSa r × (net_value little 0 r ≡ floor_to (128 - 20) (net_value little 0 v4_words)))
      (apply_netmask little 20 v4_words)
apply_netmask-clears_example = apply_netmask-clears little 20 v4_words (omega arith) (omega arith)

parse_addr-prefix_example :
    Returns
      (Accepts little small_libc v4_bytes inet 20 v4_text (clean 0))
      (parse_addr little small_libc (v4_text ++ b'/' ∷ decimal 20) (clean 0))
parse_addr-prefix_example =
    parse_addr-prefix little small_libc small_libc-IsLibc v4_text v4_bytes inet 20 0 (clean 0) refl
      refl refl (omega arith) (omega arith) (omega arith)

-- 10.1.2.3/20 is 10.1.0.0/20; the host is little-endian.
abbrev network : Addr
network = record {
  sa = 0x0000010a ∷ 0 ∷ 0 ∷ 0 ∷ [];
  fa = inet;
  sa_size = 4;
  netmask = 20;
  humanrepr = v4_text;
}

network_run :
    parse_addr little small_libc (codes "10.1.2.3/20") (clean 0)
    ≡ returns (record { ok = true; addr = network; env = clean 0 })
unfolding parse_addr parse_ulong apply_netmask htonl load_words
network_run = refl

parse_addr-IsWellFormed_example : IsWellFormed little network
parse_addr-IsWellFormed_example =
    parse_addr-IsWellFormed little small_libc small_libc-IsLibc (codes "10.1.2.3/20") (clean 0)
      network_run refl

good_suffix : parse_ulong (codes "20") (clean 0) ≡ returns (accepted 20 (clean 0))
unfolding parse_ulong
good_suffix = refl

parse_addr-Reports_example :
    Returns
      (λ r. Reports r.ok r.env.slot)
      (parse_addr little small_libc (codes "10.9.9.9/20") (clean 0))
parse_addr-Reports_example =
    parse_addr-Reports little small_libc small_libc-IsLibc (codes "10.9.9.9/20") 0
      (inr (codes "10.9.9.9", codes "20", refl, rw good_suffix refl))

-- Nothing behind the `/`: refused by `parse_ulong` with the number 0.
abbrev no_digit : UlongParse
no_digit = refused 0 (record { errno = 0; slot = full (generic "number expected, no digit found") })

pub no_digit_run : parse_ulong [] (clean 0) ≡ returns no_digit
unfolding parse_ulong
no_digit_run = refl

parse_addr-bad_prefix_example :
    Returns
      (λ r. (r.ok ≡ true) × (r.addr.netmask ≡ 0) × (r.env.slot ≡ no_digit.env.slot))
      (parse_addr little small_libc (v4_text ++ b'/' ∷ []) (clean 0))
parse_addr-bad_prefix_example =
    parse_addr-bad_prefix little small_libc small_libc-IsLibc v4_text [] v4_bytes inet (clean 0)
      refl no_digit_run refl refl refl (omega arith) (omega arith)
