-- ===== src/Parse/Addr/Accepts.antt =====
-- The texts that `parse_addr` accepts as an address with or without a prefix, and what comes out.
use banip.Base.{
  strchr-append, ℕ, zero, suc, ◌-◌, ◌%◌, ◌≤◌, ◌<◌, ◌≡◌, refl, ap, ◌∙◌, true, false, [], ◌∷◌, ◌++◌,
  none, some, Bytes, length, take, strchr, Returns, Returns-mono, ltb, arith,
}
use banip.Base.Floor.{floor_to}
use banip.Error.{Env}
use banip.Parse.Strtoul.{ulong_max}
use banip.Parse.Ulong.Digits.{decimal}
use banip.Parse.Ulong.Laws.{parse_ulong-decimal}
use banip.Parse.Word.{Endian, net_value}
use banip.Parse.Mask.Laws.{IsSa}
use banip.Parse.Addr.{
  Family, unspec, other, inet, inet6, found, Libc, IsLibc, Addr, AddrParse, zeroed, stored, finish,
  store_as, check_prefix, with_prefix, parse_plain, parse_addr,
}
use banip.Parse.Addr.Finish.{IsMasked, finish_fits}
use banip.Parse.Addr.WellFormed.{inet-IsSa, inet6-IsSa}

-- No `/` stands in the text.
abbrev pub NoSlash : Bytes → Type 0
NoSlash s = strchr b'/' s ≡ none

take_all : (n : ℕ) (s : Bytes) → length s ≤ n → take n s ≡ s
take_all zero [] h = refl
take_all zero (c ∷ s) h = absurd (omega arith)
take_all (suc n) [] h = refl
take_all (suc n) (c ∷ s) h = ap (λ (t : Bytes). c ∷ t) (take_all n s (omega arith))

-- A prefix length that suits the family.
abbrev pub Suits : Family → ℕ → Type 0
Suits inet p = p ≤ 32
Suits inet6 p = p ≤ 128
Suits _ p = ⊥

-- Success with the address written by the bytes `b`, of which the first `p` bits are kept.
pub record Accepts (e : Endian) (lib : Libc) (b : Bytes) (fam : Family) (p : ℕ) (text : Bytes)
    (env : Env) (r : AddrParse) : Type 0 where
  pub accepted : r.ok ≡ true
  pub same_env : r.env ≡ env
  pub family : r.addr.fa ≡ fam
  pub prefix : r.addr.netmask ≡ p
  pub address : net_value e 0 r.addr.sa ≡ floor_to (128 - p) (net_value e 0 (stored e lib b))
  pub text_kept : r.addr.humanrepr ≡ text

Suits-lt : (fam : Family) (p : ℕ) → Suits fam p → p < ulong_max
Suits-lt unspec p h = absurd h
Suits-lt inet p h = omega arith
Suits-lt inet6 p h = omega arith
Suits-lt (other n) p h = absurd h

module _ (e : Endian) (lib : Libc) (L : IsLibc lib) where
  finish-Accepts :
      (b : Bytes) (fam : Family) (size p : ℕ) (text : Bytes) (env : Env)
      → IsSa (stored e lib b)
      → p ≤ 128
      → length text ≤ 46
      → Returns (Accepts e lib b fam p text env) (
          finish e lib text env
            (record zeroed { sa = stored e lib b; fa = fam; sa_size = size; netmask = p }))
  finish-Accepts b fam size p text env is_sa le fits =
      let before : Addr = record zeroed {
        sa = stored e lib b;
        fa = fam;
        sa_size = size;
        netmask = p;
      } in
      Returns-mono (λ r. (r.ok ≡ true) × (r.env ≡ env) × IsMasked e before text r.addr) _ _
        (finish_fits e lib L text before env le is_sa fits)
        λ r h. record {
          accepted = h.0;
          same_env = h.1;
          family = h.2.same_family;
          prefix = h.2.same_netmask;
          address = h.2.prefix_kept;
          text_kept = h.2.text ∙ take_all 46 text fits;
        }

  -- A text with no `/` that `inet_pton` takes for an IPv4 address, and that fits, is accepted as
  -- that address with a prefix of 32 bits; the error is left alone.
  pub parse_addr-inet :
      (s b : Bytes) (env : Env)
      → NoSlash s
      → lib.inet_pton inet s ≡ some b
      → length s ≤ 46
      → Returns (Accepts e lib b inet 32 s env) (parse_addr e lib s env)
  unfolding parse_addr
  parse_addr-inet s b env plain known fits =
      rw (plain, known, parse_addr, parse_plain)
        (finish-Accepts b inet 4 32 s env (inet-IsSa e lib L s b known) (omega arith) fits)

  -- A text with no `/` that `inet_pton` takes for an IPv6 address and not for an IPv4 one, and that
  -- fits, is accepted with a prefix of 64 bits; the rest of the address is cleared.
  pub parse_addr-inet6 :
      (s b : Bytes) (env : Env)
      → NoSlash s
      → lib.inet_pton inet s ≡ none
      → lib.inet_pton inet6 s ≡ some b
      → length s ≤ 46
      → Returns (Accepts e lib b inet6 64 s env) (parse_addr e lib s env)
  unfolding parse_addr
  parse_addr-inet6 s b env plain not_inet known fits =
      rw (plain, not_inet, known, parse_addr, parse_plain)
        (finish-Accepts b inet6 16 64 s env (inet6-IsSa e lib L s b known) (omega arith) fits)

  pub check_prefix-Accepts :
      (host b : Bytes) (fam : Family) (p : ℕ) (env : Env)
      → lib.inet_pton fam host ≡ some b
      → Suits fam p
      → length host ≤ 46
      → Returns (Accepts e lib b fam p host env) (check_prefix e lib host p env fam)
  unfolding check_prefix store_as
  check_prefix-Accepts host b unspec p env known le fits = absurd le
  check_prefix-Accepts host b (other n) p env known le fits = absurd le
  check_prefix-Accepts host b inet p env known le fits =
      let short : ltb 32 p ≡ false = ground arith in
      let byte : p % 256 ≡ p = omega arith in
      rw (short, known, byte)
        (finish-Accepts b inet 4 p host env (inet-IsSa e lib L host b known) (omega arith) fits)
  check_prefix-Accepts host b inet6 p env known le fits =
      let short : ltb 128 p ≡ false = ground arith in
      let byte : p % 256 ≡ p = omega arith in
      rw (short, known, byte)
        (finish-Accepts b inet6 16 p host env (inet6-IsSa e lib L host b known) (omega arith) fits)

  -- An address that the resolver and `inet_pton` know, a `/` and a decimal prefix length that suits
  -- its family are accepted with that prefix; the error is left alone.
  pub parse_addr-prefix :
      (host b : Bytes) (fam : Family) (p errno : ℕ) (env : Env)
      → NoSlash host
      → lib.getaddrinfo env.errno host ≡ (found fam, errno)
      → lib.inet_pton fam host ≡ some b
      → 0 < p
      → Suits fam p
      → length host ≤ 46
      → Returns
          (Accepts e lib b fam p host (record env { errno = errno }))
          (parse_addr e lib (host ++ b'/' ∷ decimal p) env)
  unfolding parse_addr
  parse_addr-prefix host b fam p errno env plain resolved known pos suits fits =
      rw
        (
          strchr-append b'/' host (decimal p) plain,
          parse_ulong-decimal p env pos (Suits-lt fam p suits),
          resolved,
          parse_addr,
          with_prefix,
        )
        (check_prefix-Accepts host b fam p (record env { errno = errno }) known suits fits)
