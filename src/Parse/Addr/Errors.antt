-- ===== src/Parse/Addr/Errors.antt =====
-- What `parse_addr` leaves in the caller's error.
use banip.Base.{
  strchr-append, ℕ, ◌%◌, ◌^◌, ◌≤◌, ◌≡◌, ap, ◌⊎◌, inl, inr, true, false, ◌∷◌, ◌++◌, some, Bytes,
  length, strchr, returns, undefined, invalid_free, Returns, Returns-mono, Returns-inv, ltb, ◌&&◌,
  arith, Bool-cases, Option-cases,
}
use banip.Error.{Env, Slot, empty, IsFull, Reports, Error, fail, error_set, error_set-full}
use banip.Parse.Ulong.{UlongParse, parse_ulong}
use banip.Parse.Ulong.Grammar.{parse_ulong_sound}
use banip.Parse.Word.{Endian}
use banip.Parse.Addr.{
  is_inet, is_inet6, Family, inet, inet6, Info, found, failed, Libc, IsLibc, Addr, rejected, zeroed,
  store_as, check_prefix, with_info, with_prefix, parse_plain, parse_addr,
}
use banip.Parse.Addr.Finish.{finish-Reports}
use banip.Parse.Addr.WellFormed.{inet-IsSa, inet6-IsSa, store_as-IsStored}
use banip.Parse.Addr.Accepts.{NoSlash, Suits, Accepts, check_prefix-Accepts}

-- With no error pending.
abbrev pub clean : ℕ → Env
clean errno = record { errno = errno; slot = empty }

pub env-clean : (env : Env) → env.slot ≡ empty → env ≡ clean env.errno
env-clean env h = ap (λ (t : Slot). record env { slot = t }) h

-- The text has no `/`, or `parse_ulong` accepts what follows it.
abbrev pub HasGoodPrefix : Bytes → ℕ → Type 0
HasGoodPrefix string errno =
    NoSlash string
    ⊎ ((host : Bytes) × (suffix : Bytes) × (strchr b'/' string ≡ some (host, suffix))
        × Returns (λ p. p.ok ≡ true) (parse_ulong suffix (clean errno)))

small_prefix :
    (fam : Family) (prefix : ℕ) {size : ℕ}
    → ((fam ≡ inet) × (size ≡ 4)) ⊎ ((fam ≡ inet6) × (size ≡ 16))
    → (is_inet fam && ltb 32 prefix) ≡ false
    → (is_inet6 fam && ltb 128 prefix) ≡ false
    → prefix % 2 ^ 8 ≤ 128
small_prefix fam prefix kind short short6 = ground arith

module _ (e : Endian) (lib : Libc) (L : IsLibc lib) where
  fail-Reports :
      (errno : ℕ) (err : Error) (a : Addr)
      → Returns (λ r. Reports r.ok r.env.slot) (fail (clean errno) err (rejected a))
  unfolding error_set
  fail-Reports errno err a = tt

  fail_full :
      (env : Env) (err : Error) (a : Addr)
      → IsFull env.slot
      → fail env err (rejected a) ≡ undefined invalid_free
  fail_full env err a h = rw (error_set-full env.slot err h)

  parse_plain-Reports :
      (s : Bytes) (errno : ℕ)
      → Returns (λ r. Reports r.ok r.env.slot) (parse_plain e lib s (clean errno))
  unfolding parse_plain
  parse_plain-Reports s errno = elim (Option-cases (lib.inet_pton inet s)) [
    | inr (b, known) ↦
        rw (known, parse_plain)
          (finish-Reports e lib L s _ errno (omega arith) (inet-IsSa e lib L s b known))
    | inl no_inet ↦ elim (Option-cases (lib.inet_pton inet6 s)) [
      | inr (b, known) ↦
          rw (no_inet, known, parse_plain)
            (finish-Reports e lib L s _ errno (omega arith) (inet6-IsSa e lib L s b known))
      | inl no_inet6 ↦ rw (no_inet, no_inet6, parse_plain) (fail-Reports errno _ zeroed)
    ]
  ]

  check_prefix-Reports :
      (host : Bytes) (prefix errno : ℕ) (fam : Family)
      → Returns (λ r. Reports r.ok r.env.slot) (check_prefix e lib host prefix (clean errno) fam)
  unfolding check_prefix
  check_prefix-Reports host prefix errno fam = elim (Bool-cases (is_inet fam && ltb 32 prefix)) [
    | inl long ↦ rw (long, check_prefix) (fail-Reports errno _ zeroed)
    | inr short ↦ elim (Bool-cases (is_inet6 fam && ltb 128 prefix)) [
      | inl long6 ↦ rw (short, long6, check_prefix) (fail-Reports errno _ zeroed)
      | inr short6 ↦ elim (Option-cases (store_as e lib fam host)) [
        | inl refused ↦ rw (short, short6, refused, check_prefix) (fail-Reports errno _ zeroed)
        | inr (out, known) ↦
            let inside = store_as-IsStored e lib L fam host known in
            rw (short, short6, known, check_prefix)
              (finish-Reports e lib L host _ errno
                (small_prefix fam prefix inside.kind short short6) inside.is_sa)
      ]
    ]
  ]

  with_info-Reports :
      (host : Bytes) (prefix errno : ℕ) (info : Info)
      → Returns (λ r. Reports r.ok r.env.slot) (with_info e lib host prefix (clean errno) info)
  unfolding with_info
  with_info-Reports host prefix errno (failed code) = fail-Reports errno _ zeroed
  with_info-Reports host prefix errno (found fam) = check_prefix-Reports host prefix errno fam

  -- With no error pending, and with no prefix or one that `parse_ulong` accepts, the call returns;
  -- it succeeds and leaves no error, or it fails and leaves one.
  pub parse_addr-Reports :
      (string : Bytes) (errno : ℕ)
      → HasGoodPrefix string errno
      → Returns (λ r. Reports r.ok r.env.slot) (parse_addr e lib string (clean errno))
  unfolding parse_addr
  parse_addr-Reports string errno (inl plain) =
      rw (plain, parse_addr) (parse_plain-Reports string errno)
  parse_addr-Reports string errno (inr (host, suffix, split, good)) =
      let (p, run, ok) = Returns-inv _ (parse_ulong suffix (clean errno)) good in
      let same : p.env ≡ clean errno = (parse_ulong_sound suffix (clean errno) run ok).1 in
      rw (split, run, same, parse_addr, with_prefix) (with_info-Reports host p.val _ _)

  -- A prefix that `parse_ulong` refuses is not refused here: if it read a number that suits the
  -- family, the address is accepted with that number for a prefix, and the error of `parse_ulong`
  -- is left to the caller beside the success.
  pub parse_addr-bad_prefix :
      (host suffix b : Bytes) (fam : Family) (env : Env) {q : UlongParse}
      → NoSlash host
      → parse_ulong suffix env ≡ returns q
      → q.ok ≡ false
      → lib.inet_pton fam host ≡ some b
      → (lib.getaddrinfo q.env.errno host).0 ≡ found fam
      → Suits fam q.val
      → length host ≤ 46
      → Returns
          (λ r. (r.ok ≡ true) × (r.addr.netmask ≡ q.val) × (r.env.slot ≡ q.env.slot))
          (parse_addr e lib (host ++ b'/' ∷ suffix) env)
  unfolding parse_addr
  parse_addr-bad_prefix host suffix b fam env {q} plain run refused known resolved suits fits =
      rw (strchr-append b'/' host suffix plain, run, resolved, parse_addr, with_prefix)
        (Returns-mono (Accepts e lib b fam q.val host _) _ _
          (check_prefix-Accepts e lib L host b fam q.val _ known suits fits)
          λ r a. (a.accepted, a.prefix, ap (λ (t : Env). t.slot) a.same_env))

  -- A refused prefix behind an address that `getaddrinfo` does not know: the second message finds
  -- the first in place, and what holds it is passed to `free`.
  pub parse_addr-bad_both :
      (host suffix : Bytes) (code : ℕ) (env : Env) {q : UlongParse}
      → NoSlash host
      → parse_ulong suffix env ≡ returns q
      → IsFull q.env.slot
      → (lib.getaddrinfo q.env.errno host).0 ≡ failed code
      → parse_addr e lib (host ++ b'/' ∷ suffix) env ≡ undefined invalid_free
  unfolding parse_addr
  parse_addr-bad_both host suffix code env {q} plain run message resolved =
      rw (strchr-append b'/' host suffix plain, run, resolved, parse_addr, with_prefix)
        (fail_full _ _ zeroed message)
