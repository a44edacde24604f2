-- ===== src/Parse/Addr.antt =====
-- parse.c and parse.h: `addr_t` and `parse_addr`. `strdup` is taken to succeed.
pub mod Finish
pub mod WellFormed
pub mod Accepts
pub mod Errors
use banip.Base.{
  ℕ, ◌+◌, ◌-◌, ◌%◌, ◌^◌, ◌<◌, ◌≡◌, Bool, true, false, ◌&&◌, List, [], ◌∷◌, ◌++◌, Option, none, some,
  Bytes, All, length, take, replicate, strchr, ltb, leb, if◌then◌else◌, Outcome, returns, ◌>>=◌,
}
use banip.Error.{Env, generic, fail}
use banip.Parse.Ulong.{UlongParse, parse_ulong}
use banip.Parse.Word.{Endian, IsByte, load_words}
use banip.Parse.Mask.{apply_netmask}

-- `AF_UNSPEC`, `AF_INET`, `AF_INET6` and all others.
pub data Family : Type 0 where
  unspec inet inet6 : Family
  other : ℕ → Family

abbrev pub is_inet : Family → Bool
is_inet inet = true
is_inet _ = false

abbrev pub is_inet6 : Family → Bool
is_inet6 inet6 = true
is_inet6 _ = false

-- What `getaddrinfo` gives: the `ai_family` of the first result, or an error code.
pub data Info : Type 0 where
  found : Family → Info
  failed : ℕ → Info

-- The C library's functions on addresses and texts.
pub record Libc : Type 0 where
  -- the bytes that `inet_pton` writes where it returns 1
  pub inet_pton : Family → Bytes → Option Bytes
  -- with `AI_NUMERICHOST`; `errno` before and after
  pub getaddrinfo : ℕ → Bytes → Info × ℕ
  -- the text that is copied, and the length returned
  pub strlcpy : ℕ → Bytes → Bytes × ℕ

-- The documented behaviour of those functions.
pub record IsLibc (lib : Libc) : Type 0 where
  pub inet_size : (s b : Bytes) → lib.inet_pton inet s ≡ some b → (length b ≡ 4) × All IsByte b
  pub inet6_size : (s b : Bytes) → lib.inet_pton inet6 s ≡ some b → (length b ≡ 16) × All IsByte b
  pub copies : (n : ℕ) (s : Bytes) → 0 < n → lib.strlcpy n s ≡ (take (n - 1) s, length s)

-- `addr_t`, with `sa` as the four words that the host reads.
pub record Addr : Type 0 where
  pub sa : List ℕ
  pub fa : Family
  pub sa_size : ℕ
  pub netmask : ℕ
  pub humanrepr : Bytes

pub record AddrParse : Type 0 where
  pub ok : Bool
  pub addr : Addr
  pub env : Env

-- `bzero(addr, sizeof(*addr))`
abbrev pub zeroed : Addr
zeroed = record { sa = 0 ∷ 0 ∷ 0 ∷ 0 ∷ []; fa = unspec; sa_size = 0; netmask = 0; humanrepr = [] }

-- `INET6_ADDRSTRLEN + 1`
abbrev pub humanrepr_size : ℕ
humanrepr_size = 47

abbrev pub rejected : Addr → Env → AddrParse
rejected addr env = record { ok = false; addr = addr; env = env }

module _ (e : Endian) (lib : Libc) where
  -- `addr->sa` after `inet_pton`, over memory that was zero.
  abbrev pub stored : Bytes → List ℕ
  stored b = load_words e (b ++ replicate (16 - length b) 0)

  -- The netmask is applied, and the text copied.
  unfoldable pub finish : Bytes → Env → Addr → Outcome AddrParse
  finish buffer env addr = do
    sa ← apply_netmask e addr.netmask addr.sa
    let copied = lib.strlcpy humanrepr_size buffer
    let done = record addr { sa = sa; humanrepr = copied.0 }
    if leb humanrepr_size copied.1
        then fail env (generic "buffer overflow") (rejected done)
        else returns (record { ok = true; addr = done; env = env })

  -- The branch with no `/`.
  unfoldable pub parse_plain : Bytes → Env → Outcome AddrParse
  parse_plain buffer env = elim (lib.inet_pton inet buffer) [
    | some b ↦
        finish buffer env (record zeroed { sa = stored b; fa = inet; sa_size = 4; netmask = 32 })
    | none ↦ elim (lib.inet_pton inet6 buffer) [
      | some b ↦
          finish buffer env
            (record zeroed { sa = stored b; fa = inet6; sa_size = 16; netmask = 64 })
      | none ↦ fail env (generic "valid address expected, got: %s") (rejected zeroed)
    ]
  ]

  -- `addr->sa` and its size, by the family that `getaddrinfo` reported.
  unfoldable pub store_as : Family → Bytes → Option (List ℕ × ℕ)
  store_as inet buffer = elim (lib.inet_pton inet buffer) [
    | some b ↦ some (stored b, 4)
    | none ↦ none
  ]
  store_as inet6 buffer = elim (lib.inet_pton inet6 buffer) [
    | some b ↦ some (stored b, 16)
    | none ↦ none
  ]
  store_as _ buffer = none

  -- The branch with a `/`, once the prefix is read; `netmask` is a `uint8_t`.
  unfoldable pub check_prefix : Bytes → ℕ → Env → Family → Outcome AddrParse
  check_prefix buffer prefix env family =
      if is_inet family && ltb 32 prefix
      then fail env (generic "prefix too long for AF_INET") (rejected zeroed)
      else if is_inet6 family && ltb 128 prefix
      then fail env (generic "prefix too long for AF_INET6") (rejected zeroed)
      else elim (store_as family buffer) [
        | none ↦ fail env (generic "valid address expected, got: %s") (rejected zeroed)
        | some (sa, size) ↦
            finish buffer env
              (record zeroed { sa = sa; sa_size = size; netmask = prefix % 2 ^ 8; fa = family })
      ]

  unfoldable pub with_info : Bytes → ℕ → Env → Info → Outcome AddrParse
  with_info buffer prefix env (failed code) =
      fail env (generic "getaddrinfo failed: %s") (rejected zeroed)
  with_info buffer prefix env (found family) = check_prefix buffer prefix env family

  unfoldable pub with_prefix : Bytes → UlongParse → Outcome AddrParse
  unfolding with_info
  with_prefix buffer p =
      let answer = lib.getaddrinfo p.env.errno buffer in
      with_info buffer p.val (record p.env { errno = answer.1 }) answer.0

  -- The result of `parse_ulong` is not looked at; only `prefix` and the error are kept.
  unfoldable pub parse_addr : Bytes → Env → Outcome AddrParse
  unfolding parse_plain with_prefix check_prefix store_as finish
  parse_addr string env = elim (strchr b'/' string) [
    | some (buffer, suffix) ↦ do p ← parse_ulong suffix env; with_prefix buffer p
    | none ↦ parse_plain string env
  ]
