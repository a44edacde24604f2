-- ===== src/Parse/Addr/WellFormed.antt =====
-- Every address that `parse_addr` accepts is well formed, whatever the error it leaves.
use banip.Base.{
  ℕ, zero, suc, ◌-◌, ◌%◌, ◌^◌, ◌≤◌, ◌≡◌, refl, ap, sym, subst, ◌⊎◌, inl, inr, ◌∙◌, true, false,
  List, [], ◌∷◌, some, Bytes, length, take, strchr, returns, >>=-eq-returns, arith, Option-cases,
  some_inj,
}
use banip.Base.Floor.{floor_to, floor_to_idem}
use banip.Error.{Env, Error, fail, error_set}
use banip.Parse.Ulong.{parse_ulong}
use banip.Parse.Word.{Endian, net_value}
use banip.Parse.Mask.Laws.{IsSa}
use banip.Parse.Addr.{
  Family, unspec, inet, inet6, other, Info, found, failed, Libc, IsLibc, Addr, AddrParse, rejected,
  zeroed, stored, finish, store_as, check_prefix, with_info, with_prefix, parse_plain, parse_addr,
}
use banip.Parse.Addr.Finish.{IsMasked, finish_accepted, stored-IsSa}

-- What an engine may rely on.
pub record IsWellFormed (e : Endian) (a : Addr) : Type 0 where
  pub words : IsSa a.sa
  pub family :
      ((a.fa ≡ inet) × (a.sa_size ≡ 4) × (a.netmask ≤ 32))
      ⊎ ((a.fa ≡ inet6) × (a.sa_size ≡ 16) × (a.netmask ≤ 128))
  pub aligned : net_value e 0 a.sa ≡ floor_to (128 - a.netmask) (net_value e 0 a.sa)
  pub text_fits : length a.humanrepr ≤ 46

take-le : (n : ℕ) (s : Bytes) → length (take n s) ≤ n
take-le zero s = omega arith
take-le (suc n) [] = omega arith
take-le (suc n) (c ∷ s) = omega (arith, take-le n s)

IsMasked-IsWellFormed :
    (e : Endian) (before : Addr) (buffer : Bytes) (after : Addr)
    → ((before.fa ≡ inet) × (before.sa_size ≡ 4) × (before.netmask ≤ 32))
      ⊎ ((before.fa ≡ inet6) × (before.sa_size ≡ 16) × (before.netmask ≤ 128))
    → IsMasked e before buffer after
    → IsWellFormed e after
IsMasked-IsWellFormed e before buffer after kind m = record {
  words = m.words;
  family = ground arith;
  aligned = rw m.same_netmask (
      m.prefix_kept
      ∙ sym (
          ap (floor_to (128 - before.netmask)) m.prefix_kept
          ∙ floor_to_idem (128 - before.netmask) (net_value e 0 before.sa)));
  text_fits = rw m.text (take-le 46 buffer);
}

fail-rejected :
    (env : Env) (err : Error) (a : Addr) {r : AddrParse}
    → fail env err (rejected a) ≡ returns r
    → r.ok ≡ false
unfolding error_set
fail-rejected env err a h = ground arith

module _ (e : Endian) (lib : Libc) (L : IsLibc lib) where
  pub inet-IsSa : (s b : Bytes) → lib.inet_pton inet s ≡ some b → IsSa (stored e lib b)
  inet-IsSa s b h = let (size, bytes) = L.inet_size s b h in stored-IsSa e lib b (omega arith) bytes

  pub inet6-IsSa : (s b : Bytes) → lib.inet_pton inet6 s ≡ some b → IsSa (stored e lib b)
  inet6-IsSa s b h =
      let (size, bytes) = L.inet6_size s b h in stored-IsSa e lib b (omega arith) bytes

  -- What is stored is an address of the family, with its size.
  pub record IsStored (fam : Family) (out : List ℕ × ℕ) : Type 0 where
    pub is_sa : IsSa out.0
    pub kind : ((fam ≡ inet) × (out.1 ≡ 4)) ⊎ ((fam ≡ inet6) × (out.1 ≡ 16))

  pub store_as-IsStored :
      (fam : Family) (buffer : Bytes) {out : List ℕ × ℕ}
      → store_as e lib fam buffer ≡ some out
      → IsStored fam out
  unfolding store_as
  store_as-IsStored inet buffer h = elim (Option-cases (lib.inet_pton inet buffer)) [
    | inl refused ↦ absurd (cc (rw (refused, store_as) at h))
    | inr (b, e1) ↦
        subst (IsStored inet) (some_inj (rw (e1, store_as) at h))
          (record { is_sa = inet-IsSa buffer b e1; kind = inl (refl, refl) })
  ]
  store_as-IsStored inet6 buffer h = elim (Option-cases (lib.inet_pton inet6 buffer)) [
    | inl refused ↦ absurd (cc (rw (refused, store_as) at h))
    | inr (b, e1) ↦
        subst (IsStored inet6) (some_inj (rw (e1, store_as) at h))
          (record { is_sa = inet6-IsSa buffer b e1; kind = inr (refl, refl) })
  ]
  store_as-IsStored unspec buffer h = absurd (cc h)
  store_as-IsStored (other n) buffer h = absurd (cc h)

  module _ (buffer : Bytes) (prefix : ℕ) (env : Env) (fam : Family) where
    abbrev filled : List ℕ × ℕ → Addr
    filled out = record zeroed { sa = out.0; sa_size = out.1; netmask = prefix % 2 ^ 8; fa = fam }

    pub record IsChecked (r : AddrParse) : Type 0 where
      pub out : List ℕ × ℕ
      pub stored_so : store_as e lib fam buffer ≡ some out
      pub finished : finish e lib buffer env (filled out) ≡ returns r
      pub short_inet : fam ≡ inet → prefix ≤ 32
      pub short_inet6 : fam ≡ inet6 → prefix ≤ 128

    check_prefix-IsChecked :
        {r : AddrParse}
        → check_prefix e lib buffer prefix env fam ≡ returns r
        → r.ok ≡ true
        → IsChecked r
    unfolding check_prefix error_set
    check_prefix-IsChecked run ok = elim (Option-cases (store_as e lib fam buffer)) [
      | inl refused ↦ absurd (ground arith)
      | inr (found_at, e1) ↦ record {
        out = found_at;
        stored_so = e1;
        finished = ground arith;
        short_inet = λ h. ground arith;
        short_inet6 = λ h. ground arith;
      }
    ]

    check_prefix-IsWellFormed :
        {r : AddrParse}
        → check_prefix e lib buffer prefix env fam ≡ returns r
        → r.ok ≡ true
        → IsWellFormed e r.addr
    check_prefix-IsWellFormed {r} run ok =
        let checked = check_prefix-IsChecked run ok in
        let inside = store_as-IsStored fam buffer checked.stored_so in
        let le : prefix % 2 ^ 8 ≤ 128 = elim inside.kind [
          | inl (is, _) ↦ let short = checked.short_inet is in omega arith
          | inr (is, _) ↦ let short = checked.short_inet6 is in omega arith
        ] in
        let kind : ((fam ≡ inet) × (checked.out.1 ≡ 4) × (prefix % 2 ^ 8 ≤ 32))
            ⊎ ((fam ≡ inet6) × (checked.out.1 ≡ 16) × (prefix % 2 ^ 8 ≤ 128)) =
          elim inside.kind [
            | inl (is, size) ↦ let short = checked.short_inet is in inl (is, size, omega arith)
            | inr (is, size) ↦ inr (is, size, le)
          ] in
        let masked =
          finish_accepted e lib L buffer (filled checked.out) env le inside.is_sa checked.finished
            ok in
        IsMasked-IsWellFormed e (filled checked.out) buffer r.addr kind masked.1

  parse_plain-IsWellFormed :
      (buffer : Bytes) (env : Env) {r : AddrParse}
      → parse_plain e lib buffer env ≡ returns r
      → r.ok ≡ true
      → IsWellFormed e r.addr
  unfolding parse_plain
  parse_plain-IsWellFormed buffer env {r} run ok = elim (Option-cases (lib.inet_pton inet buffer)) [
    | inr (b, e1) ↦
        let before : Addr = record zeroed {
          sa = stored e lib b;
          fa = inet;
          sa_size = 4;
          netmask = 32;
        } in
        IsMasked-IsWellFormed e before buffer r.addr (inl (refl, refl, omega arith))
          (finish_accepted e lib L buffer before env (omega arith) (inet-IsSa buffer b e1)
            (rw (e1, parse_plain) at run) ok).1
    | inl no_inet ↦ elim (Option-cases (lib.inet_pton inet6 buffer)) [
      | inr (b, e1) ↦
          let before : Addr = record zeroed {
            sa = stored e lib b;
            fa = inet6;
            sa_size = 16;
            netmask = 64;
          } in
          IsMasked-IsWellFormed e before buffer r.addr (inr (refl, refl, omega arith))
            (finish_accepted e lib L buffer before env (omega arith) (inet6-IsSa buffer b e1)
              (rw (no_inet, e1, parse_plain) at run) ok).1
      | inl no_inet6 ↦
          let bad = fail-rejected env _ zeroed (rw (no_inet, no_inet6, parse_plain) at run) in
          absurd (cc (ok, bad))
    ]
  ]

  with_info-IsWellFormed :
      (buffer : Bytes) (prefix : ℕ) (env : Env) (info : Info) {r : AddrParse}
      → with_info e lib buffer prefix env info ≡ returns r
      → r.ok ≡ true
      → IsWellFormed e r.addr
  unfolding with_info
  with_info-IsWellFormed buffer prefix env (failed code) run ok =
      let bad = fail-rejected env _ zeroed run in absurd (cc (ok, bad))
  with_info-IsWellFormed buffer prefix env (found family) run ok =
      check_prefix-IsWellFormed buffer prefix env family run ok

  -- Every accepted address has four words, a family of which the size and the prefix length are
  -- right, no bit set behind the prefix, and a text that fits its array.
  pub parse_addr-IsWellFormed :
      (string : Bytes) (env : Env) {r : AddrParse}
      → parse_addr e lib string env ≡ returns r
      → r.ok ≡ true
      → IsWellFormed e r.addr
  unfolding parse_addr
  parse_addr-IsWellFormed string env run ok = elim (Option-cases (strchr b'/' string)) [
    | inl plain ↦ parse_plain-IsWellFormed string env (rw (plain, parse_addr) at run) ok
    | inr ((buffer, suffix), split) ↦
        let (p, _, rest) =
          >>=-eq-returns (parse_ulong suffix env) (with_prefix e lib buffer)
            (rw (split, parse_addr) at run) in
        with_info-IsWellFormed buffer p.val _ _ rest ok
  ]
