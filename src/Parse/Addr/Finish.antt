-- ===== src/Parse/Addr/Finish.antt =====
-- The common end of `parse_addr`: a stored address is masked, and its text copied if it fits.
use banip.Base.{
  ℕ, zero, suc, ◌-◌, ◌*◌, ◌≤◌, ◌<◌, ◌≡◌, refl, ap, inl, inr, ◌∙◌, true, false, List, [], ◌∷◌, ◌++◌,
  Bytes, All, All-append, All-replicate, length-append, length-replicate, length, take, replicate,
  returns, Returns, Returns->>=, Returns-mono, Returns-at, arith, leb, leb→le, Bool-cases,
}
use banip.Base.Floor.{floor_to}
use banip.Error.{Env, empty, IsFull, error_set, Reports, Reports-true, Reports-false}
use banip.Parse.Word.{Endian, IsByte, IsWord, quad, htonl-IsWord, load_words, net_value}
use banip.Parse.Mask.{apply_netmask}
use banip.Parse.Mask.Laws.{IsSa, apply_netmask-clears}
use banip.Parse.Addr.{Libc, IsLibc, Addr, AddrParse, stored, finish, humanrepr_size}

-- Bytes load as words, four by four.
load_words_sound :
    (e : Endian) (n : ℕ) (b : Bytes)
    → length b ≡ n * 4
    → All IsByte b
    → (length (load_words e b) ≡ n) × All IsWord (load_words e b)
unfolding load_words
load_words_sound e zero [] h bytes = (refl, tt)
load_words_sound e (suc n) [] h bytes = absurd (omega arith)
load_words_sound e n (a ∷ []) h bytes = absurd (omega arith)
load_words_sound e n (a ∷ b ∷ []) h bytes = absurd (omega arith)
load_words_sound e n (a ∷ b ∷ c ∷ []) h bytes = absurd (omega arith)
load_words_sound e zero (a ∷ b ∷ c ∷ d ∷ s) h bytes = absurd (omega arith)
load_words_sound e (suc n) (a ∷ b ∷ c ∷ d ∷ s) h bytes =
    let (more, words) = load_words_sound e n s (omega arith) bytes.1.1.1.1 in
    (ap suc more, (htonl-IsWord e (quad a b c d) (omega arith), words))

four_words : (l : List ℕ) → length l ≡ 4 → All IsWord l → IsSa l
four_words [] h w = absurd (omega arith)
four_words (a ∷ []) h w = absurd (omega arith)
four_words (a ∷ b ∷ []) h w = absurd (omega arith)
four_words (a ∷ b ∷ c ∷ []) h w = absurd (omega arith)
four_words (a ∷ b ∷ c ∷ d ∷ []) h w = (w.0, w.1.0, w.1.1.0, w.1.1.1.0)
four_words (a ∷ b ∷ c ∷ d ∷ x ∷ l) h w = absurd (omega arith)

pub stored-IsSa :
    (e : Endian) (lib : Libc) (b : Bytes) → length b ≤ 16 → All IsByte b → IsSa (stored e lib b)
stored-IsSa e lib b size bytes =
    let (len, words) =
      load_words_sound e 4 (b ++ replicate (16 - length b) 0)
        (length-append b _ ∙ omega (arith, length-replicate {A = ℕ} (16 - length b) 0))
        (All-append IsByte b _ bytes (All-replicate IsByte (16 - length b) 0 (omega arith))) in
    four_words _ len words

-- What the address becomes.
pub record IsMasked (e : Endian) (before : Addr) (buffer : Bytes) (after : Addr) : Type 0 where
  pub words : IsSa after.sa
  pub prefix_kept :
      net_value e 0 after.sa ≡ floor_to (128 - before.netmask) (net_value e 0 before.sa)
  pub same_family : after.fa ≡ before.fa
  pub same_size : after.sa_size ≡ before.sa_size
  pub same_netmask : after.netmask ≡ before.netmask
  pub text : after.humanrepr ≡ take 46 buffer

module _ (e : Endian) (lib : Libc) (L : IsLibc lib) (buffer : Bytes) (addr : Addr) where
  pub finish_fits :
      (env : Env)
      → addr.netmask ≤ 128
      → IsSa addr.sa
      → length buffer ≤ 46
      → Returns
          (λ r. (r.ok ≡ true) × (r.env ≡ env) × IsMasked e addr buffer r.addr)
          (finish e lib buffer env addr)
  unfolding finish
  finish_fits env le sa fits =
      let short : leb 47 (length buffer) ≡ false = ground arith in
      Returns->>= _ _ (apply_netmask e addr.netmask addr.sa) _
        (apply_netmask-clears e addr.netmask addr.sa le sa)
        λ words (is_sa, kept).
          rw (L.copies humanrepr_size buffer (omega arith), short)
            (
              refl,
              refl,
              record {
                words = is_sa;
                prefix_kept = kept;
                same_family = refl;
                same_size = refl;
                same_netmask = refl;
                text = refl;
              },
            )

  pub finish_long :
      (errno : ℕ)
      → addr.netmask ≤ 128
      → IsSa addr.sa
      → 46 < length buffer
      → Returns
          (λ r. (r.ok ≡ false) × IsFull r.env.slot)
          (finish e lib buffer (record { errno = errno; slot = empty }) addr)
  unfolding finish error_set
  finish_long errno le sa long =
      let full_buffer : leb 47 (length buffer) ≡ true = ground arith in
      Returns->>= _ _ (apply_netmask e addr.netmask addr.sa) _
        (apply_netmask-clears e addr.netmask addr.sa le sa)
        λ words (is_sa, kept).
          rw (L.copies humanrepr_size buffer (omega arith), full_buffer) (refl, tt)

  finish_ok-fits :
      (env : Env) {r : AddrParse}
      → finish e lib buffer env addr ≡ returns r
      → r.ok ≡ true
      → length buffer ≤ 46
  unfolding finish error_set
  finish_ok-fits env run ok =
      let copied = L.copies humanrepr_size buffer (omega arith) in ground arith

  -- An accepted address is masked, and the error is left alone.
  pub finish_accepted :
      (env : Env) {r : AddrParse}
      → addr.netmask ≤ 128
      → IsSa addr.sa
      → finish e lib buffer env addr ≡ returns r
      → r.ok ≡ true
      → (r.env ≡ env) × IsMasked e addr buffer r.addr
  finish_accepted env le sa run ok =
      let (_, same, masked) =
        Returns-at _ _ (finish_fits env le sa (finish_ok-fits env run ok)) run in
      (same, masked)

  pub finish-Reports :
      (errno : ℕ)
      → addr.netmask ≤ 128
      → IsSa addr.sa
      → Returns
          (λ r. Reports r.ok r.env.slot)
          (finish e lib buffer (record { errno = errno; slot = empty }) addr)
  finish-Reports errno le sa = elim (Bool-cases (leb (length buffer) 46)) [
    | inl fits ↦
        Returns-mono (λ r. (r.ok ≡ true) × (r.env ≡ env) × IsMasked e addr buffer r.addr) _ _
          (finish_fits env le sa (leb→le (length buffer) 46 fits))
          λ r h. Reports-true r.ok r.env.slot h.0 (ap (λ (t : Env). t.slot) h.1)
    | inr long ↦
        Returns-mono (λ r. (r.ok ≡ false) × IsFull r.env.slot) _ _
          (finish_long errno le sa (ground arith)) λ r h. Reports-false r.ok r.env.slot h.0 h.1
  ]
    where
      env : Env
      env = record { errno = errno; slot = empty }
