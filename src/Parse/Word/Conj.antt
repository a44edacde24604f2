-- ===== src/Parse/Word/Conj.antt =====
-- `&` commutes with `htonl`.
use banip.Base.{ℕ, ◌+◌, ◌*◌, ◌^◌, ◌≡◌, refl, ◌∙◌, ap, ap₂, sym, bit_and, arith}
use banip.Base.Bits.{bit_and_split, bit_and-le}
use banip.Parse.Word.{Endian, little, big, quad, byte_of, htonl, IsWord, IsByte}

bit_and-quad :
    (a b c d a' b' c' d' : ℕ)
    → IsByte b
    → IsByte c
    → IsByte d
    → IsByte b'
    → IsByte c'
    → IsByte d'
    → bit_and (quad a b c d) (quad a' b' c' d')
      ≡ quad (bit_and a a') (bit_and b b') (bit_and c c') (bit_and d d')
bit_and-quad a b c d a' b' c' d' hb hc hd hb' hc' hd' = omega (
  arith,
  bit_and_split 8 ((a * 2 ^ 8 + b) * 2 ^ 8 + c) d ((a' * 2 ^ 8 + b') * 2 ^ 8 + c') d' hd hd',
  bit_and_split 8 (a * 2 ^ 8 + b) c (a' * 2 ^ 8 + b') c' hc hc',
  bit_and_split 8 a b a' b' hb hb',
)

quad-bytes : (w : ℕ) → IsWord w → w ≡ quad (byte_of w 24) (byte_of w 16) (byte_of w 8) (byte_of w 0)
quad-bytes w h = omega arith

swap-quad :
    (a b c d : ℕ)
    → IsByte a
    → IsByte b
    → IsByte c
    → IsByte d
    → htonl little (quad a b c d) ≡ quad d c b a
unfolding htonl
swap-quad a b c d ha hb hc hd = omega arith

bit_and-IsByte : (a b : ℕ) → IsByte a → IsByte (bit_and a b)
bit_and-IsByte a b h = omega (arith, bit_and-le a b)

-- A network-order view of a conjunction of words in memory.
pub htonl-bit_and :
    (e : Endian) (v w : ℕ)
    → IsWord v
    → IsWord w
    → htonl e (bit_and v w) ≡ bit_and (htonl e v) (htonl e w)
htonl-bit_and little v w hv hw =
    let byte_lt = λ (x k : ℕ). let lt : IsByte (byte_of x k) = omega arith in lt in
    let and_lt = λ (k : ℕ). bit_and-IsByte (byte_of v k) (byte_of w k) (byte_lt v k) in
    ap₂ (λ (x y : ℕ). htonl little (bit_and x y)) (quad-bytes v hv) (quad-bytes w hw)
    ∙ ap (htonl little) (
        bit_and-quad _ _ _ _ _ _ _ _ (byte_lt v 16) (byte_lt v 8) (byte_lt v 0) (byte_lt w 16)
          (byte_lt w 8) (byte_lt w 0))
    ∙ swap-quad _ _ _ _ (and_lt 24) (and_lt 16) (and_lt 8) (and_lt 0)
    ∙ sym (
        bit_and-quad _ _ _ _ _ _ _ _ (byte_lt v 8) (byte_lt v 16) (byte_lt v 24) (byte_lt w 8)
          (byte_lt w 16) (byte_lt w 24))
    ∙ unfold htonl in refl
htonl-bit_and big v w hv hw = unfold htonl in refl
