-- ===== src/Parse/Mask/Laws.antt =====
-- What the mask does to an address: the prefix stays, all bits behind it are cleared.
use Prim.Native.Nat.{min}
use banip.Base.{
  ℕ, ◌+◌, ◌-◌, ◌*◌, ◌^◌, ◌≤◌, ◌<◌, ◌≡◌, ◌∙◌, ap, ap₂, sym, subst, List, [], ◌∷◌, Returns, bit_and,
  arith,
}
use native.Mathlib.Nat.{zero-add}
use banip.Base.Bits.{bit_and-le}
use banip.Base.Floor.{floor_to, two_pow_pos, pow_add, floor_to-word, bit_and_high}
use banip.Parse.Word.{Endian, htonl, IsWord, net_value, htonl-IsWord, htonl-htonl}
use banip.Parse.Word.Conj.{htonl-bit_and}
use banip.Parse.Mask.{apply_netmask}
use banip.Parse.Mask.Table.{ones, mask_words-net_mask}

-- The four words of `addr_t.sa`.
abbrev pub IsSa : List ℕ → Type 0
IsSa (a ∷ b ∷ c ∷ d ∷ []) = IsWord a × IsWord b × IsWord c × IsWord d
IsSa _ = ⊥

-- The low digits that `ones k` clears.
abbrev cleared : ℕ → ℕ
cleared k = 32 - min k 32

ones-IsWord : (k : ℕ) → IsWord (ones k)
ones-IsWord k =
    let n = min k 32 in
    let whole : n + (32 - n) ≡ 32 = omega arith in
    let top : 2 ^ n ≡ 2 ^ n - 1 + 1 = omega (arith, two_pow_pos n) in
    omega (
      arith,
      pow_add n (32 - n),
      ap (λ (t : ℕ). 2 ^ t) whole,
      ap (λ (t : ℕ). t * 2 ^ (32 - n)) top,
      two_pow_pos (32 - n),
    )

bit_and-ones : (k h : ℕ) → IsWord h → bit_and h (ones k) ≡ floor_to (cleared k) h
bit_and-ones k h p = bit_and_high (min k 32) (cleared k) h (subst (λ (t : ℕ). h < 2 ^ t) whole p)
  where
    whole : 32 ≡ min k 32 + cleared k
    whole = omega arith

masked_word :
    (e : Endian) (k w : ℕ)
    → IsWord w
    → htonl e (bit_and w (htonl e (ones k))) ≡ floor_to (cleared k) (htonl e w)
masked_word e k w h =
    htonl-bit_and e w (htonl e (ones k)) h (htonl-IsWord e (ones k) (ones-IsWord k))
    ∙ ap (bit_and (htonl e w)) (htonl-htonl e (ones k) (ones-IsWord k))
    ∙ bit_and-ones k (htonl e w) (htonl-IsWord e w h)

-- The last word of a longer address.
floor_to-last :
    (k j c H L : ℕ)
    → IsWord L
    → k - 32 ≡ j
    → min k 32 ≡ c
    → floor_to k (H * 2 ^ 32 + L) ≡ floor_to j H * 2 ^ 32 + floor_to c L
floor_to-last k j c H L h p q =
    floor_to-word k H L h ∙ ap₂ (λ (s t : ℕ). floor_to s H * 2 ^ 32 + floor_to t L) p q

floor_to-words :
    (p A B C D : ℕ)
    → p ≤ 128
    → IsWord B
    → IsWord C
    → IsWord D
    → floor_to (128 - p) (((A * 2 ^ 32 + B) * 2 ^ 32 + C) * 2 ^ 32 + D)
      ≡ ((floor_to (cleared p) A * 2 ^ 32 + floor_to (cleared (p - 32)) B) * 2 ^ 32
            + floor_to (cleared (p - 64)) C)
          * 2 ^ 32
        + floor_to (cleared (p - 96)) D
floor_to-words p A B C D h hb hc hd =
    floor_to-last (128 - p) (96 - p) _ _ D hd (omega arith) (omega arith)
    ∙ ap (λ (t : ℕ). t * 2 ^ 32 + floor_to (cleared (p - 96)) D)
        (floor_to-last (96 - p) (64 - p) _ _ C hc (omega arith) (omega arith)
          ∙ ap (λ (t : ℕ). t * 2 ^ 32 + floor_to (cleared (p - 64)) C)
              (floor_to-last (64 - p) (cleared p) (cleared (p - 32)) A B hb (omega arith)
                (omega arith)))

-- For a prefix of at most 128 bits no access leaves the arrays, and of the address, read as one
-- number in network byte order, the first `netmask` bits stay and all others become 0.
pub apply_netmask-clears :
    (e : Endian) (netmask : ℕ) (sa : List ℕ)
    → netmask ≤ 128
    → IsSa sa
    → Returns
        (λ r. IsSa r × (net_value e 0 r ≡ floor_to (128 - netmask) (net_value e 0 sa)))
        (apply_netmask e netmask sa)
unfolding apply_netmask
apply_netmask-clears e p (a ∷ b ∷ c ∷ d ∷ []) h sa = rw mask_words-net_mask (
  (and_lt a _ sa.0, and_lt b _ sa.1, and_lt c _ sa.2, and_lt d _ sa.3),
  rw
      (
        masked_word e p a sa.0,
        masked_word e (p - 32) b sa.1,
        masked_word e (p - 64) c sa.2,
        masked_word e (p - 96) d sa.3,
        zero-add,
        zero-add,
      )
      (sym (
        floor_to-words p (htonl e a) (htonl e b) (htonl e c) (htonl e d) h (htonl-IsWord e b sa.1)
          (htonl-IsWord e c sa.2) (htonl-IsWord e d sa.3))),
)
  where
    and_lt : (x y : ℕ) → IsWord x → IsWord (bit_and x y)
    and_lt x y lt = omega (arith, bit_and-le x y)
apply_netmask-clears e p [] h sa = absurd sa
apply_netmask-clears e p (a ∷ []) h sa = absurd sa
apply_netmask-clears e p (a ∷ b ∷ []) h sa = absurd sa
apply_netmask-clears e p (a ∷ b ∷ c ∷ []) h sa = absurd sa
apply_netmask-clears e p (a ∷ b ∷ c ∷ d ∷ x ∷ l) h sa = absurd sa
