-- ===== src/Engine/Pf/Mask.antt =====
-- The mask of the states that pf.c kills, and the mask that parse.c applies.
use banip.Base.{
  ℕ, ◌≤◌, ◌≡◌, refl, Bool, true, List, [], ◌∷◌, map, take, Outcome, returns, ◌>>=◌, arith,
  Bool-cases, inl, inr, ltb,
}
use banip.Parse.Word.{Endian, little, big, htonl}
use banip.Parse.Mask.{mask_words}
use banip.Parse.Mask.Table.{
  ones, net_mask, yields, yields→returns, all_below, all_below_sound, mask_words-net_mask,
}
use banip.Parse.Addr.{Family, inet, inet6, unspec, other}
use banip.Engine.Pf.{pf_mask}

abbrev full_word : ℕ
full_word = 0xffff_ffff

abbrev agrees4 : Endian → ℕ → Bool
agrees4 e n = yields (pf_mask e inet n) (htonl e (ones n) ∷ full_word ∷ full_word ∷ full_word ∷ [])

abbrev agrees6 : Endian → ℕ → Bool
agrees6 e n = yields (pf_mask e inet6 n) (map (htonl e) (net_mask n))

table4 : (e : Endian) → all_below 33 (agrees4 e) ≡ true
unfolding all_below pf_mask
table4 little = refl
table4 big = refl

table6 : (e : Endian) → all_below 129 (agrees6 e) ≡ true
unfolding all_below pf_mask
table6 little = refl
table6 big = refl

pf_mask-net_mask4 :
    (e : Endian) (n : ℕ)
    → n ≤ 32
    → pf_mask e inet n ≡ returns (htonl e (ones n) ∷ full_word ∷ full_word ∷ full_word ∷ [])
pf_mask-net_mask4 e n h =
    yields→returns (pf_mask e inet n) _ (all_below_sound 33 n (agrees4 e) (table4 e) (omega arith))

pf_mask-net_mask6 :
    (e : Endian) (n : ℕ) → n ≤ 128 → pf_mask e inet6 n ≡ returns (map (htonl e) (net_mask n))
pf_mask-net_mask6 e n h =
    yields→returns (pf_mask e inet6 n) _
      (all_below_sound 129 n (agrees6 e) (table6 e) (omega arith))

abbrev pub first_word : Outcome (List ℕ) → Outcome (List ℕ)
first_word run = do m ← run; returns (take 1 m)

-- The masks that pf.c builds byte by byte and by one shift are those that parse.c builds word by word
-- and bit by bit: all of it for IPv6 up to 128 bits, and the word of the address for IPv4 up to 32.
pub pf_mask-mask_words :
    (e : Endian) (n : ℕ)
    → (n ≤ 128 → pf_mask e inet6 n ≡ mask_words e n)
      × (n ≤ 32 → first_word (pf_mask e inet n) ≡ first_word (mask_words e n))
pf_mask-mask_words e n = (
  λ h. rw (pf_mask-net_mask6 e n h, mask_words-net_mask e n h) refl,
  λ h. rw (pf_mask-net_mask4 e n h, mask_words-net_mask e n (omega arith)) refl,
)

-- For every family, a prefix of at most 128 bits has a mask.
pub pf_mask-defined :
    (e : Endian) (family : Family) (n : ℕ)
    → n ≤ 128
    → (mask : List ℕ) × (pf_mask e family n ≡ returns mask)
unfolding pf_mask
pf_mask-defined e inet6 n h = (_, pf_mask-net_mask6 e n h)
pf_mask-defined e inet n h = elim (Bool-cases (ltb n 32)) [
  | inl short ↦ (_, pf_mask-net_mask4 e n (ground arith))
  | inr long ↦ (full_word ∷ full_word ∷ full_word ∷ full_word ∷ [], rw (long, pf_mask) refl)
]
pf_mask-defined e unspec n h = (_, refl)
pf_mask-defined e (other f) n h = (_, refl)
