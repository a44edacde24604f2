-- ===== src/Parse/Mask/Table.antt =====
-- The mask that the loops build, for every prefix length up to 128.
use Prim.Native.Nat.{min}
use banip.Base.{
  ℕ, zero, suc, ◌-◌, ◌*◌, ◌^◌, ◌≤◌, ◌<◌, ◌≡◌, refl, Bool, true, false, ◌&&◌, List, [], ◌∷◌, map,
  str_eq, str_eq→eq, Outcome, returns, undefined, arith,
}
use banip.Parse.Word.{Endian, little, big, htonl}
use banip.Parse.Mask.{mask_words}

-- The first `k` bits of a word, all of them from 32 on.
abbrev pub ones : ℕ → ℕ
ones k = (2 ^ min k 32 - 1) * 2 ^ (32 - min k 32)

-- The mask of `p` leading ones as words in network byte order.
abbrev pub net_mask : ℕ → List ℕ
net_mask p = ones p ∷ ones (p - 32) ∷ ones (p - 64) ∷ ones (p - 96) ∷ []

abbrev pub yields : Outcome (List ℕ) → List ℕ → Bool
yields (returns a) b = str_eq a b
yields (undefined e) b = false

pub yields→returns : (o : Outcome (List ℕ)) (b : List ℕ) → yields o b ≡ true → o ≡ returns b
yields→returns (returns a) b h = ground (arith, str_eq→eq a b h)
yields→returns (undefined e) b h = ground arith

unfoldable pub all_below : ℕ → (ℕ → Bool) → Bool
all_below zero test = true
all_below (suc n) test = test n && all_below n test

pub all_below_sound : (n k : ℕ) (test : ℕ → Bool) → all_below n test ≡ true → k < n → test k ≡ true
unfolding all_below
all_below_sound zero k test h lt = absurd (omega arith)
all_below_sound (suc n) k test h lt = ground (arith, all_below_sound n k test)

abbrev agrees : Endian → ℕ → Bool
agrees e p = yields (mask_words e p) (map (htonl e) (net_mask p))

table : (e : Endian) → all_below 129 (agrees e) ≡ true
unfolding all_below mask_words htonl
table little = refl
table big = refl

pub mask_words-net_mask :
    (e : Endian) (p : ℕ) → p ≤ 128 → mask_words e p ≡ returns (map (htonl e) (net_mask p))
mask_words-net_mask e p h =
    yields→returns (mask_words e p) _ (all_below_sound 129 p (agrees e) (table e) (omega arith))
