-- ===== src/Parse/Mask.antt =====
-- parse.c: the end of `parse_addr`, which clears the bits of the address behind the prefix.
-- `1 << 31` is taken to be 2^31, as compilers make it.
pub mod Table
pub mod Laws
use banip.Base.{
  ℕ, zero, suc, ◌+◌, ◌-◌, ◌^◌, Bool, true, false, List, [], ◌∷◌, Option, none, some, get_elem?, set,
  leb, ◌==◌, if◌then◌else◌, bit_and, bit_or, Outcome, returns, undefined, out_of_bounds, ◌>>=◌,
}
use banip.Parse.Word.{Endian, htonl}

-- An array access: outside of the array it is undefined.
unfoldable pub read : List ℕ → ℕ → Outcome ℕ
read m j = elim (get_elem? m j) [ none ↦ undefined out_of_bounds | some w ↦ returns w ]

unfoldable pub write : List ℕ → ℕ → ℕ → Outcome (List ℕ)
unfolding read
write m j w = do old ← read m j; returns (set m j w)

-- `b`, `j` and `mask` as the first loop leaves them.
pub record Filled : Type 0 where
  pub b : ℕ
  pub j : ℕ
  pub m : List ℕ

-- `for (b = netmask; b >= 32; b -= 32) m[j++] = 0xFFFFFFFF;`, on fuel that exceeds `b`
unfoldable pub fill_words : ℕ → ℕ → ℕ → List ℕ → Outcome Filled
unfolding write
fill_words zero b j m = returns (record { b = b; j = j; m = m })
fill_words (suc fuel) b j m = elim (leb 32 b) [
  | true ↦ do m' ← write m j 0xFFFF_FFFF; fill_words fuel (b - 32) (j + 1) m'
  | false ↦ returns (record { b = b; j = j; m = m })
]

-- `for (i = 31; i > 31 - b; --i) m[j] |= 1 << i;`, which makes `b` rounds
unfoldable pub set_bits : ℕ → ℕ → ℕ → List ℕ → Outcome (List ℕ)
unfolding read write
set_bits zero i j m = returns m
set_bits (suc rounds) i j m = do
  w ← read m j
  m' ← write m j (bit_or w (2 ^ i))
  set_bits rounds (i - 1) j m'

-- The words of `mask`.
unfoldable pub mask_words : Endian → ℕ → Outcome (List ℕ)
unfolding fill_words set_bits
mask_words e netmask = do
  f ← fill_words (suc netmask) netmask 0 (0 ∷ 0 ∷ 0 ∷ 0 ∷ [])
  m ← set_bits f.b 31 f.j f.m
  if f.b == 0 then returns m else do w ← read m f.j; write m f.j (htonl e w)

-- `for (i = 0; i < 4; i++) a[i] &= m[i];`, on both arrays from `i` on
unfoldable pub and_words : ℕ → List ℕ → List ℕ → Outcome (List ℕ)
and_words zero a m = returns a
and_words (suc n) [] m = undefined out_of_bounds
and_words (suc n) (x ∷ a) [] = undefined out_of_bounds
and_words (suc n) (x ∷ a) (y ∷ m) = do rest ← and_words n a m; returns (bit_and x y ∷ rest)

unfoldable pub apply_netmask : Endian → ℕ → List ℕ → Outcome (List ℕ)
unfolding mask_words and_words
apply_netmask e netmask sa = do m ← mask_words e netmask; and_words 4 sa m
