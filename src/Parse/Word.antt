-- ===== src/Parse/Word.antt =====
-- The 32-bit words of an address in memory, on hosts of either byte order, and `htonl`.
pub mod Conj
use banip.Base.{ℕ, ◌+◌, ◌*◌, ◌/◌, ◌%◌, ◌^◌, ◌<◌, ◌≡◌, refl, List, [], ◌∷◌, Bytes, All, arith}

pub data Endian : Type 0 where
  little big : Endian

-- Four bytes as a number, the highest first.
abbrev pub quad : ℕ → ℕ → ℕ → ℕ → ℕ
quad a b c d = ((a * 2 ^ 8 + b) * 2 ^ 8 + c) * 2 ^ 8 + d

abbrev pub byte_of : ℕ → ℕ → ℕ
byte_of w k = w / 2 ^ k % 2 ^ 8

-- `htonl`, which is `ntohl` too.
unfoldable pub htonl : Endian → ℕ → ℕ
htonl little w = quad (byte_of w 0) (byte_of w 8) (byte_of w 16) (byte_of w 24)
htonl big w = w

abbrev pub IsWord : ℕ → Type 0
IsWord w = w < 2 ^ 32

abbrev pub IsByte : ℕ → Type 0
IsByte b = b < 2 ^ 8

-- What the host reads as `uint32_t` words from the bytes in memory.
unfoldable pub load_words : Endian → Bytes → List ℕ
load_words e (a ∷ b ∷ c ∷ d ∷ s) = htonl e (quad a b c d) ∷ load_words e s
load_words e _ = []

-- The number that words in network byte order write, behind the number `acc`.
abbrev pub net_value : Endian → ℕ → List ℕ → ℕ
net_value e acc [] = acc
net_value e acc (w ∷ ws) = net_value e (acc * 2 ^ 32 + htonl e w) ws

pub htonl-IsWord : (e : Endian) (w : ℕ) → IsWord w → IsWord (htonl e w)
unfolding htonl
htonl-IsWord little w h = omega arith
htonl-IsWord big w h = h

pub htonl-htonl : (e : Endian) (w : ℕ) → IsWord w → htonl e (htonl e w) ≡ w
unfolding htonl
htonl-htonl little w h = omega arith
htonl-htonl big w h = refl
