-- ===== src/Base/Lists.antt =====
-- Lists measured and indexed by native numbers, and C strings: the bytes before the final zero.
use Prim.Native.Nat.{◌≤◌, ℕ, zero, suc, ◌+◌}
use Prim.Native.Char.{code}
use Prim.Native.String.{String}
use mathlib.Core.Path.{◌≡◌, refl, ap}
use mathlib.Core.Bool.{Bool, true, false, ◌&&◌}
use mathlib.Core.List.{List, [], ◌∷◌, ◌++◌}
use mathlib.Core.Option.{Option, none, some}
use native.Mathlib.Omega.{arith}
use mathlib.Core.Logic.{inl, inr}
use banip.Base.Tests.{◌==◌, Bool-cases, Option-cases}

module _ {ℓ} {A : Type ℓ} where
  abbrev pub length : List A → ℕ
  length [] = 0
  length (x ∷ xs) = suc (length xs)

  abbrev pub get_elem? : List A → ℕ → Option A
  get_elem? [] i = none
  get_elem? (x ∷ xs) zero = some x
  get_elem? (x ∷ xs) (suc i) = get_elem? xs i

  -- A write out of bounds changes nothing.
  abbrev pub set : List A → ℕ → A → List A
  set [] i v = []
  set (x ∷ xs) zero v = v ∷ xs
  set (x ∷ xs) (suc i) v = x ∷ set xs i v

  abbrev pub take : ℕ → List A → List A
  take zero xs = []
  take (suc n) [] = []
  take (suc n) (x ∷ xs) = x ∷ take n xs

  abbrev pub drop : ℕ → List A → List A
  drop zero xs = xs
  drop (suc n) [] = []
  drop (suc n) (x ∷ xs) = drop n xs

  abbrev pub replicate : ℕ → A → List A
  replicate zero a = []
  replicate (suc n) a = a ∷ replicate n a

  pub length-append : (xs ys : List A) → length (xs ++ ys) ≡ length xs + length ys
  length-append [] ys = omega arith
  length-append (x ∷ xs) ys = omega (arith, length-append xs ys)

  pub take-append : (xs ys : List A) → take (length xs) (xs ++ ys) ≡ xs
  take-append [] ys = refl
  take-append (x ∷ xs) ys = ap (λ (t : List A). x ∷ t) (take-append xs ys)

  pub length-take : (n : ℕ) (xs : List A) → length (take n xs) ≤ n
  length-take zero xs = omega arith
  length-take (suc n) [] = omega arith
  length-take (suc n) (x ∷ xs) = let rest = length-take n xs in omega arith

  pub length-drop : (n : ℕ) (xs : List A) → n ≤ length xs → length (drop n xs) + n ≡ length xs
  length-drop zero xs h = omega arith
  length-drop (suc n) [] h = absurd (omega arith)
  length-drop (suc n) (x ∷ xs) h = let rest = length-drop n xs (omega arith) in omega arith

  pub length-replicate : (n : ℕ) (a : A) → length (replicate n a) ≡ n
  length-replicate zero a = refl
  length-replicate (suc n) a = ap suc (length-replicate n a)

-- A predicate on every element.
abbrev pub All {ℓ κ} : {A : Type ℓ} → (A → Type κ) → List A → Type κ
All P [] = Unit
All P (x ∷ xs) = P x × All P xs

pub All-append {ℓ} :
    {A : Type ℓ} (P : A → Type 0) (s t : List A) → All P s → All P t → All P (s ++ t)
All-append P [] t hs ht = ht
All-append P (c ∷ s) t hs ht = (hs.0, All-append P s t hs.1 ht)

pub All-append-inv {ℓ} :
    {A : Type ℓ} (P : A → Type 0) (s t : List A) → All P (s ++ t) → All P s × All P t
All-append-inv P [] t h = (tt, h)
All-append-inv P (c ∷ s) t h = let (front, back) = All-append-inv P s t h.1 in ((h.0, front), back)

pub All-replicate {ℓ} : {A : Type ℓ} (P : A → Type 0) (n : ℕ) (a : A) → P a → All P (replicate n a)
All-replicate P zero a h = tt
All-replicate P (suc n) a h = (h, All-replicate P n a h)

abbrev pub Bytes : Type 0
Bytes = List ℕ

abbrev pub codes : String → Bytes
codes String.[] = []
codes (String.◌∷◌ c s) = code c ∷ codes s

-- `strcmp(a, b) == 0`
abbrev pub str_eq : Bytes → Bytes → Bool
str_eq [] [] = true
str_eq [] (y ∷ ys) = false
str_eq (x ∷ xs) [] = false
str_eq (x ∷ xs) (y ∷ ys) = x == y && str_eq xs ys

pub str_eq_refl : (s : Bytes) → str_eq s s ≡ true
str_eq_refl [] = refl
str_eq_refl (x ∷ s) = ground (arith, str_eq_refl s)

pub str_eq→eq : (s t : Bytes) → str_eq s t ≡ true → s ≡ t
str_eq→eq [] [] h = refl
str_eq→eq [] (y ∷ t) h = ground arith
str_eq→eq (x ∷ s) [] h = ground arith
str_eq→eq (x ∷ s) (y ∷ t) h = ground (arith, str_eq→eq s t)

-- `strchr(s, c)`: the bytes before the first `c`, and those behind it.
abbrev pub strchr : ℕ → Bytes → Option (Bytes × Bytes)
strchr c [] = none
strchr c (x ∷ s) = elim (x == c) [
  | true ↦ some ([], s)
  | false ↦ elim (strchr c s) [ none ↦ none | some (a, b) ↦ some (x ∷ a, b) ]
]

pub strchr-append : (c : ℕ) (s t : Bytes) → strchr c s ≡ none → strchr c (s ++ c ∷ t) ≡ some (s, t)
strchr-append c [] t h = ground arith
strchr-append c (x ∷ s) t h = ground (arith, strchr-append c s t)

pub strchr-more :
    (c : ℕ) (s t : Bytes) {a b : Bytes}
    → strchr c s ≡ some (a, b)
    → strchr c (s ++ t) ≡ some (a, b ++ t)
strchr-more c [] t h = absurd (cc h)
strchr-more c (x ∷ s) t {a} {b} h = elim (Bool-cases (x == c)) [
  | inl same ↦ rw (same, strchr) (cc (rw (same, strchr) at h))
  | inr other ↦ elim (Option-cases (strchr c s)) [
    | inl absent ↦ absurd (cc (rw (other, absent, strchr) at h))
    | inr ((a', b'), given) ↦
        rw (other, strchr-more c s t given, strchr) (cc (rw (other, given, strchr) at h))
  ]
]
