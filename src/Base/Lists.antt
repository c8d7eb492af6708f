-- ===== src/Base/Lists.antt =====
-- Lists measured and indexed by native numbers, and lists of distinct numbers.
use Prim.Native.Nat.{ℕ, zero, suc, ◌+◌, ◌≤◌}
use mathlib.Core.Path.{◌≡◌, refl, ◌∙◌}
use mathlib.Core.Logic.{inl, inr}
use mathlib.Core.Bool.{Bool, true, false, ◌||◌}
use mathlib.Core.List.{List, [], ◌∷◌, ◌++◌}
use native.Mathlib.Omega.{arith}
use elco_os.Base.Tests.{◌==◌, if◌then◌else◌, ==_iff, eq-cases}

module _ {ℓ} {A : Type ℓ} where
  abbrev pub length : List A → ℕ
  length [] = 0
  length (x ∷ xs) = suc (length xs)

  abbrev pub get_or : List A → ℕ → A → A
  get_or [] i d = d
  get_or (x ∷ xs) zero d = x
  get_or (x ∷ xs) (suc i) d = get_or xs i d

  abbrev pub replicate : ℕ → A → List A
  replicate zero a = []
  replicate (suc n) a = a ∷ replicate n a

  pub length-append : (xs ys : List A) → length (xs ++ ys) ≡ length xs + length ys
  length-append [] ys = omega arith
  length-append (x ∷ xs) ys = omega (arith, length-append xs ys)

abbrev pub has : ℕ → List ℕ → Bool
has a [] = false
has a (x ∷ xs) = (a == x) || has a xs

infix 40 ◌∈◌ ◌∉◌
abbrev pub ◌∈◌ : ℕ → List ℕ → Type 0
a ∈ xs = has a xs ≡ true

abbrev pub ◌∉◌ : ℕ → List ℕ → Type 0
a ∉ xs = has a xs ≡ false

pub has-append : (a : ℕ) (xs ys : List ℕ) → has a (xs ++ ys) ≡ (has a xs || has a ys)
has-append a [] ys = refl
has-append a (x ∷ xs) ys = ground (arith, has-append a xs ys)

-- the list without the first `a`
abbrev pub erase : ℕ → List ℕ → List ℕ
erase a [] = []
erase a (x ∷ xs) = if a == x then xs else x ∷ erase a xs

pub has-erase_ne : (a b : ℕ) (xs : List ℕ) → (b == a) ≡ false → has b (erase a xs) ≡ has b xs
has-erase_ne a b [] ne = refl
has-erase_ne a b (x ∷ xs) ne = ground (arith, has-erase_ne a b xs ne)

pub mem_of_mem-erase : (a b : ℕ) (xs : List ℕ) → b ∈ erase a xs → b ∈ xs
mem_of_mem-erase a b [] i = i
mem_of_mem-erase a b (x ∷ xs) i = ground (arith, mem_of_mem-erase a b xs)

pub not-mem-erase : (a b : ℕ) (xs : List ℕ) → b ∉ xs → b ∉ erase a xs
not-mem-erase a b xs out = ground (arith, mem_of_mem-erase a b xs)

pub erase_not_mem : (a : ℕ) (xs : List ℕ) → a ∉ xs → erase a xs ≡ xs
erase_not_mem a [] out = refl
erase_not_mem a (x ∷ xs) out = ground (arith, erase_not_mem a xs)

pub length-erase : (a : ℕ) (xs : List ℕ) → length xs ≤ suc (length (erase a xs))
length-erase a [] = omega arith
length-erase a (x ∷ xs) = ground (arith, length-erase a xs)

-- the last element, `d` for none
abbrev pub last_or : ℕ → List ℕ → ℕ
last_or d [] = d
last_or d (x ∷ xs) = last_or x xs

pub last_or-snoc : (d a : ℕ) (xs : List ℕ) → last_or d (xs ++ a ∷ []) ≡ a
last_or-snoc d a [] = refl
last_or-snoc d a (x ∷ xs) = last_or-snoc x a xs

pub last_or-mem : (x : ℕ) (xs : List ℕ) → last_or x xs ∈ x ∷ xs
last_or-mem x [] = ground arith
last_or-mem x (y ∷ ys) = ground (arith, last_or-mem y ys)

-- every element lies in 1 .. n, and no element stands twice
abbrev pub DistinctIn : ℕ → List ℕ → Type 0
DistinctIn n [] = Unit {0}
DistinctIn n (x ∷ xs) = (1 ≤ x) × (x ≤ n) × (x ∉ xs) × DistinctIn n xs

pub erase_self : (n a : ℕ) (xs : List ℕ) → DistinctIn n xs → a ∉ erase a xs
erase_self n a [] d = refl
erase_self n a (x ∷ xs) (lo, hi, out, rest) = ground (arith, erase_self n a xs rest)

DistinctIn-lower : (n : ℕ) (xs : List ℕ) → DistinctIn (suc n) xs → suc n ∉ xs → DistinctIn n xs
DistinctIn-lower n [] d out = tt
DistinctIn-lower n (x ∷ xs) (lo, hi, fresh, rest) out =
    (lo, ground arith, fresh, DistinctIn-lower n xs rest (ground arith))

DistinctIn-erase : (n : ℕ) (xs : List ℕ) → DistinctIn (suc n) xs → DistinctIn n (erase (suc n) xs)
DistinctIn-erase n [] d = tt
DistinctIn-erase n (x ∷ xs) (lo, hi, out, rest) = elim (eq-cases (suc n) x) [
  | inl e ↦ rw e (DistinctIn-lower n xs rest (rw ((==_iff (suc n) x).0 e) out))
  | inr ne ↦
      rw ne (
        lo,
        ground arith,
        has-erase_ne (suc n) x xs (ground arith) ∙ out,
        DistinctIn-erase n xs rest,
      )
]

-- Distinct numbers between 1 and n are at most n.
pub length-DistinctIn : (n : ℕ) (xs : List ℕ) → DistinctIn n xs → length xs ≤ n
length-DistinctIn zero [] d = omega arith
length-DistinctIn zero (x ∷ xs) d = absurd (omega arith)
length-DistinctIn (suc n) xs d = omega (
  arith,
  length-erase (suc n) xs,
  length-DistinctIn n (erase (suc n) xs) (DistinctIn-erase n xs d),
)
