-- ===== src/I386/Pic/Bits.antt =====
-- One bit of a byte set or cleared, as a change of one interrupt mask.
use Prim.Native.Nat.{bit_and, bit_or}
use elco_os.Base.{
  eq-cases, ℕ, zero, suc, ◌-◌, ◌/◌, ◌%◌, ◌^◌, ◌≡◌, ◌<◌, inl, inr, refl, Bool, true, false, ◌&&◌,
  arith, if◌then◌else◌, ◌==◌, ltb, ==_iff,
}

-- bit `i` of a byte
abbrev pub bit : (i b : ℕ) → ℕ
bit i b = b / 2 ^ i % 2

-- a test that is passed by each number below a bound
passed : (test : ℕ → Bool) (bound : ℕ) → Bool
passed test zero = true
passed test (suc i) = let others = passed test i in if test i then others else false

passed_at : (test : ℕ → Bool) (bound i : ℕ) → i < bound → passed test bound ≡ true → test i ≡ true
unfolding passed
passed_at test zero i lt all = absurd (omega arith)
passed_at test (suc j) i lt all = elim (eq-cases i j) [
  | inl e ↦ rw ((==_iff i j).0 e) (ground (arith, all))
  | inr e ↦ passed_at test j i (ground arith) (ground (arith, all))
]

all_bytes : (ℕ → ℕ → ℕ → Bool) → Bool
all_bytes p = passed (λ i. passed (λ b. passed (p i b) 8) 256) 8

all_bytes_sound :
    (p : ℕ → ℕ → ℕ → Bool) (i b j : ℕ)
    → all_bytes p ≡ true
    → i < 8
    → b < 256
    → j < 8
    → p i b j ≡ true
unfolding all_bytes
all_bytes_sound p i b j h li lb lj =
    let row = passed_at (λ i'. passed (λ b'. passed (p i' b') 8) 256) 8 i li h in
    passed_at (p i b) 8 j lj (passed_at (λ b'. passed (p i b') 8) 256 b lb row)

abbrev or_right : ℕ → ℕ → ℕ → Bool
or_right i b j =
    (bit j (bit_or b (2 ^ i)) == (if j == i then 1 else bit j b)) && ltb (bit_or b (2 ^ i)) 256

abbrev and_right : ℕ → ℕ → ℕ → Bool
and_right i b j =
    (bit j (bit_and b (0xff - 2 ^ i)) == (if j == i then 0 else bit j b))
    && ltb (bit_and b (0xff - 2 ^ i)) 256

or_table : all_bytes or_right ≡ true
unfolding all_bytes passed
or_table = refl

and_table : all_bytes and_right ≡ true
unfolding all_bytes passed
and_table = refl

both_tests : (x y z : ℕ) → ((x == y) && ltb z 256) ≡ true → (x ≡ y) × (z < 256)
both_tests x y z h = ground arith

pub bit-bit_or :
    (i b j : ℕ)
    → i < 8
    → b < 256
    → j < 8
    → (bit j (bit_or b (2 ^ i)) ≡ (if j == i then 1 else bit j b)) × (bit_or b (2 ^ i) < 256)
bit-bit_or i b j li lb lj = both_tests _ _ _ (all_bytes_sound or_right i b j or_table li lb lj)

pub bit-bit_and :
    (i b j : ℕ)
    → i < 8
    → b < 256
    → j < 8
    → (bit j (bit_and b (0xff - 2 ^ i)) ≡ (if j == i then 0 else bit j b))
      × (bit_and b (0xff - 2 ^ i) < 256)
bit-bit_and i b j li lb lj = both_tests _ _ _ (all_bytes_sound and_right i b j and_table li lb lj)

ones_table : passed (λ j. bit j 0xff == 1) 8 ≡ true
unfolding passed
ones_table = refl

pub all_ones : (i : ℕ) → i < 8 → bit i 0xff ≡ 1
all_ones i lt = (==_iff (bit i 0xff) 1).0 (passed_at (λ j. bit j 0xff == 1) 8 i lt ones_table)
