-- ===== src/Kstring/Memory/Copy.antt =====
-- What the functions on blocks of memory leave in the memory, and find in it.
use elco_os.Base.{
  ℕ, zero, suc, ◌+◌, ◌-◌, ◌%◌, ◌≡◌, ◌≢◌, ◌≤◌, ◌<◌, ◌⊎◌, inl, inr, refl, ap, ◌∙◌, false, ◌&&◌, none,
  some, arith, if◌then◌else◌, ◌==◌, leb, ltb, upd, Bool-cases, eq-cases, ==_iff,
}
use elco_os.Kstring.Memory.{
  Bytes, kmemchr, kmemcmp, copy_up, copy_down, kmemcpy, kmemmove, kmemset, int_diff,
}

-- the byte at `a` after the `n` bytes from `s` were copied to `d`
abbrev pub copied : Bytes → (d s n a : ℕ) → ℕ
copied m d s n a = if leb d a && ltb a (d + n) then m (s + (a - d)) else m a

no_byte_before :
    (m : Bytes) (s c p : ℕ)
    → (m s == c) ≡ false
    → ((a : ℕ) → s + 1 ≤ a → a < p → m a ≢ c)
    → (a : ℕ) → s ≤ a
    → a < p
    → m a ≢ c
no_byte_before m s c p ne before a lo hi = elim (eq-cases a s) [
  | inl e ↦ ground (arith, ap m ((==_iff a s).0 e))
  | inr n ↦ before a (ground arith) hi
]

-- bytes are read at one place only
pub same_byte : (m : Bytes) (p q : ℕ) → p ≡ q → m p ≡ m q
same_byte m p q e = ap m e

-- the first byte, then the others
pub first_copied :
    (m : Bytes) (d s n a : ℕ)
    → (d ≤ s) ⊎ (s + suc n ≤ d)
    → copied (upd m d (m s)) (d + 1) (s + 1) n a ≡ copied m d s (suc n) a
first_copied m d s n a apart = elim (eq-cases a d) [
  | inl e ↦ ground (arith, same_byte m (s + (a - d)) s)
  | inr ne ↦ ground (arith, same_byte m (s + 1 + (a - (d + 1))) (s + (a - d)))
]

-- Copying upwards is right unless the target begins inside the source.
copy_up-copied :
    (n : ℕ) (m : Bytes) (d s a : ℕ) → (d ≤ s) ⊎ (s + n ≤ d) → copy_up n m d s a ≡ copied m d s n a
unfolding copy_up
copy_up-copied zero m d s a apart = ground arith
copy_up-copied (suc n) m d s a apart =
    copy_up-copied n (upd m d (m s)) (d + 1) (s + 1) a (ground arith) ∙ first_copied m d s n a apart

-- Copying downwards is right where the target does not begin before the source.
copy_down-copied :
    (n : ℕ) (m : Bytes) (d s x y a : ℕ)
    → s ≤ d
    → x ≡ d + n - 1
    → y ≡ s + n - 1
    → copy_down n m x y a ≡ copied m d s n a
unfolding copy_down
copy_down-copied zero m d s x y a le ex ey = ground arith
copy_down-copied (suc n) m d s x y a le ex ey =
    copy_down-copied n (upd m x (m y)) d s (x - 1) (y - 1) a le (omega arith) (omega arith)
    ∙ (elim (eq-cases a x) [
      | inl e ↦ ground (arith, same_byte m (s + (a - d)) y)
      | inr ne ↦ ground arith
    ])

-- Where source and target do not overlap, kmemcpy leaves in the target the bytes that the source
-- had, and every other byte as it was.
pub kmemcpy-copied :
    (m : Bytes) (s1 s2 n a : ℕ)
    → (s1 + n ≤ s2) ⊎ (s2 + n ≤ s1)
    → kmemcpy m s1 s2 n a ≡ copied m s1 s2 n a
unfolding kmemcpy
kmemcpy-copied m s1 s2 n a apart = copy_up-copied n m s1 s2 a (ground arith)

-- kmemmove does so for every overlap of source and target.
pub kmemmove-copied : (m : Bytes) (s1 s2 n a : ℕ) → kmemmove m s1 s2 n a ≡ copied m s1 s2 n a
unfolding kmemmove
kmemmove-copied m s1 s2 n a = elim (Bool-cases (ltb s1 s2)) [
  | inl e ↦ rw e (copy_up-copied n m s1 s2 a (ground arith))
  | inr e ↦ rw e (copy_down-copied n m s1 s2 (s1 + n - 1) (s2 + n - 1) a (ground arith) refl refl)
]

-- kmemset fills the block with the low byte of `c` and leaves every other byte as it was.
pub kmemset-fill :
    (m : Bytes) (s c n a : ℕ)
    → kmemset m s c n a ≡ (if leb s a && ltb a (s + n) then c % 256 else m a)
unfolding kmemset
kmemset-fill m s c zero a = ground arith
kmemset-fill m s c (suc n) a = kmemset-fill (upd m s (c % 256)) (s + 1) c n a ∙ ground arith

-- kmemchr finds the first byte of the block that is the low byte of `c`, and NULL exactly if there
-- is none.
pub kmemchr-First :
    (m : Bytes) (s c n : ℕ)
    → ((kmemchr m s c n ≡ none) × ((a : ℕ) → s ≤ a → a < s + n → m a ≢ c % 256))
      ⊎ ((p : ℕ) × (kmemchr m s c n ≡ some p)
          × (s ≤ p)
          × (p < s + n)
          × (m p ≡ c % 256)
          × ((a : ℕ) → s ≤ a → a < p → m a ≢ c % 256))
unfolding kmemchr
kmemchr-First m s c zero = inl (refl, λ a lo hi. absurd (omega arith))
kmemchr-First m s c (suc n) = elim (eq-cases (m s) (c % 256)) [
  | inl e ↦ inr (
    s,
    rw e refl,
    omega arith,
    omega arith,
    (==_iff (m s) (c % 256)).0 e,
    λ a lo hi. absurd (omega arith),
  )
  | inr ne ↦ rw ne (elim (kmemchr-First m (s + 1) c n) [
    | inl (e, absent) ↦
        inl (e, λ a lo hi. no_byte_before m s (c % 256) (s + 1 + n) ne absent a lo (omega arith))
    | inr (p, e, lo, hi, here, before) ↦
        inr (p, e, omega arith, omega arith, here, no_byte_before m s (c % 256) p ne before)
  ])
]

same_before :
    (m : Bytes) (s1 s2 n : ℕ)
    → m s1 ≡ m s2
    → ((i : ℕ) → i < n → m (s1 + 1 + i) ≡ m (s2 + 1 + i))
    → (i : ℕ) → i < suc n
    → m (s1 + i) ≡ m (s2 + i)
same_before m s1 s2 n e same zero hi =
    same_byte m (s1 + 0) s1 (omega arith) ∙ e ∙ same_byte m s2 (s2 + 0) (omega arith)
same_before m s1 s2 n e same (suc i) hi =
    same_byte m (s1 + suc i) (s1 + 1 + i) (omega arith)
    ∙ same i (omega arith)
    ∙ same_byte m (s2 + 1 + i) (s2 + suc i) (omega arith)

-- kmemcmp gives 0 exactly if the blocks agree; else the difference of the first two bytes that
-- differ, as the pattern of an int.
pub kmemcmp-First :
    (m : Bytes) (s1 s2 n : ℕ)
    → ((a : ℕ) → m a < 256)
    → ((kmemcmp m s1 s2 n ≡ 0) × ((i : ℕ) → i < n → m (s1 + i) ≡ m (s2 + i)))
      ⊎ ((p : ℕ) × (p < n)
          × (kmemcmp m s1 s2 n ≡ int_diff (m (s1 + p)) (m (s2 + p)))
          × (m (s1 + p) ≢ m (s2 + p))
          × ((i : ℕ) → i < p → m (s1 + i) ≡ m (s2 + i)))
unfolding kmemcmp
kmemcmp-First m s1 s2 zero bytes = inl (refl, λ i hi. absurd (omega arith))
kmemcmp-First m s1 s2 (suc n) bytes = elim (eq-cases (int_diff (m s1) (m s2)) 0) [
  | inl e ↦
      let first : m s1 ≡ m s2 = ground (arith, bytes s1, bytes s2) in
      rw e (elim (kmemcmp-First m (s1 + 1) (s2 + 1) n bytes) [
        | inl (r, same) ↦ inl (r, same_before m s1 s2 n first same)
        | inr (p, hi, r, ne, same) ↦
            let at1 : m (s1 + 1 + p) ≡ m (s1 + suc p) = same_byte m _ _ (omega arith) in
            let at2 : m (s2 + 1 + p) ≡ m (s2 + suc p) = same_byte m _ _ (omega arith) in
            inr (
              suc p,
              omega arith,
              rw⁻¹ (at1, at2) r,
              rw⁻¹ (at1, at2) ne,
              same_before m s1 s2 p first same,
            )
      ])
  | inr ne ↦
      let at1 : m (s1 + 0) ≡ m s1 = same_byte m _ _ (omega arith) in
      let at2 : m (s2 + 0) ≡ m s2 = same_byte m _ _ (omega arith) in
      inr (
        0,
        omega arith,
        rw (ne, at1, at2) refl,
        ground (arith, at1, at2),
        λ i hi. absurd (omega arith),
      )
]
