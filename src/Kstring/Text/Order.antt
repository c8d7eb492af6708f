-- ===== src/Kstring/Text/Order.antt =====
-- Comparing strings, and looking for a character.
use elco_os.Base.{
  ℕ, zero, suc, ◌+◌, ◌-◌, ◌%◌, ◌≡◌, ◌≢◌, ◌≤◌, ◌<◌, ◌⊎◌, inl, inr, refl, ap, ◌∙◌, false, ◌&&◌, ◌||◌,
  not, none, some, arith, if◌then◌else◌, ◌==◌, eq-cases, Bool-cases,
}
use elco_os.Kstring.Memory.{Bytes, int_diff}
use elco_os.Kstring.Memory.Copy.{same_byte}
use elco_os.Kstring.Text.{kstrcmp, kstrncmp, same_char, seek, kstrchr}
use elco_os.Kstring.Text.Length.{IsString, IsString-tail, IsString-zero}

-- the first place where the strings differ or the first one ends
abbrev pub Decides : Bytes → (a b p : ℕ) → Type 0
Decides m a b p =
    ((m (a + p) ≡ 0) ⊎ (m (a + p) ≢ m (b + p)))
    × ((i : ℕ) → i < p → (m (a + i) ≢ 0) × (m (a + i) ≡ m (b + i)))

agree_suc :
    (m : Bytes) (a b p : ℕ)
    → m a ≢ 0
    → m a ≡ m b
    → ((i : ℕ) → i < p → (m (a + 1 + i) ≢ 0) × (m (a + 1 + i) ≡ m (b + 1 + i)))
    → (i : ℕ) → i < suc p
    → (m (a + i) ≢ 0) × (m (a + i) ≡ m (b + i))
agree_suc m a b p live same before i hi = elim (eq-cases i 0) [
  | inl e ↦
      let ea = same_byte m (a + i) a (ground arith) in
      let eb = same_byte m (b + i) b (ground arith) in rw (ea, eb) (live, same)
  | inr ne ↦
      let ea = same_byte m (a + i) (a + 1 + (i - 1)) (ground arith) in
      let eb = same_byte m (b + i) (b + 1 + (i - 1)) (ground arith) in
      rw (ea, eb) (before (i - 1) (ground arith))
]

Decides-suc :
    (m : Bytes) (a b p : ℕ)
    → m a ≢ 0
    → m a ≡ m b
    → Decides m (a + 1) (b + 1) p
    → Decides m a b (suc p)
Decides-suc m a b p live same (here, before) = (
  rw
      (
        same_byte m (a + suc p) (a + 1 + p) (omega arith),
        same_byte m (b + suc p) (b + 1 + p) (omega arith),
      )
      here,
  agree_suc m a b p live same before,
)

Decides-zero : (m : Bytes) (a b : ℕ) → (not (m a == 0) && (m a == m b)) ≡ false → Decides m a b 0
Decides-zero m a b e = (
  rw (same_byte m (a + 0) a (omega arith), same_byte m (b + 0) b (omega arith)) (ground arith),
  λ i hi. absurd (omega arith),
)

pred_suc : (n : ℕ) → suc n - 1 ≡ n
pred_suc n = omega arith

IsString-pred :
    (m : Bytes) (s n : ℕ) → IsString m s n → m s ≢ 0 → (0 < n) × IsString m (s + 1) (n - 1)
IsString-pred m s zero t live = absurd (live (IsString-zero m s t))
IsString-pred m s (suc n) t live = (omega arith, rw (pred_suc n) (IsString-tail m s n t))

-- kstrcmp of a string of n characters returns within n + 1 rounds: the difference of the bytes at
-- the first place where the strings differ or the first one ends, as the pattern of an int.
pub kstrcmp-Decides :
    (fuel : ℕ) (m : Bytes) (a b n : ℕ)
    → IsString m a n
    → n < fuel
    → (p : ℕ) × (p ≤ n)
      × Decides m a b p
      × (kstrcmp fuel m a b ≡ some (int_diff (m (a + p)) (m (b + p))))
unfolding kstrcmp
kstrcmp-Decides zero m a b n t f = absurd (omega arith)
kstrcmp-Decides (suc fuel) m a b n t f = elim (Bool-cases (not (m a == 0) && (m a == m b))) [
  | inl e ↦
      let (pos, rest) = IsString-pred m a n t (ground arith) in
      let (p, le, d, run) = kstrcmp-Decides fuel m (a + 1) (b + 1) (n - 1) rest (omega arith) in
      (
        suc p,
        omega arith,
        Decides-suc m a b p (ground arith) (ground arith) d,
        rw
            (
              e,
              same_byte m (a + suc p) (a + 1 + p) (omega arith),
              same_byte m (b + suc p) (b + 1 + p) (omega arith),
            )
            run,
      )
  | inr e ↦ (
    0,
    omega arith,
    Decides-zero m a b e,
    rw (e, same_byte m (a + 0) a (omega arith), same_byte m (b + 0) b (omega arith)) refl,
  )
]

-- kstrncmp compares at most n characters: 0 if the strings agree in the first n, and the first one
-- does not end there; else the difference at the first place where they differ or it ends.
pub kstrncmp-Decides :
    (n : ℕ) (m : Bytes) (a b : ℕ)
    → ((kstrncmp m a b n ≡ 0) × ((i : ℕ) → i < n → (m (a + i) ≢ 0) × (m (a + i) ≡ m (b + i))))
      ⊎ ((p : ℕ) × (p < n)
          × Decides m a b p
          × (kstrncmp m a b n ≡ int_diff (m (a + p)) (m (b + p))))
unfolding kstrncmp
kstrncmp-Decides zero m a b = inl (refl, λ i hi. absurd (omega arith))
kstrncmp-Decides (suc n) m a b = elim (Bool-cases (not (m a == 0) && (m a == m b))) [
  | inl e ↦
      let live : m a ≢ 0 = ground arith in
      let same : m a ≡ m b = ground arith in
      rw e (elim (kstrncmp-Decides n m (a + 1) (b + 1)) [
        | inl (r, agree) ↦ inl (r, agree_suc m a b n live same agree)
        | inr (p, hi, d, run) ↦ inr (
          suc p,
          omega arith,
          Decides-suc m a b p live same d,
          rw
              (
                same_byte m (a + suc p) (a + 1 + p) (omega arith),
                same_byte m (b + suc p) (b + 1 + p) (omega arith),
              )
              run,
        )
      ])
  | inr e ↦ inr (
    0,
    omega arith,
    Decides-zero m a b e,
    rw (e, same_byte m (a + 0) a (omega arith), same_byte m (b + 0) b (omega arith)) refl,
  )
]

-- where the loop of kstrchr stops
abbrev Stops : Bytes → (s v p : ℕ) → Type 0
Stops m s v p =
    ((m (s + p) ≡ 0) ⊎ (m (s + p) ≡ v)) × ((i : ℕ) → i < p → (m (s + i) ≢ 0) × (m (s + i) ≢ v))

Stops-suc : (m : Bytes) (s v p : ℕ) → m s ≢ 0 → m s ≢ v → Stops m (s + 1) v p → Stops m s v (suc p)
Stops-suc m s v p live other (here, before) = (
  rw (same_byte m (s + suc p) (s + 1 + p) (omega arith)) here,
  λ i hi. elim (eq-cases i 0) [
    | inl e ↦ rw (same_byte m (s + i) s (ground arith)) (live, other)
    | inr ne ↦
        rw (same_byte m (s + i) (s + 1 + (i - 1)) (ground arith)) (before (i - 1) (ground arith))
  ],
)

seek-Stops :
    (fuel : ℕ) (m : Bytes) (s v n : ℕ)
    → IsString m s n
    → n < fuel
    → v < 128
    → (p : ℕ) × (p ≤ n) × (seek fuel m s v ≡ some (s + p)) × Stops m s v p
unfolding seek
seek-Stops zero m s v n t f low = absurd (omega arith)
seek-Stops (suc fuel) m s v n t f low =
    elim (Bool-cases (not (m s == 0) && not (same_char (m s) v))) [
      | inl e ↦
          let (pos, rest) = IsString-pred m s n t (ground arith) in
          let (p, le, run, stop) = seek-Stops fuel m (s + 1) v (n - 1) rest (omega arith) low in
          (
            suc p,
            omega arith,
            rw e (run ∙ ap some {x = s + 1 + p} {y = s + suc p} (omega arith)),
            Stops-suc m s v p (ground arith) (ground arith) stop,
          )
      | inr e ↦ (
        0,
        omega arith,
        rw e (ap some {x = s} {y = s + 0} (omega arith)),
        (rw (same_byte m (s + 0) s (omega arith)) (ground arith), λ i hi. absurd (omega arith)),
      )
    ]

kstrchr-run :
    (fuel : ℕ) (m : Bytes) (s c p : ℕ)
    → seek fuel m s (c % 256) ≡ some p
    → kstrchr fuel m s c ≡ some (if not (m p == 0) || (c % 256 == 0) then some p else none)
unfolding kstrchr
kstrchr-run fuel m s c p run = rw run refl

-- kstrchr finds the first place of a character below 128 in a string, the null character included,
-- and NULL exactly if there is none; n + 1 rounds are enough.
pub kstrchr-First :
    (fuel : ℕ) (m : Bytes) (s n c : ℕ)
    → IsString m s n
    → n < fuel
    → c % 256 < 128
    → ((kstrchr fuel m s c ≡ some none) × ((i : ℕ) → i ≤ n → m (s + i) ≢ c % 256))
      ⊎ ((p : ℕ) × (p ≤ n)
          × (kstrchr fuel m s c ≡ some (some (s + p)))
          × (m (s + p) ≡ c % 256)
          × ((i : ℕ) → i < p → m (s + i) ≢ c % 256))
kstrchr-First fuel m s n c t f low =
    let (p, le, run, stop) = seek-Stops fuel m s (c % 256) n t f low in
    let result = kstrchr-run fuel m s c (s + p) run in
    elim (Bool-cases (not (m (s + p) == 0) || (c % 256 == 0))) [
      | inl e ↦ inr (p, le, result ∙ rw e refl, ground (arith, stop.0), λ i hi. (stop.1 i hi).1)
      | inr e ↦ inl (
        result ∙ rw e refl,
        λ i hi. elim (eq-cases i p) [
          | inl same ↦ ground (arith, same_byte m (s + i) (s + p))
          | inr ne ↦ ground (arith, t.chars p, stop.1 i)
        ],
      )
    ]
