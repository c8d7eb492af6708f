-- ===== src/Kstring/Search/Segment.antt =====
-- The segments that kstrspn and kstrcspn measure.
use elco_os.Base.{
  ℕ, zero, suc, ◌+◌, ◌-◌, ◌≡◌, ◌≢◌, ◌≤◌, ◌<◌, ◌⊎◌, inl, inr, refl, ap, ◌∙◌, Bool, true, false, some,
  arith, ◌==◌, eq-cases, ==_iff,
}
use elco_os.Kstring.Memory.{Bytes}
use elco_os.Kstring.Memory.Copy.{same_byte}
use elco_os.Kstring.Text.Length.{IsString, IsString-tail, IsString-head, IsString-zero}
use elco_os.Kstring.Search.{in_set, span, kstrspn, kstrcspn}

-- `char` is among the `k` characters of the string at `s2`, or is not
abbrev pub Has : Bytes → (s2 k char : ℕ) → Type 0
Has m s2 k char = (j : ℕ) × (j < k) × (m (s2 + j) ≡ char)

abbrev pub Lacks : Bytes → (s2 k char : ℕ) → Type 0
Lacks m s2 k char = (j : ℕ) → j < k → m (s2 + j) ≢ char

-- what the truth value tells
abbrev pub Tells : Bytes → (s2 k char : ℕ) → Bool → Type 0
Tells m s2 k char true = Has m s2 k char
Tells m s2 k char false = Lacks m s2 k char

Tells-suc :
    (m : Bytes) (s2 k char : ℕ) (b : Bool)
    → (m s2 == char) ≡ false
    → Tells m (s2 + 1) k char b
    → Tells m s2 (suc k) char b
Tells-suc m s2 k char true ne (j, hi, e) =
    (suc j, omega arith, same_byte m (s2 + suc j) (s2 + 1 + j) (omega arith) ∙ e)
Tells-suc m s2 k char false ne lacks = λ j hi. elim (eq-cases j 0) [
  | inl z ↦ ground (arith, same_byte m (s2 + j) s2)
  | inr pos ↦ ground (arith, same_byte m (s2 + j) (s2 + 1 + (j - 1)), lacks (j - 1))
]

in_set-Tells :
    (fuel : ℕ) (m : Bytes) (s2 k char : ℕ)
    → IsString m s2 k
    → k < fuel
    → (b : Bool) × (in_set fuel m s2 char ≡ some b) × Tells m s2 k char b
unfolding in_set
in_set-Tells zero m s2 k char t f = absurd (omega arith)
in_set-Tells (suc fuel) m s2 zero char t f =
    (false, rw (IsString-zero m s2 t) refl, λ j hi. absurd (omega arith))
in_set-Tells (suc fuel) m s2 (suc k) char t f = elim (eq-cases (m s2) char) [
  | inl e ↦ (
    true,
    rw (IsString-head m s2 k t, e) refl,
    (0, omega arith, same_byte m (s2 + 0) s2 (omega arith) ∙ (==_iff (m s2) char).0 e),
  )
  | inr ne ↦
      let (b, run, tells) =
        in_set-Tells fuel m (s2 + 1) k char (IsString-tail m s2 k t) (omega arith) in
      (b, rw (IsString-head m s2 k t, ne) run, Tells-suc m s2 k char b ne tells)
]

-- the other truth value
abbrev pub opposite : Bool → Bool
opposite true = false
opposite false = true

-- The first `r` of the `n` characters at `s1` are all in the set (all outside, for `false`), and
-- the next one, if there is one, is not.
abbrev pub Segment : Bytes → (goes_on : Bool) → (s1 n s2 k r : ℕ) → Type 0
Segment m goes_on s1 n s2 k r =
    (r ≤ n)
    × ((i : ℕ) → i < r → Tells m s2 k (m (s1 + i)) goes_on)
    × ((r ≡ n) ⊎ Tells m s2 k (m (s1 + r)) (opposite goes_on))

-- the truth value at another place that holds the same byte
Tells-at :
    (m : Bytes) (s2 k p q : ℕ) (b : Bool) → p ≡ q → Tells m s2 k (m q) b → Tells m s2 k (m p) b
Tells-at m s2 k p q b e t = rw e t

Segment-zero :
    (m : Bytes) (go : Bool) (s1 n s2 k : ℕ)
    → (0 ≡ n) ⊎ Tells m s2 k (m s1) (opposite go)
    → Segment m go s1 n s2 k 0
Segment-zero m go s1 n s2 k (inl e) = (omega arith, λ i hi. absurd (omega arith), inl e)
Segment-zero m go s1 n s2 k (inr t) = (
  omega arith,
  λ i hi. absurd (omega arith),
  inr (Tells-at m s2 k (s1 + 0) s1 (opposite go) (omega arith) t),
)

Segment-suc :
    (m : Bytes) (go : Bool) (s1 n s2 k r : ℕ)
    → Tells m s2 k (m s1) go
    → Segment m go (s1 + 1) n s2 k r
    → Segment m go s1 (suc n) s2 k (suc r)
Segment-suc m go s1 n s2 k r first (le, inside, stop) = (
  omega arith,
  λ i hi. elim (eq-cases i 0) [
    | inl z ↦ Tells-at m s2 k (s1 + i) s1 go (ground arith) first
    | inr pos ↦
        Tells-at m s2 k (s1 + i) (s1 + 1 + (i - 1)) go (ground arith)
          (inside (i - 1) (ground arith))
  ],
  elim stop [
    | inl e ↦ inl (omega arith)
    | inr t ↦ inr (Tells-at m s2 k (s1 + suc r) (s1 + 1 + r) (opposite go) (omega arith) t)
  ],
)

module _ (inner : ℕ) (m : Bytes) (s2 k : ℕ) where
  span-end :
      (fuel s1 result : ℕ) (go : Bool)
      → m s1 ≡ 0
      → span (suc fuel) inner m go s1 s2 result ≡ some result
  unfolding span
  span-end fuel s1 result go e = rw e refl

  span-stop :
      (fuel s1 result : ℕ) (go : Bool)
      → (m s1 == 0) ≡ false
      → in_set inner m s2 (m s1) ≡ some (opposite go)
      → span (suc fuel) inner m go s1 s2 result ≡ some result
  unfolding span
  span-stop fuel s1 result true live run = rw (live, run) refl
  span-stop fuel s1 result false live run = rw (live, run) refl

  span-next :
      (fuel s1 result : ℕ) (go : Bool)
      → (m s1 == 0) ≡ false
      → in_set inner m s2 (m s1) ≡ some go
      → span (suc fuel) inner m go s1 s2 result ≡ span fuel inner m go (s1 + 1) s2 (result + 1)
  unfolding span
  span-next fuel s1 result true live run = rw (live, run) refl
  span-next fuel s1 result false live run = rw (live, run) refl

  same_or_opposite : (b go : Bool) → (b ≡ go) ⊎ (b ≡ opposite go)
  same_or_opposite true true = inl refl
  same_or_opposite true false = inr refl
  same_or_opposite false true = inr refl
  same_or_opposite false false = inl refl

  span-Segment :
      (fuel s1 n result : ℕ) (go : Bool)
      → IsString m s1 n
      → IsString m s2 k
      → n < fuel
      → k < inner
      → (r : ℕ) × (span fuel inner m go s1 s2 result ≡ some (result + r)) × Segment m go s1 n s2 k r
  span-Segment zero s1 n result go t u f g = absurd (omega arith)
  span-Segment (suc fuel) s1 zero result go t u f g = (
    0,
    span-end fuel s1 result go (IsString-zero m s1 t)
        ∙ ap some {x = result} {y = result + 0} (omega arith),
    Segment-zero m go s1 0 s2 k (inl refl),
  )
  span-Segment (suc fuel) s1 (suc n) result go t u f g =
      let live = IsString-head m s1 n t in
      let (b, run, tells) = in_set-Tells inner m s2 k (m s1) u g in
      elim (same_or_opposite b go) [
        | inl e ↦
            let (r, more, seg) =
              span-Segment fuel (s1 + 1) n (result + 1) go (IsString-tail m s1 n t) u (omega arith)
                g in
            (
              suc r,
              span-next fuel s1 result go live (run ∙ ap some e)
                  ∙ more
                  ∙ ap some {x = result + 1 + r} {y = result + suc r} (omega arith),
              Segment-suc m go s1 n s2 k r (rw e at tells) seg,
            )
        | inr e ↦ (
          0,
          span-stop fuel s1 result go live (run ∙ ap some e)
              ∙ ap some {x = result} {y = result + 0} (omega arith),
          Segment-zero m go s1 (suc n) s2 k (inr (rw e at tells)),
        )
      ]

-- kstrspn of a string of n characters returns the length of its longest initial segment with all
-- characters from the second string; one round more than each string has characters is enough.
pub kstrspn-Segment :
    (fuel inner : ℕ) (m : Bytes) (s1 n s2 k : ℕ)
    → IsString m s1 n
    → IsString m s2 k
    → n < fuel
    → k < inner
    → (r : ℕ) × (kstrspn fuel inner m s1 s2 ≡ some r) × Segment m true s1 n s2 k r
unfolding kstrspn
kstrspn-Segment fuel inner m s1 n s2 k t u f g =
    let (r, run, seg) = span-Segment inner m s2 k fuel s1 n 0 true t u f g in
    (r, run ∙ ap some {x = 0 + r} {y = r} (omega arith), seg)

-- kstrcspn of a string of n characters returns the length of its longest initial segment with no
-- character from the second string; one round more than each string has characters is enough.
pub kstrcspn-Segment :
    (fuel inner : ℕ) (m : Bytes) (s1 n s2 k : ℕ)
    → IsString m s1 n
    → IsString m s2 k
    → n < fuel
    → k < inner
    → (r : ℕ) × (kstrcspn fuel inner m s1 s2 ≡ some r) × Segment m false s1 n s2 k r
unfolding kstrcspn
kstrcspn-Segment fuel inner m s1 n s2 k t u f g =
    let (r, run, seg) = span-Segment inner m s2 k fuel s1 n 0 false t u f g in
    (r, run ∙ ap some {x = 0 + r} {y = r} (omega arith), seg)
