-- ===== src/BootMap/Balance.antt =====
-- Every entry begins before it ends, so in the sorted changes an end comes only where an entry is open.
use mathlib.Core.Path.{subst}
use elco_os.Base.{
  ℕ, zero, suc, ◌+◌, ◌*◌, ◌^◌, ◌≡◌, ◌≤◌, ◌<◌, inl, inr, refl, sym, ap, Bool, true, false, ◌&&◌, not,
  some, List, [], ◌∷◌, ◌++◌, length, arith, if◌then◌else◌, ◌==◌, ltb, leb, Bool-cases,
}
use elco_os.BootMap.{MmapEntry, ChangePoint, is_start, end_of, collect}
use elco_os.BootMap.Sort.{key, Sorted, tally}
use elco_os.BootMap.Regions.{Balanced}

module _ (at : ℕ → MmapEntry) where
  abbrev pub start_below : ℕ → ChangePoint → Bool
  start_below k c = is_start at c && ltb (key at c) k

  abbrev pub end_upto : ℕ → ChangePoint → Bool
  end_upto k c = not (is_start at c) && leb (key at c) k

  -- With `n` entries open before the list, the ends up to any key have their starts before it.
  abbrev pub Covered : (n : ℕ) → List ChangePoint → Type 0
  Covered n cs = (k : ℕ) → tally at (end_upto k) cs ≤ n + tally at (start_below k) cs

  no_start :
      (k : ℕ) (c : ChangePoint) (cs : List ChangePoint)
      → Sorted at (c ∷ cs)
      → k ≤ key at c
      → tally at (start_below k) cs ≡ 0
  no_start k c [] s le = refl
  no_start k c (d ∷ cs) s le = ground (arith, s.0, no_start k d cs s.1)

  no_end :
      (k : ℕ) (c : ChangePoint) (cs : List ChangePoint)
      → Sorted at (c ∷ cs)
      → k < key at c
      → tally at (end_upto k) cs ≡ 0
  no_end k c [] s lt = refl
  no_end k c (d ∷ cs) s lt = ground (arith, s.0, no_end k d cs s.1)

  pub Sorted-tail : (c : ChangePoint) (cs : List ChangePoint) → Sorted at (c ∷ cs) → Sorted at cs
  Sorted-tail c [] s = tt
  Sorted-tail c (d ∷ cs) s = s.1

  Balanced-cons_start :
      (n : ℕ) (c : ChangePoint) (cs : List ChangePoint)
      → is_start at c ≡ true
      → Balanced at (suc n) cs
      → Balanced at n (c ∷ cs)
  Balanced-cons_start zero c cs e h = (e, h)
  Balanced-cons_start (suc n) c cs e h =
      subst (λ b. Balanced at (if b then suc (suc n) else n) cs) (sym e) h

  Balanced-cons_end :
      (n : ℕ) (c : ChangePoint) (cs : List ChangePoint)
      → is_start at c ≡ false
      → Balanced at n cs
      → Balanced at (suc n) (c ∷ cs)
  Balanced-cons_end n c cs e h =
      subst (λ b. Balanced at (if b then suc (suc n) else n) cs) (sym e) h

  Covered-start :
      (n : ℕ) (c : ChangePoint) (cs : List ChangePoint)
      → is_start at c ≡ true
      → Covered n (c ∷ cs)
      → Covered (suc n) cs
  Covered-start n c cs e h k = ground (arith, h k, e)

  -- an end in front: an entry is open, and the others are covered without it
  Covered-end :
      (n : ℕ) (c : ChangePoint) (cs : List ChangePoint)
      → is_start at c ≡ false
      → Sorted at (c ∷ cs)
      → Covered n (c ∷ cs)
      → (m : ℕ) × (n ≡ suc m) × Covered m cs
  Covered-end zero c cs e s h =
      absurd (ground (arith, h (key at c), no_start (key at c) c cs s (omega arith), e))
  Covered-end (suc m) c cs e s h = (
    m,
    refl,
    λ k. elim (Bool-cases (leb (key at c) k)) [
      | inl f ↦ ground (arith, h k, e, f)
      | inr f ↦ ground (arith, no_end k c cs s (ground (arith, f)))
    ],
  )

  pub Covered-Balanced :
      (n : ℕ) (cs : List ChangePoint) → Sorted at cs → Covered n cs → Balanced at n cs
  Covered-Balanced n [] s h = tt
  Covered-Balanced n (c ∷ cs) s h = elim (Bool-cases (is_start at c)) [
    | inl e ↦
        Balanced-cons_start n c cs e
          (Covered-Balanced (suc n) cs (Sorted-tail c cs s) (Covered-start n c cs e h))
    | inr e ↦
        let (m, same, h') = Covered-end n c cs e s h in
        subst (λ z. Balanced at z (c ∷ cs)) (sym same)
          (Balanced-cons_end m c cs e (Covered-Balanced m cs (Sorted-tail c cs s) h'))
  ]

  -- the changes of an entry that begins before it ends, or is empty
  pub Covered-pair :
      (low end e : ℕ) (cs : List ChangePoint)
      → (at e).addr_low ≡ low
      → low ≤ end
      → Covered 0 cs
      → Covered 0 (record { addr = low; entry = e } ∷ record { addr = end; entry = e } ∷ cs)
  Covered-pair low end e cs begins le h k = ground (arith, h k, begins)

  -- `at` gives the entries of the list, from `i` on
  abbrev pub Agrees : (i : ℕ) → List MmapEntry → Type 0
  Agrees i [] = Unit {0}
  Agrees i (e ∷ es) = (at i ≡ e) × Agrees (i + 1) es

  -- the fields of a boot entry have 32 bits
  abbrev pub Words : List MmapEntry → Type 0
  Words [] = Unit {0}
  Words (e ∷ es) = (e.addr_low < 2 ^ 32) × Words es

  abbrev pub beyond : ChangePoint → Bool
  beyond c = leb (2 ^ 32) c.addr

  end_of_bounds :
      (e : MmapEntry) → e.addr_low < 2 ^ 32 → (e.addr_low ≤ end_of e) × (end_of e < 2 ^ 32)
  end_of_bounds e lt = ground arith

  pub two_within :
      (a b n : ℕ)
      → a < 2 ^ 32
      → b < 2 ^ 32
      → n ≡ 0
      → (let m = if leb (2 ^ 32) b then suc n else n in if leb (2 ^ 32) a then suc m else m) ≡ 0
  two_within a b n la lb z = ground (arith, z)

  -- what the first loop collects, from a map that is not too long
  pub collect-Covered :
      (es : List MmapEntry) (i count : ℕ)
      → Agrees i es
      → Words es
      → count + 2 * length es ≤ 128
      → (cs : List ChangePoint) × (collect es i count ≡ some cs)
        × ((after : List ChangePoint) → Covered 0 after → Covered 0 (cs ++ after))
        × ((after : List ChangePoint)
            → tally at beyond after ≡ 0
            → tally at beyond (cs ++ after) ≡ 0)
  unfolding collect
  collect-Covered [] i count a w few = ([], refl, (λ after h. h), λ after h. h)
  collect-Covered (e ∷ es) i count (here, a) (lt, w) few = elim (Bool-cases (e.addr_high == 0)) [
    | inl t ↦
        let (cs, run, covers, bounded) =
          collect-Covered es (i + 1) (count + 2) a w (omega (arith, few)) in
        let fits : ltb 128 (count + 2) ≡ false = ground (arith, few) in
        let (le, below) = end_of_bounds e lt in
        (
          record { addr = e.addr_low; entry = i } ∷ record { addr = end_of e; entry = i } ∷ cs,
          rw t (rw fits (rw run refl)),
          (λ after h.
              Covered-pair e.addr_low (end_of e) i (cs ++ after) (ap (λ z. z.addr_low) here) le
                (covers after h)),
          λ after h.
              two_within e.addr_low (end_of e) (tally at beyond (cs ++ after)) lt below
                (bounded after h),
        )
    | inr t ↦
        let (cs, run, covers, bounded) =
          collect-Covered es (i + 1) count a w (omega (arith, few)) in
        let fits : ltb 128 count ≡ false = ground (arith, few) in
        (cs, rw t (rw fits (rw run refl)), covers, bounded)
  ]
