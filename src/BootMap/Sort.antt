-- ===== src/BootMap/Sort.antt =====
-- The sort of the changes ends, and sorts them.
use mathlib.Core.Path.{subst}
use elco_os.Base.{
  ℕ, zero, suc, ◌+◌, ◌*◌, ◌≡◌, ◌≤◌, ◌<◌, inl, inr, refl, sym, ap, ◌∙◌, Bool, true, false, ◌||◌,
  some, List, [], ◌∷◌, length, arith, if◌then◌else◌, ltb, Bool-cases,
}
use elco_os.BootMap.{MmapEntry, ChangePoint, is_start, out_of_order, sort_round, sort_changes}

neither : (a b : Bool) → (a || b) ≡ false → (a ≡ false) × (b ≡ false)
neither false false e = (refl, refl)
neither false true e = absurd (ground (arith, e))
neither true b e = absurd (ground (arith, e))

module _ (at : ℕ → MmapEntry) where
  -- the order of the changes: by address, and the starts at an address before the ends
  abbrev pub key : ChangePoint → ℕ
  key c = 2 * c.addr + (if is_start at c then 0 else 1)

  out_of_order-key : (c p : ChangePoint) → out_of_order at c p ≡ ltb (key c) (key p)
  out_of_order-key c p = ground arith

  -- how many changes of the list have a smaller key
  abbrev pub smaller : (k : ℕ) → List ChangePoint → ℕ
  smaller k [] = 0
  smaller k (c ∷ cs) = if ltb (key c) k then suc (smaller k cs) else smaller k cs

  -- the pairs that stand in the wrong order
  abbrev pub inversions : List ChangePoint → ℕ
  inversions [] = 0
  inversions (c ∷ cs) = smaller (key c) cs + inversions cs

  smaller-sort_round :
      (k : ℕ) (p : ChangePoint) (cs : List ChangePoint)
      → smaller k (sort_round at p cs).0 ≡ smaller k (p ∷ cs)
  unfolding sort_round
  smaller-sort_round k p [] = refl
  smaller-sort_round k p (c ∷ cs) = elim (Bool-cases (out_of_order at c p)) [
    | inl e ↦ rw e (ground (arith, smaller-sort_round k p cs))
    | inr e ↦ rw e (ground (arith, smaller-sort_round k c cs))
  ]

  ltb_asym : (a b : ℕ) → ltb a b ≡ true → ltb b a ≡ false
  ltb_asym a b e = ground arith

  -- a round that changes nothing, or leaves fewer inversions
  sort_round-inversions :
      (p : ChangePoint) (cs : List ChangePoint)
      → let r = sort_round at p cs in
        (inversions r.0 ≤ inversions (p ∷ cs)) × (r.1 ≡ true → inversions r.0 < inversions (p ∷ cs))
  unfolding sort_round
  sort_round-inversions p [] = (omega arith, λ e. ground (arith, e))
  sort_round-inversions p (c ∷ cs) = elim (Bool-cases (out_of_order at c p)) [
    | inl e ↦
        let (le, less) = sort_round-inversions p cs in
        let order : ltb (key c) (key p) ≡ true = sym (out_of_order-key c p) ∙ e in
        let kept : ltb (key p) (key c) ≡ false = ltb_asym (key c) (key p) order in
        let same : smaller (key c) (sort_round at p cs).0 ≡ smaller (key c) cs =
          smaller-sort_round (key c) p cs ∙ rw kept refl in
        rw e (rw order (omega (arith, same, le), λ h. omega (arith, same, le)))
    | inr e ↦
        let (le, less) = sort_round-inversions c cs in
        let order : ltb (key c) (key p) ≡ false = sym (out_of_order-key c p) ∙ e in
        let same : smaller (key p) (sort_round at c cs).0 ≡ smaller (key p) cs =
          smaller-sort_round (key p) c cs ∙ rw order refl in
        rw e (rw order (omega (arith, same, le), λ h. omega (arith, same, less h)))
  ]

  -- every change has a key that is not below the one before it
  abbrev pub Sorted : List ChangePoint → Type 0
  Sorted [] = Unit {0}
  Sorted (c ∷ []) = Unit {0}
  Sorted (p ∷ c ∷ cs) = (key p ≤ key c) × Sorted (c ∷ cs)

  -- a round that changes nothing has found the list sorted
  sort_round-Sorted :
      (p : ChangePoint) (cs : List ChangePoint)
      → (sort_round at p cs).1 ≡ false
      → ((sort_round at p cs).0 ≡ p ∷ cs) × Sorted (p ∷ cs)
  unfolding sort_round
  sort_round-Sorted p [] quiet = (refl, tt)
  sort_round-Sorted p (c ∷ cs) quiet =
      let (e, still) = neither (out_of_order at c p) _ quiet in
      let quiet' : (sort_round at c cs).1 ≡ false =
        subst (λ b. (sort_round at (if b then p else c) cs).1 ≡ false) e still in
      let (same, sorted) = sort_round-Sorted c cs quiet' in
      (rw e (rw same refl), (ground (arith, out_of_order-key c p, e), sorted))

  -- for how many changes a test holds
  abbrev pub tally : (ChangePoint → Bool) → List ChangePoint → ℕ
  tally test [] = 0
  tally test (d ∷ cs) = if test d then suc (tally test cs) else tally test cs

  tally-sort_round :
      (test : ChangePoint → Bool) (p : ChangePoint) (cs : List ChangePoint)
      → tally test (sort_round at p cs).0 ≡ tally test (p ∷ cs)
  unfolding sort_round
  tally-sort_round test p [] = refl
  tally-sort_round test p (d ∷ cs) = elim (Bool-cases (out_of_order at d p)) [
    | inl e ↦ rw e (ground (arith, tally-sort_round test p cs))
    | inr e ↦ rw e (ground (arith, tally-sort_round test d cs))
  ]

  length-sort_round :
      (p : ChangePoint) (cs : List ChangePoint) → length (sort_round at p cs).0 ≡ suc (length cs)
  unfolding sort_round
  length-sort_round p [] = refl
  length-sort_round p (c ∷ cs) =
      omega (arith, length-sort_round (if out_of_order at c p then p else c) cs)

  smaller_bound : (k : ℕ) (cs : List ChangePoint) → smaller k cs ≤ length cs
  smaller_bound k [] = omega arith
  smaller_bound k (c ∷ cs) = ground (arith, smaller_bound k cs)

  inversions_bound : (cs : List ChangePoint) → inversions cs ≤ length cs * length cs
  inversions_bound [] = omega arith
  inversions_bound (c ∷ cs) = grind (arith, smaller_bound (key c) cs, inversions_bound cs)

  sort_changes-inversions :
      (fuel : ℕ) (cs : List ChangePoint)
      → inversions cs < fuel
      → (ds : List ChangePoint) × (sort_changes fuel at cs ≡ some ds)
        × Sorted ds
        × ((test : ChangePoint → Bool) → tally test ds ≡ tally test cs)
  unfolding sort_changes
  sort_changes-inversions zero cs lt = absurd (omega arith)
  sort_changes-inversions (suc fuel) [] lt = ([], refl, tt, λ test. refl)
  sort_changes-inversions (suc fuel) (p ∷ cs) lt =
      let r = sort_round at p cs in
      elim (Bool-cases r.1) [
        | inl e ↦
            let fewer = (sort_round-inversions p cs).1 e in
            let (ds, run, sorted, same) = sort_changes-inversions fuel r.0 (omega arith) in
            (ds, rw e run, sorted, λ test. same test ∙ tally-sort_round test p cs)
        | inr e ↦
            let (same, sorted) = sort_round-Sorted p cs e in
            (p ∷ cs, rw e (ap some same), sorted, λ test. refl)
      ]

  -- The sort of get_mmap ends, for n changes after at most n * n rounds that change something, and gives
  -- the changes by address, and the starts at an address before the ends; every test holds for as many
  -- changes as before.
  pub sort_changes-Sorted :
      (fuel : ℕ) (cs : List ChangePoint)
      → length cs * length cs < fuel
      → (ds : List ChangePoint) × (sort_changes fuel at cs ≡ some ds)
        × Sorted ds
        × ((test : ChangePoint → Bool) → tally test ds ≡ tally test cs)
  sort_changes-Sorted fuel cs lt =
      sort_changes-inversions fuel cs (omega (arith, inversions_bound cs, lt))
