-- ===== src/Kmalloc/Bins/Index.antt =====
-- The bins of the sizes, and the maps of the bins.
use elco_os.Base.{
  ltb, leb, ◌∙◌, refl, inl, inr, ◌^◌, ℕ, zero, suc, ◌+◌, ◌≡◌, ◌≤◌, ◌<◌, inl, inr, refl, Bool, true,
  false, arith, Bool-cases, eq-cases, ==_iff, ap, sym, ◌∙◌,
}
use elco_os.Kmalloc.Bins.{lowest_bit, highest_bit, calc_tbin, is_empty_map}

-- The result is the lowest bit from `i` on that is set, or the end where none is.
pub lowest_bit_lem :
    (n i : ℕ) (map : ℕ → Bool)
    → (i ≤ lowest_bit n i map)
      × (lowest_bit n i map ≤ i + n)
      × (lowest_bit n i map < i + n → map (lowest_bit n i map) ≡ true)
      × ((j : ℕ) → i ≤ j → j < lowest_bit n i map → map j ≡ false)
unfolding lowest_bit
lowest_bit_lem zero i map =
    (omega arith, omega arith, λ lt. absurd (omega arith), λ j lo hi. absurd (omega arith))
lowest_bit_lem (suc n) i map =
    let (lo, hi, at, before) = lowest_bit_lem n (suc i) map in
    elim (Bool-cases (map i)) [
      | inl e ↦ rw e (omega arith, omega arith, λ lt. e, λ j lo hi. absurd (omega arith))
      | inr e ↦ rw e (
        omega arith,
        omega arith,
        λ lt. at (omega arith),
        λ j from to. elim (eq-cases i j) [
          | inl same ↦ ap map (sym ((==_iff i j).0 same)) ∙ e
          | inr apart ↦ before j (grind arith) to
        ],
      )
    ]

-- maps that agree have the same lowest bit
pub lowest_bit-cong :
    (n i : ℕ) (map map' : ℕ → Bool)
    → ((j : ℕ) → i ≤ j → j < i + n → map j ≡ map' j)
    → lowest_bit n i map ≡ lowest_bit n i map'
unfolding lowest_bit
lowest_bit-cong zero i map map' same = refl
lowest_bit-cong (suc n) i map map' same =
    let now : map i ≡ map' i = same i (omega arith) (omega arith) in
    let rest : lowest_bit n (suc i) map ≡ lowest_bit n (suc i) map' =
      lowest_bit-cong n (suc i) map map' (λ j lo hi. same j (omega arith) (omega arith)) in
    rw now (rw rest refl)

highest_bit_bound : (k size : ℕ) → highest_bit k size ≤ k
unfolding highest_bit
highest_bit_bound zero size = omega arith
highest_bit_bound (suc k) size = let ih = highest_bit_bound k size in ground arith

highest_bit-step :
    (k size : ℕ) → leb (2 ^ suc k) size ≡ false → highest_bit (suc k) size ≡ highest_bit k size
unfolding highest_bit
highest_bit-step k size e = rw e refl

-- the bits above bit 23 are clear
highest_bit_small : (size : ℕ) → size < 2 ^ 24 → highest_bit 31 size ≡ highest_bit 23 size
highest_bit_small size lt =
    highest_bit-step 30 size (ground arith)
    ∙ highest_bit-step 29 size (ground arith)
    ∙ highest_bit-step 28 size (ground arith)
    ∙ highest_bit-step 27 size (ground arith)
    ∙ highest_bit-step 26 size (ground arith)
    ∙ highest_bit-step 25 size (ground arith)
    ∙ highest_bit-step 24 size (ground arith)
    ∙ highest_bit-step 23 size (ground arith)

-- Every size belongs to one of the 32 tree bins.
pub calc_tbin_bound : (size : ℕ) → calc_tbin size < 32
unfolding calc_tbin
calc_tbin_bound size = elim (Bool-cases (ltb 0xFFFF00 size)) [
  | inl huge ↦ ground arith
  | inr small ↦
      let lt : size < 2 ^ 24 = ground arith in
      let top = highest_bit_small size lt in let bound = highest_bit_bound 23 size in ground arith
]

-- a map without a bit
pub is_empty_map_lem : (map : ℕ → Bool) → ((i : ℕ) → map i ≡ false) → is_empty_map map ≡ true
unfolding is_empty_map lowest_bit
is_empty_map_lem map clear = rw (lowest_bit-cong 32 0 map (λ i. false) (λ j lo hi. clear j)) refl
