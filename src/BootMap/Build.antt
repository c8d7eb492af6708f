-- ===== src/BootMap/Build.antt =====
-- get_mmap as a whole.
use elco_os.Base.{
  ℕ, suc, ◌+◌, ◌*◌, ◌^◌, ◌≡◌, ◌≤◌, ◌<◌, refl, ap, ◌∙◌, some, List, [], ◌∷◌, ◌++◌, length, get_or,
  arith, if◌then◌else◌, leb,
}
use elco_os.Memory.Start.{MemEntry}
use elco_os.BootMap.{MmapEntry, ChangePoint, Sweep, changes, kernel_area, boot_entry, get_mmap}
use elco_os.BootMap.Sort.{key, Sorted, tally, sort_changes-Sorted}
use elco_os.BootMap.Regions.{Rising, Stacked, sweep-Stacked}
use elco_os.BootMap.Balance.{
  Covered, Agrees, Words, beyond, Covered-Balanced, Covered-pair, collect-Covered, two_within,
}

-- the places of the boot map, from `i` on
Agrees-shift :
    (at : ℕ → MmapEntry) (dummy : MmapEntry) (es : List MmapEntry) (i : ℕ)
    → ((j : ℕ) → at (i + j) ≡ get_or es j dummy)
    → Agrees at i es
Agrees-shift at dummy [] i h = tt
Agrees-shift at dummy (e ∷ es) i h = (
  ap at {x = i} {y = i + 0} (omega arith) ∙ h 0,
  Agrees-shift at dummy es (i + 1)
      (λ j. ap at {x = i + 1 + j} {y = i + suc j} (omega arith) ∙ h (suc j)),
)

boot_entry-Agrees : (es : List MmapEntry) (dummy : MmapEntry) → Agrees (boot_entry es dummy) 0 es
boot_entry-Agrees es dummy =
    Agrees-shift (boot_entry es dummy) dummy es 0
      (λ j. ap (boot_entry es dummy) {x = 0 + j} {y = j} (omega arith))

boot_entry-length :
    (es : List MmapEntry) (dummy : MmapEntry) → boot_entry es dummy (length es) ≡ dummy
boot_entry-length [] dummy = refl
boot_entry-length (e ∷ es) dummy = boot_entry-length es dummy

within_tail : (c : ℕ) (n : ℕ) → (if leb (2 ^ 32) c then suc n else n) ≡ 0 → (c < 2 ^ 32) × (n ≡ 0)
within_tail c n z = ground (arith, z)

rising_step : (at : ℕ → MmapEntry) (c d : ChangePoint) → key at c ≤ key at d → c.addr ≤ d.addr
rising_step at c d le = ground (arith, le)

-- sorted changes of 32 bits rise
Sorted-Rising :
    (at : ℕ → MmapEntry) (c : ChangePoint) (cs : List ChangePoint)
    → Sorted at (c ∷ cs)
    → tally at (beyond at) cs ≡ 0
    → Rising c.addr cs
Sorted-Rising at c [] s within = tt
Sorted-Rising at c (d ∷ ds) s within =
    let (small, others) = within_tail d.addr (tally at (beyond at) ds) within in
    (rising_step at c d s.0, small, Sorted-Rising at d ds s.1 others)

Sorted-Rising_zero :
    (at : ℕ → MmapEntry) (cs : List ChangePoint)
    → Sorted at cs
    → tally at (beyond at) cs ≡ 0
    → Rising 0 cs
Sorted-Rising_zero at [] s within = tt
Sorted-Rising_zero at (c ∷ cs) s within =
    let (small, others) = within_tail c.addr (tally at (beyond at) cs) within in
    (omega arith, small, Sorted-Rising at c cs s others)

-- For a boot map of at most 64 entries, get_mmap ends, and makes a map of regions that have bytes and a
-- type, in order, of which no two overlap and none goes beyond 4 GB. Its addresses have 32 bits, and
-- the kernel begins before it ends, or where it ends.
pub get_mmap-Stacked :
    (es : List MmapEntry) (kernel_start_phys kernel_end_phys : ℕ)
    → length es ≤ 64
    → Words (boot_entry es (kernel_area kernel_start_phys kernel_end_phys)) es
    → kernel_start_phys ≤ kernel_end_phys
    → kernel_end_phys < 2 ^ 32
    → (rs : List MemEntry) × (get_mmap es kernel_start_phys kernel_end_phys ≡ some rs)
      × Stacked (2 ^ 32) rs
unfolding get_mmap changes
get_mmap-Stacked es ks ke few w le lt =
    let dummy = kernel_area ks ke in
    let at = boot_entry es dummy in
    let kernel : List ChangePoint =
      record { addr = ks; entry = length es } ∷ record { addr = ke; entry = length es } ∷ [] in
    let (cs, run, covers, bounded) =
      collect-Covered at es 0 0 (boot_entry-Agrees es dummy) w (omega (arith, few)) in
    let all = cs ++ kernel in
    let covered = covers kernel (
      Covered-pair at ks ke (length es) [] (ap (λ e. e.addr_low) (boot_entry-length es dummy)) le
        (λ k. omega arith)) in
    let within = bounded kernel (two_within at ks ke 0 (omega arith) lt refl) in
    let (ds, sorts, sorted, same) =
      sort_changes-Sorted at (suc (length all * length all)) all (omega arith) in
    let covered' : Covered at 0 ds = λ k. rw (same _) (rw (same _) (covered k)) in
    let s : Sweep = record { overlap = []; mmap = []; last_addr = 0; last_type = 0 } in
    let (s', done, regions) =
      sweep-Stacked at 0 ds s (record { opened = omega arith; regions = tt }) (omega arith)
        (Sorted-Rising_zero at ds sorted (same (beyond at) ∙ within))
        (Covered-Balanced at 0 ds sorted covered') in
    (s'.mmap, rw run (rw sorts (rw done refl)), regions)
