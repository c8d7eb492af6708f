-- ===== src/Memory/Pages/Allocate.antt =====
-- memory_allocate_page: the page that it maps, on which frame, and when it fails.
use elco_os.Base.{
  ap, ℕ, ◌≡◌, ◌<◌, ◌⊎◌, inl, inr, refl, Bool, true, false, Option, none, some, Bool-cases,
}
use elco_os.Memory.Paging.{Memory, set_page_table, page_is_mapped, ptable_is_set}
use elco_os.Memory.FrameStack.{pstack_push, pstack_pop}
use elco_os.Memory.Pages.{map_page, memory_allocate_page}
use elco_os.Memory.Pages.Placed.{
  HasTable-ptable_is_set, HasTable-set_page_table, Backed, Placed, NoTable, map_page-Backed,
  map_page-OnlyEntry, map_page-TableMade,
}

-- The outcome of an allocation at an unmapped address: code 1 as no frame was left, for the page or
-- for a page table that is missing; or code 0, and the page stands on the frame popped first: in the
-- page table that exists, of which nothing else changes, or in a new one on the frame popped second.
abbrev pub Outcome : Memory → ℕ → Bool → Bool → ℕ × Memory → Type 0
Outcome m vaddr usermode writable r =
    ((r.0 ≡ 1) × (((pstack_pop m).0 ≡ none) ⊎ NoTable (pstack_pop m).1 vaddr))
    ⊎ ((r.0 ≡ 0)
        × (frame : ℕ) × ((pstack_pop m).0 ≡ some frame)
        × Backed r.1 vaddr frame usermode writable
        × Placed (pstack_pop m).1 r.1 vaddr)

module _ (m : Memory) (vaddr : ℕ) (usermode writable : Bool) where
  without_frame :
      (m1 : Memory)
      → page_is_mapped m vaddr ≡ false
      → pstack_pop m ≡ (none, m1)
      → memory_allocate_page m vaddr usermode writable ≡ (1, m1)
  unfolding memory_allocate_page
  without_frame m1 unmapped pop = simp (unmapped, pop)

  table_stands :
      (m1 : Memory) (frame : ℕ)
      → page_is_mapped m vaddr ≡ false
      → pstack_pop m ≡ (some frame, m1)
      → ptable_is_set m1 vaddr ≡ true
      → memory_allocate_page m vaddr usermode writable ≡ map_page m1 vaddr frame usermode writable
  unfolding memory_allocate_page
  table_stands m1 frame unmapped pop set = simp (unmapped, pop, set)

  table_missing :
      (m1 m2 : Memory) (frame : ℕ)
      → page_is_mapped m vaddr ≡ false
      → pstack_pop m ≡ (some frame, m1)
      → ptable_is_set m1 vaddr ≡ false
      → pstack_pop m1 ≡ (none, m2)
      → memory_allocate_page m vaddr usermode writable ≡ (1, (pstack_push m2 frame).1)
  unfolding memory_allocate_page
  table_missing m1 m2 frame unmapped pop set pop2 = simp (unmapped, pop, set, pop2)

  table_made :
      (m1 m2 : Memory) (frame table : ℕ)
      → page_is_mapped m vaddr ≡ false
      → pstack_pop m ≡ (some frame, m1)
      → ptable_is_set m1 vaddr ≡ false
      → pstack_pop m1 ≡ (some table, m2)
      → memory_allocate_page m vaddr usermode writable
        ≡ map_page (set_page_table m2 vaddr table 3 true) vaddr frame usermode writable
  unfolding memory_allocate_page
  table_made m1 m2 frame table unmapped pop set pop2 = simp (unmapped, pop, set, pop2)

  by_second_pop :
      (m1 : Memory) (frame : ℕ) (r : Option ℕ × Memory)
      → vaddr < 0xFFC00000
      → page_is_mapped m vaddr ≡ false
      → pstack_pop m ≡ (some frame, m1)
      → ptable_is_set m1 vaddr ≡ false
      → pstack_pop m1 ≡ r
      → Outcome m vaddr usermode writable (memory_allocate_page m vaddr usermode writable)
  by_second_pop m1 frame (none, m2) low unmapped pop set pop2 = inl (
    ap (λ (x : ℕ × Memory). x.0) (table_missing m1 m2 frame unmapped pop set pop2),
    inr (rw pop (set, ap (λ (x : Option ℕ × Memory). x.0) pop2)),
  )
  by_second_pop m1 frame (some table, m2) low unmapped pop set pop2 =
      let run = table_made m1 m2 frame table unmapped pop set pop2 in
      inr (
        ap (λ (x : ℕ × Memory). x.0) run,
        frame,
        ap (λ (x : Option ℕ × Memory). x.0) pop,
        rw run (
            map_page-Backed (set_page_table m2 vaddr table 3 true) vaddr frame usermode writable low
              (HasTable-set_page_table m2 vaddr table low)),
        rw run (
            rw pop (
              inr (
                set,
                table,
                ap (λ (x : Option ℕ × Memory). x.0) pop2,
                rw pop2 (map_page-TableMade m2 vaddr frame table usermode writable low),
              ))),
      )

  by_pop :
      (r : Option ℕ × Memory)
      → vaddr < 0xFFC00000
      → page_is_mapped m vaddr ≡ false
      → pstack_pop m ≡ r
      → Outcome m vaddr usermode writable (memory_allocate_page m vaddr usermode writable)
  by_pop (none, m1) low unmapped pop = inl (
    ap (λ (x : ℕ × Memory). x.0) (without_frame m1 unmapped pop),
    inl (ap (λ (x : Option ℕ × Memory). x.0) pop),
  )
  by_pop (some frame, m1) low unmapped pop = elim (Bool-cases (ptable_is_set m1 vaddr)) [
    | inl e ↦
        let run = table_stands m1 frame unmapped pop e in
        inr (
          ap (λ (x : ℕ × Memory). x.0) run,
          frame,
          ap (λ (x : Option ℕ × Memory). x.0) pop,
          rw run (
              map_page-Backed m1 vaddr frame usermode writable low
                (HasTable-ptable_is_set m1 vaddr e)),
          rw run (
              rw pop (
                inl (
                  e,
                  map_page-OnlyEntry m1 vaddr frame usermode writable low
                      (HasTable-ptable_is_set m1 vaddr e),
                ))),
        )
    | inr e ↦ by_second_pop m1 frame (pstack_pop m1) low unmapped pop e refl
  ]

-- An allocation at an address that is not mapped, below 0xFFC00000, where the page tables stand,
-- either gives code 1, and then no frame was left for the page, or its page table was missing and no
-- frame was left for that; or it gives code 0, and then the page is mapped on the frame that the first
-- pop gave, with exactly the flags asked for. A page table that exists is kept but for the entry of
-- the page, and no second frame is popped; a missing one is made on the frame that the second pop
-- gave, present, writable and otherwise clear. The other page tables are as they were.
pub memory_allocate_page-Outcome :
    (m : Memory) (vaddr : ℕ) (usermode writable : Bool)
    → vaddr < 0xFFC00000
    → page_is_mapped m vaddr ≡ false
    → Outcome m vaddr usermode writable (memory_allocate_page m vaddr usermode writable)
memory_allocate_page-Outcome m vaddr usermode writable low unmapped =
    by_pop m vaddr usermode writable (pstack_pop m) low unmapped refl
