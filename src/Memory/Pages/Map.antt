-- ===== src/Memory/Pages/Map.antt =====
-- memory_map_addr and memory_unmap_addr: a frame mapped and unmapped.
use elco_os.Base.{
  ap, ◌∙◌, ℕ, ◌≡◌, ◌<◌, ◌⊎◌, inl, inr, refl, Bool, true, false, Option, none, some, Bool-cases,
}
use elco_os.Memory.Paging.{Memory, set_page, set_page_table, page_is_mapped, ptable_is_set}
use elco_os.Memory.Paging.RoundTrip.{HasTable, get_page-set_page}
use elco_os.Memory.FrameStack.{pstack_pop}
use elco_os.Memory.Pages.{map_page, memory_map_addr, memory_unmap_addr}
use elco_os.Memory.Pages.Placed.{
  HasTable-ptable_is_set, HasTable-set_page_table, Backed, Placed, NoTable, map_page-Backed,
  map_page-OnlyEntry, map_page-TableMade,
}

-- The outcome of mapping a frame at an unmapped address and unmapping it.
abbrev pub MapOutcome : Memory → (vaddr frame : ℕ) → Bool → Bool → Type 0
MapOutcome m vaddr frame usermode writable =
    (((memory_map_addr m vaddr frame usermode writable).0 ≡ 1) × NoTable m vaddr)
    ⊎ ((m1 m2 : Memory) × (memory_map_addr m vaddr frame usermode writable ≡ (0, m1))
        × Backed m1 vaddr frame usermode writable
        × Placed m m1 vaddr
        × (memory_unmap_addr m1 vaddr ≡ (0, m2))
        × (page_is_mapped m2 vaddr ≡ false))

memory_map_addr-run :
    (m m1 : Memory) (vaddr frame : ℕ) (usermode writable : Bool) (r : Option ℕ)
    → page_is_mapped m vaddr ≡ false
    → ptable_is_set m vaddr ≡ false
    → pstack_pop m ≡ (r, m1)
    → memory_map_addr m vaddr frame usermode writable ≡ elim r [
      | none ↦ (1, m1)
      | some table ↦ map_page (set_page_table m1 vaddr table 3 true) vaddr frame usermode writable
    ]
unfolding memory_map_addr
memory_map_addr-run m m1 vaddr frame usermode writable none unmapped set pop =
    simp (unmapped, set, pop)
memory_map_addr-run m m1 vaddr frame usermode writable (some table) unmapped set pop =
    simp (unmapped, set, pop)

memory_map_addr-run_set :
    (m : Memory) (vaddr frame : ℕ) (usermode writable : Bool)
    → page_is_mapped m vaddr ≡ false
    → ptable_is_set m vaddr ≡ true
    → memory_map_addr m vaddr frame usermode writable ≡ map_page m vaddr frame usermode writable
unfolding memory_map_addr
memory_map_addr-run_set m vaddr frame usermode writable unmapped set = simp (unmapped, set)

memory_unmap_addr-run :
    (m : Memory) (vaddr : ℕ)
    → page_is_mapped m vaddr ≡ true
    → memory_unmap_addr m vaddr ≡ set_page m vaddr 0 0
unfolding memory_unmap_addr
memory_unmap_addr-run m vaddr mapped = simp mapped

-- Once map_page has set the page of a page table that exists, unmapping it takes it out again.
unmapped_again :
    (m k : Memory) (vaddr frame : ℕ) (usermode writable : Bool)
    → vaddr < 0xFFC00000
    → HasTable k vaddr
    → memory_map_addr m vaddr frame usermode writable ≡ map_page k vaddr frame usermode writable
    → Placed m (map_page k vaddr frame usermode writable).1 vaddr
    → MapOutcome m vaddr frame usermode writable
unmapped_again m k vaddr frame usermode writable low h run placed =
    let m1 = (map_page k vaddr frame usermode writable).1 in
    let backed = map_page-Backed k vaddr frame usermode writable low h in
    let same = (map_page-OnlyEntry k vaddr frame usermode writable low h).0 in
    let h1 : HasTable m1 vaddr = rw (ap (λ (k : Memory). k.ptable) same) h in
    let (m2, put2, got2, mapped2, same2, rest2) = get_page-set_page m1 vaddr 0 0 low h1 in
    inr (m1, m2, run, backed, placed, memory_unmap_addr-run m1 vaddr backed.1 ∙ put2, mapped2)

by_table :
    (m m1 : Memory) (vaddr frame : ℕ) (usermode writable : Bool) (r : Option ℕ)
    → vaddr < 0xFFC00000
    → page_is_mapped m vaddr ≡ false
    → ptable_is_set m vaddr ≡ false
    → pstack_pop m ≡ (r, m1)
    → MapOutcome m vaddr frame usermode writable
by_table m m1 vaddr frame usermode writable none low unmapped set pop =
    let run = memory_map_addr-run m m1 vaddr frame usermode writable none unmapped set pop in
    inl (ap (λ (x : ℕ × Memory). x.0) run, (set, ap (λ (x : Option ℕ × Memory). x.0) pop))
by_table m m1 vaddr frame usermode writable (some table) low unmapped set pop =
    unmapped_again m (set_page_table m1 vaddr table 3 true) vaddr frame usermode writable low
      (HasTable-set_page_table m1 vaddr table low)
      (memory_map_addr-run m m1 vaddr frame usermode writable (some table) unmapped set pop)
      (inr (
        set,
        table,
        ap (λ (x : Option ℕ × Memory). x.0) pop,
        rw pop (map_page-TableMade m1 vaddr frame table usermode writable low),
      ))

-- Mapping a frame at an address that is not mapped, below 0xFFC00000, where the page tables stand,
-- gives code 1 where the page table is missing and no frame is left for it. Else it gives code 0, and
-- the page stands on that frame with the flags asked for, in the page table that exists or in a new
-- one; unmapping it then gives code 0 and the page is not mapped.
pub memory_unmap_addr-map_addr :
    (m : Memory) (vaddr frame : ℕ) (usermode writable : Bool)
    → vaddr < 0xFFC00000
    → page_is_mapped m vaddr ≡ false
    → MapOutcome m vaddr frame usermode writable
memory_unmap_addr-map_addr m vaddr frame usermode writable low unmapped =
    elim (Bool-cases (ptable_is_set m vaddr)) [
      | inl e ↦
          let h = HasTable-ptable_is_set m vaddr e in
          unmapped_again m m vaddr frame usermode writable low h
            (memory_map_addr-run_set m vaddr frame usermode writable unmapped e)
            (inl (e, map_page-OnlyEntry m vaddr frame usermode writable low h))
      | inr e ↦
          by_table m (pstack_pop m).1 vaddr frame usermode writable (pstack_pop m).0 low unmapped e
            refl
    ]
