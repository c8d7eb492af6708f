-- ===== src/Memory/Pages/Placed.antt =====
-- The page that map_page puts into a page table that exists, or into a new one.
use elco_os.Base.{
  ap, ◌∙◌, ℕ, ◌≡◌, ◌<◌, ◌⊎◌, refl, Bool, true, false, ◌&&◌, none, some, arith, if◌then◌else◌, ◌==◌,
  ltb, upd, ◌+◌,
}
use elco_os.Memory.Paging.{
  Memory, self_table, pde_max, pde_num, pte_num, frame_of, flags_of, get_page, set_page_table,
  page_is_mapped, ptable_is_set,
}
use elco_os.Memory.Paging.RoundTrip.{HasTable, get_page-set_page}
use elco_os.Memory.FrameStack.{pstack_pop}
use elco_os.Memory.Pages.{page_flags, map_page}

pub HasTable-ptable_is_set :
    (m : Memory) (vaddr : ℕ) → ptable_is_set m vaddr ≡ true → HasTable m vaddr
unfolding ptable_is_set
HasTable-ptable_is_set m vaddr e = ground arith

pub HasTable-set_page_table :
    (m : Memory) (vaddr table : ℕ)
    → vaddr < 0xFFC00000
    → HasTable (set_page_table m vaddr table 3 true) vaddr
unfolding set_page_table
HasTable-set_page_table m vaddr table low = ground arith

-- the page as it stands after map_page
abbrev pub Backed : Memory → (vaddr frame : ℕ) → (usermode writable : Bool) → Type 0
Backed m vaddr frame usermode writable =
    (get_page m vaddr ≡ some (frame_of frame, page_flags usermode writable))
    × (page_is_mapped m vaddr ≡ true)

pub map_page-Backed :
    (m : Memory) (vaddr frame : ℕ) (usermode writable : Bool)
    → vaddr < 0xFFC00000
    → HasTable m vaddr
    → Backed (map_page m vaddr frame usermode writable).1 vaddr frame usermode writable
map_page-Backed m vaddr frame usermode writable low h =
    let flags = page_flags usermode writable in
    let (m', put, got, mapped, same, rest) = get_page-set_page m vaddr frame flags low h in
    let small : flags_of flags ≡ flags = ground arith in
    (
      ap (λ (r : ℕ × Memory). get_page r.1 vaddr) put
          ∙ got
          ∙ ap (λ f. some (frame_of frame, f)) small,
      ap (λ (r : ℕ × Memory). page_is_mapped r.1 vaddr) put ∙ mapped ∙ ground arith,
    )

-- `m'` is `m` but for the entry of the page.
abbrev pub OnlyEntry : (m m' : Memory) → (vaddr : ℕ) → Type 0
OnlyEntry m m' vaddr =
    (m' ≡ record m { entry = m'.entry })
    × ((t p : ℕ)
        → m'.entry t p
          ≡ (if t == pde_num vaddr && p == pte_num vaddr then m'.entry t p else m.entry t p))

-- `m'` is `m` with a page table for `vaddr` on the frame `table`, present and writable, in which every
-- entry but that of the page is clear. The other page tables are as they were.
abbrev pub TableMade : (m m' : Memory) → (vaddr table : ℕ) → Type 0
TableMade m m' vaddr table =
    (m' ≡ record m { entry = m'.entry; ptable = m'.ptable })
    × ((t : ℕ) → m'.ptable t ≡ (if t == pde_num vaddr then frame_of table + 3 else m.ptable t))
    × ((t p : ℕ)
        → m'.entry t p ≡ (
            if t == pde_num vaddr
            then (if p == pte_num vaddr
                then m'.entry t p
                else (if ltb p pde_max then 0 else m.entry t p))
            else m.entry t p))

-- From `m` to `m'` the entry of the page changes in the page table that exists, or in a new one on the
-- frame that is popped.
abbrev pub Placed : (m m' : Memory) → (vaddr : ℕ) → Type 0
Placed m m' vaddr =
    ((ptable_is_set m vaddr ≡ true) × OnlyEntry m m' vaddr)
    ⊎ ((ptable_is_set m vaddr ≡ false)
        × (table : ℕ) × ((pstack_pop m).0 ≡ some table)
        × TableMade (pstack_pop m).1 m' vaddr table)

-- a page table is missing, and there is no frame for it
abbrev pub NoTable : Memory → (vaddr : ℕ) → Type 0
NoTable m vaddr = (ptable_is_set m vaddr ≡ false) × ((pstack_pop m).0 ≡ none)

pub map_page-OnlyEntry :
    (m : Memory) (vaddr frame : ℕ) (usermode writable : Bool)
    → vaddr < 0xFFC00000
    → HasTable m vaddr
    → OnlyEntry m (map_page m vaddr frame usermode writable).1 vaddr
map_page-OnlyEntry m vaddr frame usermode writable low h =
    let flags = page_flags usermode writable in
    let (m', put, got, mapped, same, rest) = get_page-set_page m vaddr frame flags low h in
    rw put (same, λ t p. ground (arith, rest t p))

set_page_table-run :
    (m : Memory) (vaddr table : ℕ)
    → vaddr < 0xFFC00000
    → set_page_table m vaddr table 3 true ≡ record m {
      ptable = upd m.ptable (pde_num vaddr) (frame_of table + 3);
      entry =
          upd m.entry (pde_num vaddr) (λ i. if ltb i pde_max then 0 else m.entry (pde_num vaddr) i);
    }
unfolding set_page_table
set_page_table-run m vaddr table low =
    let out : (pde_num vaddr == self_table) ≡ false = ground arith in rw out refl

-- a new page table, and an entry of it
OnlyEntry-TableMade :
    (m made m' : Memory) (vaddr table : ℕ)
    → made ≡ record m {
      ptable = upd m.ptable (pde_num vaddr) (frame_of table + 3);
      entry =
          upd m.entry (pde_num vaddr) (λ i. if ltb i pde_max then 0 else m.entry (pde_num vaddr) i);
    }
    → OnlyEntry made m' vaddr
    → TableMade m m' vaddr table
OnlyEntry-TableMade m made m' vaddr table run (same, rest) =
    let tables : m'.ptable ≡ made.ptable = ap (λ (k : Memory). k.ptable) same in
    let tables' : made.ptable ≡ upd m.ptable (pde_num vaddr) (frame_of table + 3) =
      ap (λ (k : Memory). k.ptable) run in
    let entries : made.entry
        ≡ upd m.entry (pde_num vaddr)
            (λ i. if ltb i pde_max then 0 else m.entry (pde_num vaddr) i) =
      ap (λ (k : Memory). k.entry) run in
    (
      ground (arith, same, run),
      λ t. ap (λ (g : ℕ → ℕ). g t) (tables ∙ tables') ∙ ground arith,
      λ t p. rest t p ∙ ground (arith, ap (λ (g : ℕ → ℕ → ℕ). g t p) entries),
    )

pub map_page-TableMade :
    (m : Memory) (vaddr frame table : ℕ) (usermode writable : Bool)
    → vaddr < 0xFFC00000
    → TableMade m
        (map_page (set_page_table m vaddr table 3 true) vaddr frame usermode writable).1
        vaddr
        table
map_page-TableMade m vaddr frame table usermode writable low =
    let made = set_page_table m vaddr table 3 true in
    OnlyEntry-TableMade m made (map_page made vaddr frame usermode writable).1 vaddr table
      (set_page_table-run m vaddr table low)
      (map_page-OnlyEntry made vaddr frame usermode writable low
        (HasTable-set_page_table m vaddr table low))
