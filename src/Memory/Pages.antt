-- ===== src/Memory/Pages.antt =====
-- Pages on demand, of memory.c. Each function returns its code, 0 for success, and the state.
pub mod Placed
pub mod Allocate
pub mod Map
use elco_os.Base.{ℕ, ◌+◌, Bool, true, false, not, Option, none, some, if◌then◌else◌, ◌==◌}
use elco_os.Memory.Paging.{
  Memory, set_page, get_page, set_page_table, page_is_mapped, ptable_is_set,
}
use elco_os.Memory.FrameStack.{pstack_push, pstack_pop}

-- PTABLE_FLAG_PRESENT, with PTABLE_FLAG_USERMODE and PTABLE_FLAG_WRITE on request
abbrev pub page_flags : Bool → Bool → ℕ
page_flags usermode writable = 1 + (if usermode then 4 else 0) + (if writable then 2 else 0)

-- the end of both functions that map a page: a page table exists, the result of set_page is ignored
abbrev pub map_page : Memory → (vaddr frame : ℕ) → Bool → Bool → ℕ × Memory
map_page m vaddr frame usermode writable =
    (0, (set_page m vaddr frame (page_flags usermode writable)).1)

unfoldable pub memory_allocate_page : Memory → ℕ → Bool → Bool → ℕ × Memory
memory_allocate_page m vaddr usermode writable =
    if page_is_mapped m vaddr
    then (1, m)
    else (let (popped, m1) = pstack_pop m in
        elim popped [
          | none ↦ (1, m1)
          | some frame ↦
              if not (ptable_is_set m1 vaddr)
              then (let (popped2, m2) = pstack_pop m1 in
                  elim popped2 [
                    | none ↦ (1, (pstack_push m2 frame).1)
                    | some table ↦
                        map_page (set_page_table m2 vaddr table 3 true) vaddr frame usermode
                          writable
                  ])
              else map_page m1 vaddr frame usermode writable
        ])

unfoldable pub memory_free_page : Memory → ℕ → ℕ × Memory
memory_free_page m vaddr =
    if not (page_is_mapped m vaddr) then (1, m) else elim (get_page m vaddr) [
      | none ↦ (1, m)
      | some (frame, flags) ↦
          (let (code, m1) = set_page m vaddr 0 0 in
            if code == 0 then pstack_push m1 frame else (1, m1))
    ]

unfoldable pub memory_map_addr : Memory → (vaddr frame : ℕ) → Bool → Bool → ℕ × Memory
memory_map_addr m vaddr frame usermode writable =
    if page_is_mapped m vaddr
    then (1, m)
    else if not (ptable_is_set m vaddr)
    then (let (popped, m1) = pstack_pop m in
        elim popped [
          | none ↦ (1, m1)
          | some table ↦
              map_page (set_page_table m1 vaddr table 3 true) vaddr frame usermode writable
        ])
    else map_page m vaddr frame usermode writable

unfoldable pub memory_unmap_addr : Memory → ℕ → ℕ × Memory
memory_unmap_addr m vaddr = if not (page_is_mapped m vaddr) then (1, m) else set_page m vaddr 0 0
