-- ===== src/Memory/Paging.antt =====
-- The page directory and page tables of memory.c. Addresses are 32-bit words. Flags and frame
-- addresses occupy different bits of an entry, so `frame | flags` is their sum, `x & 0xFFF` is
-- x % 4096, and `x & ~0xFFF` is x - x % 4096. Flushing the TLB has no counterpart.
pub mod RoundTrip
use elco_os.Base.{
  ℕ, ◌+◌, ◌-◌, ◌*◌, ◌/◌, ◌%◌, ◌^◌, Bool, true, false, ◌&&◌, ◌||◌, not, Option, none, some,
  if◌then◌else◌, ◌==◌, ltb, upd,
}

abbrev pub page_size : ℕ
page_size = 4096

abbrev pub pde_max : ℕ
pde_max = 1024

-- The tables are mapped recursively: entry 1023 of the directory is the directory, so the page
-- table at KERNEL_PTABLE_ADDR + 1023 pages is the directory at KERNEL_PDE_ADDR.
abbrev pub self_table : ℕ
self_table = 1023

-- The variables of memory.c: `ptable` are the entries of the directory, `entry t p` is entry `p` of
-- page table `t`, and `word` the memory of the stack of free frames, by address.
pub record Memory : Type 0 where
  pub ptable : ℕ → ℕ
  pub entry : ℕ → ℕ → ℕ
  pub word : ℕ → ℕ
  pub pstack_pointer : ℕ
  pub heap_addr : ℕ
  pub heap_size : ℕ

-- kernel_page_tables[table].entry[page]
unfoldable pub read_entry : Memory → ℕ → ℕ → ℕ
read_entry m table page = if table == self_table then m.ptable page else m.entry table page

unfoldable pub write_entry : Memory → ℕ → ℕ → ℕ → Memory
write_entry m table page e =
    if table == self_table
    then record m { ptable = upd m.ptable page e }
    else record m { entry = upd m.entry table (upd (m.entry table) page e) }

-- PTABLE_PDE_NUM and PTABLE_PTE_NUM
abbrev pub pde_num : ℕ → ℕ
pde_num addr = addr / 2 ^ 22

abbrev pub pte_num : ℕ → ℕ
pte_num addr = addr % 2 ^ 22 / 2 ^ 12

-- tests of PTABLE_FLAG_PRESENT and PTABLE_FLAG_LARGEPAGE
abbrev pub present : ℕ → Bool
present e = e % 2 == 1

abbrev pub large : ℕ → Bool
large e = e / 128 % 2 == 1

abbrev pub flags_of : ℕ → ℕ
flags_of e = e % page_size

abbrev pub frame_of : ℕ → ℕ
frame_of e = e - e % page_size

-- The result is the code that the function returns.
unfoldable pub set_page : Memory → (vaddr frame flags : ℕ) → ℕ × Memory
set_page m vaddr frame flags =
    let table = pde_num vaddr in
    if not (present (m.ptable table)) || large (m.ptable table)
    then (1, m)
    else (0, write_entry m table (pte_num vaddr) (frame_of frame + flags_of flags))

-- `none` for the code 1; else the frame and the flags
unfoldable pub get_page : Memory → ℕ → Option (ℕ × ℕ)
get_page m vaddr =
    let table = pde_num vaddr in
    if not (present (m.ptable table)) || large (m.ptable table)
    then none
    else some (
      frame_of (read_entry m table (pte_num vaddr)),
      flags_of (read_entry m table (pte_num vaddr)),
    )

-- the loop that clears every entry of a page table
abbrev pub clear_table : Memory → ℕ → Memory
clear_table m table =
    if table == self_table
    then record m { ptable = λ i. if ltb i pde_max then 0 else m.ptable i }
    else record m { entry = upd m.entry table (λ i. if ltb i pde_max then 0 else m.entry table i) }

unfoldable pub set_page_table : Memory → (vaddr table flags : ℕ) → Bool → Memory
set_page_table m vaddr table flags clear =
    let vclick = pde_num vaddr in
    let m1 = record m { ptable = upd m.ptable vclick (frame_of table + flags_of flags) } in
    if clear then clear_table m1 vclick else m1

unfoldable pub page_is_mapped : Memory → ℕ → Bool
page_is_mapped m vaddr =
    let pde = pde_num vaddr in
    if not (present (m.ptable pde))
    then false
    else if large (m.ptable pde)
    then true
    else present (read_entry m pde (pte_num vaddr))

unfoldable pub ptable_is_set : Memory → ℕ → Bool
ptable_is_set m vaddr =
    let pde = pde_num vaddr in if large (m.ptable pde) then false else present (m.ptable pde)
