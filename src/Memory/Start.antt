-- ===== src/Memory/Start.antt =====
-- memory_init of memory.c: the free frames of the memory map go onto the stack of free frames, the
-- kernel heap gets its first pages and the allocator, and the identity mapping of the start is
-- removed. `none` stands for kpanic, and for a loop that runs out of fuel.
pub mod Frames
use elco_os.Base.{
  ℕ, zero, suc, ◌+◌, ◌-◌, ◌/◌, ◌%◌, ◌^◌, Bool, true, false, not, Option, none, some, ◌>>=◌, List,
  [], ◌∷◌, if◌then◌else◌, ◌==◌, ltb, upd,
}
use elco_os.Memory.Paging.{Memory, page_size, pde_num}
use elco_os.Memory.FrameStack.{pstack_push, pstack_top}
use elco_os.Memory.Pages.{memory_allocate_page}
use elco_os.Kmalloc.Chunk.{Arena}
use elco_os.Kmalloc.Top.{kmalloc_init}

-- struct mem_entry; MMAP_TYPE_FREE is the type 1
pub record MemEntry : Type 0 where
  pub address : ℕ
  pub size : ℕ
  pub kind : ℕ

-- PAGE_ALIGN and PAGE_FLOOR
abbrev pub page_align : ℕ → ℕ
page_align x = let y = (x + 4095) % 2 ^ 32 in y - y % 4096

abbrev pub page_floor : ℕ → ℕ
page_floor x = x - x % 4096

-- a round for each page of the address space, and one to see the end
abbrev pub frame_rounds : ℕ
frame_rounds = 2 ^ 20 + 1

unfoldable pub frame_loop : ℕ → Memory → (frame end : ℕ) → Option Memory
frame_loop zero m frame end = none
frame_loop (suc fuel) m frame end =
    let rest = frame_loop fuel (pstack_push m frame).1 ((frame + page_size) % 2 ^ 32) end in
    if ltb frame end then rest else some m

unfoldable pub push_entry : Memory → MemEntry → Option Memory
push_entry m e =
    if not (e.kind == 1)
    then some m
    else frame_loop frame_rounds m (page_align e.address)
        (page_floor ((e.address + e.size) % 2 ^ 32))

unfoldable pub push_entries : Memory → List MemEntry → Option Memory
push_entries m [] = some m
push_entries m (e ∷ es) = push_entry m e >>= λ m1. push_entries m1 es

abbrev pub kernel_initial_heap_size : ℕ
kernel_initial_heap_size = 8192

-- `pages` pages from `vaddr` on are allocated
unfoldable pub heap_pages : (pages : ℕ) → Memory → (vaddr : ℕ) → Option Memory
heap_pages zero m vaddr = some m
heap_pages (suc pages) m vaddr =
    let (code, m1) = memory_allocate_page m vaddr false true in
    let rest = heap_pages pages m1 ((vaddr + page_size) % 2 ^ 32) in
    if code == 0 then rest else none

-- `mmap` is kinfo.mmap up to kinfo.mmap_size
unfoldable pub memory_init :
    Memory
    → Arena
    → (mmap : List MemEntry) → (kernel_start_vir kernel_end_vir : ℕ) → Option (Memory × Arena)
memory_init m a mmap kernel_start_vir kernel_end_vir = do
  m1 ← push_entries (record m { pstack_pointer = pstack_top }) mmap
  let m2 = record m1 { heap_addr = kernel_end_vir; heap_size = kernel_initial_heap_size }
  m3 ← heap_pages (kernel_initial_heap_size / page_size) m2 kernel_end_vir
  some (
    record m3 { ptable = λ i. if ltb i (pde_num kernel_start_vir) then 0 else m3.ptable i },
    kmalloc_init a kernel_end_vir kernel_initial_heap_size,
  )
