-- ===== src/Memory/HeapGrowth.antt =====
-- heap_callback of memory.c: the kernel heap grows and shrinks by whole pages. Addresses and sizes
-- are 32-bit patterns, and so is the signed difference; the wrap-around is written out.
pub mod Bounds
pub mod Answer
use elco_os.Base.{
  ℕ, zero, suc, ◌+◌, ◌-◌, ◌/◌, ◌%◌, ◌^◌, Bool, true, false, Option, none, some, ◌>>=◌,
  if◌then◌else◌, ◌==◌, ltb, leb,
}
use elco_os.Memory.Paging.{Memory, page_size}
use elco_os.Memory.Pages.{memory_allocate_page, memory_free_page}

abbrev pub kernel_initial_heap_size : ℕ
kernel_initial_heap_size = 8192

abbrev pub kernel_heap_limit : ℕ
kernel_heap_limit = 0xFF800000

-- (void *) -1
abbrev pub refused : ℕ
refused = 2 ^ 32 - 1

-- PAGE_FLOOR of the address before `addr`: the last page of what ends at `addr`
abbrev pub last_page : ℕ → ℕ
last_page addr = let a = (addr + 2 ^ 32 - 1) % 2 ^ 32 in a - a % page_size

-- `for (…; page > stop; page -= PAGE_SIZE) memory_free_page(page);`
unfoldable pub free_down : ℕ → Memory → (page stop : ℕ) → Option Memory
free_down zero m page stop = none
free_down (suc fuel) m page stop =
    let rest =
      free_down fuel (memory_free_page m page).1 ((page + 2 ^ 32 - page_size) % 2 ^ 32) stop in
    if ltb stop page then rest else some m

-- the loop that allocates: whether an allocation failed, and the page it ended at
unfoldable pub allocate_up : ℕ → Memory → (page stop : ℕ) → Option (Bool × ℕ × Memory)
allocate_up zero m page stop = none
allocate_up (suc fuel) m page stop =
    let (code, m') = memory_allocate_page m page false true in
    let rest = allocate_up fuel m' ((page + page_size) % 2 ^ 32) stop in
    if leb page stop
    then (if code == 0 then rest else some (true, page, m'))
    else some (false, page, m)

-- The loops run over pages of one address space: a round for each page below the first one, or up
-- to the last one, and one more is enough.
unfoldable pub shrink_heap : Memory → (heap_end amount : ℕ) → Option (ℕ × Memory)
shrink_heap m heap_end amount =
    let page = last_page heap_end in
    if ltb heap_end amount
    then some (refused, m)
    else if ltb ((m.heap_size + 2 ^ 32 - amount) % 2 ^ 32) kernel_initial_heap_size
    then some (refused, m)
    else (do
      m1 ← free_down (suc (page / page_size)) m page (last_page (heap_end - amount))
      some (0, record m1 { heap_size = (m1.heap_size + 2 ^ 32 - amount) % 2 ^ 32 }))

-- the end of the growth: the rollback, or the new size
unfoldable pub settle : Memory → (cur_end_page amount page : ℕ) → Bool → Option (ℕ × Memory)
settle m cur_end_page amount page alloc_error =
    if alloc_error
    then (do
      m1 ← free_down (suc (page / page_size)) m ((page + 2 ^ 32 - page_size) % 2 ^ 32) cur_end_page
      some (refused, m1))
    else some (0, record m { heap_size = (m.heap_size + amount) % 2 ^ 32 })

unfoldable pub grow_heap : Memory → (heap_end amount : ℕ) → Option (ℕ × Memory)
grow_heap m heap_end amount =
    let new_end = (heap_end + amount) % 2 ^ 32 in
    let cur_end_page = last_page heap_end in
    if leb kernel_heap_limit new_end
    then some (refused, m)
    else if ltb new_end heap_end
    then some (refused, m)
    else (do
      (alloc_error, page, m1) ←
          allocate_up (suc (suc (last_page new_end / page_size))) m
            ((cur_end_page + page_size) % 2 ^ 32) (last_page new_end)
      settle m1 cur_end_page amount page alloc_error)

unfoldable pub heap_callback : Memory → (difference : ℕ) → Option (ℕ × Memory)
heap_callback m difference =
    let heap_end = (m.heap_addr + m.heap_size) % 2 ^ 32 in
    if difference == 0
    then some (0, m)
    else if leb (2 ^ 31) difference
    then shrink_heap m heap_end (2 ^ 32 - difference)
    else grow_heap m heap_end difference
