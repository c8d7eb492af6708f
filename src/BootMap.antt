-- ===== src/BootMap.antt =====
-- get_mmap of system/kernel/main.c: the memory map of the boot loader is turned into a sorted map of
-- regions that do not overlap. The boot map is the list of its entries; a pointer to an entry is its
-- place in that list, and the place behind the last entry is the kernel's own area, `dummy`. The test
-- that the boot loader gave a map, with its kpanic, is not modelled: the map is an argument.
pub mod Sort
pub mod Regions
pub mod Balance
pub mod Build
mod Tests
use elco_os.Base.{
  ℕ, zero, suc, ◌+◌, ◌-◌, ◌*◌, ◌%◌, ◌^◌, Bool, true, false, ◌&&◌, ◌||◌, not, Option, none, some,
  ◌>>=◌, List, [], ◌∷◌, ◌++◌, length, get_or, last_or, if◌then◌else◌, ◌==◌, ltb, leb,
}
use elco_os.Memory.Start.{MemEntry}

-- struct multiboot_mmap_entry
pub record MmapEntry : Type 0 where
  pub addr_low : ℕ
  pub addr_high : ℕ
  pub len_low : ℕ
  pub len_high : ℕ
  pub kind : ℕ

-- struct change_point
pub record ChangePoint : Type 0 where
  pub addr : ℕ
  pub entry : ℕ

abbrev pub max_boot_mmap_size : ℕ
max_boot_mmap_size = 128

abbrev pub max_mmap_size : ℕ
max_mmap_size = max_boot_mmap_size + 2

-- PHYS_BYTES_MAX, and MMAP_TYPE_KERNEL
abbrev pub uint32_max : ℕ
uint32_max = 2 ^ 32 - 1

-- where an entry ends, at most at the end of the 32-bit space
abbrev pub end_of : MmapEntry → ℕ
end_of e =
    let past = (e.addr_low + e.len_low) % 2 ^ 32 in
    if ltb 0 e.len_high then uint32_max else if ltb past e.addr_low then uint32_max else past

-- The first loop, from entry `i` on with `chxcount` changes; `none` is kpanic.
unfoldable pub collect : List MmapEntry → (i chxcount : ℕ) → Option (List ChangePoint)
collect [] i chxcount = some []
collect (e ∷ es) i chxcount =
    let taken = e.addr_high == 0 in
    let count = if taken then chxcount + 2 else chxcount in
    let rest = collect es (i + 1) count in
    let start : ChangePoint = record { addr = e.addr_low; entry = i } in
    let stop : ChangePoint = record { addr = end_of e; entry = i } in
    if ltb max_boot_mmap_size count
    then none
    else (rest >>= λ cs. some (if taken then start ∷ stop ∷ cs else cs))

-- `changes[i]->addr == changes[i]->entry->addr_low`
abbrev pub is_start : (ℕ → MmapEntry) → ChangePoint → Bool
is_start at c = c.addr == (at c.entry).addr_low

-- the test of the sort: `c` is changes[i] and `p` is changes[i-1]
abbrev pub out_of_order : (ℕ → MmapEntry) → (c p : ChangePoint) → Bool
out_of_order at c p =
    ltb c.addr p.addr || ((c.addr == p.addr) && is_start at c && not (is_start at p))

-- One round of the loop over i with changes[i-1] in hand: the changes, and is_changing.
unfoldable pub sort_round :
    (ℕ → MmapEntry) → ChangePoint → List ChangePoint → List ChangePoint × Bool
sort_round at p [] = (p ∷ [], false)
sort_round at p (c ∷ cs) =
    let swap = out_of_order at c p in
    let rest = sort_round at (if swap then p else c) cs in
    ((if swap then c else p) ∷ rest.0, swap || rest.1)

-- the loop `while (is_changing)`
unfoldable pub sort_changes : ℕ → (ℕ → MmapEntry) → List ChangePoint → Option (List ChangePoint)
sort_changes zero at cs = none
sort_changes (suc fuel) at [] = some []
sort_changes (suc fuel) at (p ∷ cs) =
    let round = sort_round at p cs in
    let again = sort_changes fuel at round.0 in if round.1 then again else some round.0

-- the overlap list without its last entry
abbrev pub drop_last : List ℕ → List ℕ
drop_last [] = []
drop_last (x ∷ []) = []
drop_last (x ∷ y ∷ ys) = x ∷ drop_last (y ∷ ys)

-- the last entry takes the place of the first `e`
abbrev pub replace_by : (e last : ℕ) → List ℕ → List ℕ
replace_by e last [] = []
replace_by e last (x ∷ xs) = if x == e then last ∷ xs else x ∷ replace_by e last xs

-- The end of an entry: `none` where overlap_count would fall below 0.
abbrev pub leave : (e : ℕ) → List ℕ → Option (List ℕ)
leave e [] = none
leave e (x ∷ xs) = some (drop_last (replace_by e (last_or x xs) (x ∷ xs)))

-- the overruling type
abbrev pub overruling : (ℕ → MmapEntry) → List ℕ → ℕ
overruling at [] = 0
overruling at (e ∷ es) =
    let rest = overruling at es in if ltb rest (at e).kind then (at e).kind else rest

-- The variables of the last loop. `mmap` has the regions up to mmap_id, the newest first; the region
-- that is open begins at last_addr.
pub record Sweep : Type 0 where
  pub overlap : List ℕ
  pub mmap : List MemEntry
  pub last_addr : ℕ
  pub last_type : ℕ

-- The open region is closed at `addr`, unless it is empty.
abbrev pub close : (addr : ℕ) → Sweep → List MemEntry
close addr s =
    let size = (addr + 2 ^ 32 - s.last_addr) % 2 ^ 32 in
    if s.last_type == 0
    then s.mmap
    else if size == 0
    then s.mmap
    else record { address = s.last_addr; size = size; kind = s.last_type } ∷ s.mmap

-- A change of the type at `addr`, and whether the loop goes on: it breaks where a region was added
-- and the map is full.
unfoldable pub update_map : (addr cur_type : ℕ) → Sweep → Sweep × Bool
update_map addr cur_type s =
    let mmap = close addr s in
    let full = not (length mmap == length s.mmap) && leb max_mmap_size (length mmap) in
    if cur_type == s.last_type
    then (s, true)
    else if full
    then (record s { mmap = mmap }, false)
    else if cur_type == 0
    then (record s { mmap = mmap; last_type = 0 }, true)
    else (record s { mmap = mmap; last_addr = addr; last_type = cur_type }, true)

unfoldable pub sweep_change : (ℕ → MmapEntry) → ChangePoint → Sweep → Option (Sweep × Bool)
sweep_change at c s =
    let overlap =
      if is_start at c then some (s.overlap ++ c.entry ∷ []) else leave c.entry s.overlap in
    overlap >>= λ o. some (update_map c.addr (overruling at o) (record s { overlap = o }))

unfoldable pub sweep : (ℕ → MmapEntry) → List ChangePoint → Sweep → Option Sweep
sweep at [] s = some s
sweep at (c ∷ cs) s =
    sweep_change at c s >>= λ r. (let rest = sweep at cs r.0 in if r.1 then rest else some r.0)

-- the entries of the boot map, and the kernel's area behind them
abbrev pub boot_entry : List MmapEntry → MmapEntry → ℕ → MmapEntry
boot_entry es dummy i = get_or es i dummy

-- `dummy` for the kernel between two addresses
abbrev pub kernel_area : (kernel_start_phys kernel_end_phys : ℕ) → MmapEntry
kernel_area kernel_start_phys kernel_end_phys = record {
  addr_high = 0;
  addr_low = kernel_start_phys;
  len_high = 0;
  len_low = (kernel_end_phys + 2 ^ 32 - kernel_start_phys) % 2 ^ 32;
  kind = uint32_max;
}

-- the changes of the boot map and of the kernel's area
unfoldable pub changes :
    List MmapEntry → (kernel_start_phys kernel_end_phys : ℕ) → Option (List ChangePoint)
changes es kernel_start_phys kernel_end_phys =
    let start : ChangePoint = record { addr = kernel_start_phys; entry = length es } in
    let stop : ChangePoint = record { addr = kernel_end_phys; entry = length es } in
    collect es 0 0 >>= λ cs. some (cs ++ start ∷ stop ∷ [])

-- The sort runs on fuel for every swap. The result is kinfo.mmap, the last region first.
unfoldable pub get_mmap :
    List MmapEntry → (kernel_start_phys kernel_end_phys : ℕ) → Option (List MemEntry)
get_mmap es kernel_start_phys kernel_end_phys =
    let at = boot_entry es (kernel_area kernel_start_phys kernel_end_phys) in
    let s : Sweep = record { overlap = []; mmap = []; last_addr = 0; last_type = 0 } in
    changes es kernel_start_phys kernel_end_phys >>= λ cs.
    sort_changes (suc (length cs * length cs)) at cs >>= λ ds. sweep at ds s >>= λ s'. some s'.mmap
