-- ===== src/BootMap/Tests.antt =====
-- The theorems on get_mmap at a boot map of low memory, a reserved area and high memory, with the kernel
-- at the start of the latter.
use elco_os.Base.{ℕ, ◌≡◌, ◌^◌, refl, some, Bool, List, [], ◌∷◌, arith}
use elco_os.Memory.Start.{MemEntry}
use elco_os.BootMap.{
  MmapEntry, ChangePoint, kernel_area, boot_entry, sort_changes, sort_round, collect, changes,
  sweep, sweep_change, update_map, get_mmap,
}
use elco_os.BootMap.Sort.{Sorted, tally, sort_changes-Sorted}
use elco_os.BootMap.Regions.{Stacked}
use elco_os.BootMap.Build.{get_mmap-Stacked}

abbrev area : (start size kind : ℕ) → MmapEntry
area start size kind = record {
  addr_low = start;
  addr_high = 0;
  len_low = size;
  len_high = 0;
  kind = kind;
}

abbrev boot_map : List MmapEntry
boot_map = area 0x100000 0x700000 1 ∷ area 0 0x9FC00 1 ∷ area 0x9FC00 0x400 2 ∷ []

abbrev at_place : ℕ → MmapEntry
at_place = boot_entry boot_map (kernel_area 0x100000 0x140000)

abbrev two_changes : List ChangePoint
two_changes = record { addr = 0x800000; entry = 0 } ∷ record { addr = 0; entry = 1 } ∷ []

sort_changes-Sorted_example :
    (ds : List ChangePoint) × (sort_changes 5 at_place two_changes ≡ some ds)
    × Sorted at_place ds
    × ((test : ChangePoint → Bool) → tally at_place test ds ≡ tally at_place test two_changes)
sort_changes-Sorted_example = sort_changes-Sorted at_place 5 two_changes (omega arith)

get_mmap-Stacked_example :
    (rs : List MemEntry) × (get_mmap boot_map 0x100000 0x140000 ≡ some rs) × Stacked (2 ^ 32) rs
get_mmap-Stacked_example =
    get_mmap-Stacked boot_map 0x100000 0x140000 (omega arith)
      (omega arith, (omega arith, (omega arith, tt))) (omega arith) (omega arith)

abbrev region : (start size kind : ℕ) → MemEntry
region start size kind = record { address = start; size = size; kind = kind }

get_mmap_regions :
    get_mmap boot_map 0x100000 0x140000
    ≡ some (
        region 0x140000 0x6C0000 1
        ∷ region 0x100000 0x40000 4294967295
        ∷ region 0x9FC00 0x400 2
        ∷ region 0 0x9FC00 1
        ∷ [])
unfolding get_mmap changes collect sort_changes sort_round sweep sweep_change update_map
get_mmap_regions = refl
