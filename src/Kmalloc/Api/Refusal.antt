-- ===== src/Kmalloc/Api/Refusal.antt =====
-- What the entries of the allocator refuse.
use elco_os.Base.{ℕ, ◌≡◌, ◌≢◌, ◌<◌, ◌⊎◌, refl, Bool, true, false, none, some, arith, ltb}
use elco_os.Kmalloc.Chunk.{Arena, is_inuse, payload_chunk, is_init, address_ok}
use elco_os.Kmalloc.Bins.{shift_map, is_empty_map, lowest_bit, calc_tbin, calc_leftbin}
use elco_os.Kmalloc.Bins.Index.{lowest_bit-cong}
use elco_os.Kmalloc.Tree.{kmalloc_tree_get_best_fit}
use elco_os.Kmalloc.Api.{from_larger_bins, from_tree_bins, kmalloc_intern, kfree, krealloc, abort}

-- A pointer that is not the payload of a chunk in use inside the heap is refused by kfree and by
-- krealloc alike: abort is called, the allocator is left as it is, and krealloc returns NULL.
pub kfree-krealloc-abort :
    (a : Arena) (ptr req_size : ℕ)
    → ptr ≢ 0
    → is_init a ≡ true
    → (address_ok a (payload_chunk ptr) ≡ false) ⊎ (is_inuse a (payload_chunk ptr) ≡ false)
    → (kfree a ptr ≡ some (abort a)) × (krealloc a ptr req_size ≡ some (0, abort a))
unfolding kfree krealloc
kfree-krealloc-abort a ptr req_size nz init bad = (ground arith, ground arith)

shift_map_lem : (map : ℕ → Bool) (j : ℕ) → j < 32 → shift_map map 32 j ≡ map j
shift_map_lem map j lt = ground arith

-- the shift by 32 leaves the map as it is
shift_by_32 : (map : ℕ → Bool) → is_empty_map map ≡ false → is_empty_map (shift_map map 32) ≡ false
unfolding is_empty_map
shift_by_32 map some_bit =
    let same : lowest_bit 32 0 (shift_map map 32) ≡ lowest_bit 32 0 map =
      lowest_bit-cong 32 0 (shift_map map 32) map (λ j lo hi. shift_map_lem map j hi) in
    rw same some_bit

larger-beyond :
    (a : Arena) (chunksize : ℕ)
    → is_empty_map a.tbinmap ≡ false
    → a.d_victim_size < chunksize
    → from_larger_bins a chunksize 32 ≡ none
unfolding from_larger_bins calc_leftbin
larger-beyond a chunksize some_bit lt =
    let bits : is_empty_map (shift_map a.tbinmap 32) ≡ false = shift_by_32 a.tbinmap some_bit in
    ground arith

calc_tbin-last : (size : ℕ) → 0xFFFF00 < size → calc_tbin size ≡ 31
unfolding calc_tbin
calc_tbin-last size big = ground arith

-- Where the last tree bin is empty and any other one is not, a chunk of the last bin that the
-- designated victim cannot give is looked for in a bin beyond the last one.
pub kmalloc_intern-beyond :
    (a : Arena) (chunksize : ℕ) (allow_expand : Bool)
    → 0xFFFF00 < chunksize
    → a.tbin 31 ≡ 0
    → is_empty_map a.tbinmap ≡ false
    → a.d_victim_size < chunksize
    → kmalloc_intern a chunksize allow_expand ≡ none
unfolding kmalloc_intern from_tree_bins kmalloc_tree_get_best_fit
kmalloc_intern-beyond a chunksize allow_expand big empty some_bit lt =
    let bits : from_larger_bins a chunksize 32 ≡ none = larger-beyond a chunksize some_bit lt in
    let bin = calc_tbin-last chunksize big in
    let large : ltb chunksize 256 ≡ false = ground arith in
    rw large (rw bin (rw empty (rw bits refl)))
