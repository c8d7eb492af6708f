-- ===== src/Kmalloc/Api.antt =====
-- kmalloc.c, kfree.c, krealloc.c and kcalloc.c. `none` stands for what C leaves undefined, a bin
-- beyond the last one among it, and for a tree with more levels than a size has bits.
pub mod Refusal
use elco_os.Base.{
  ℕ, ◌+◌, ◌-◌, ◌*◌, ◌%◌, ◌^◌, Bool, true, false, ◌&&◌, ◌||◌, not, Option, none, some, ◌>>=◌,
  if◌then◌else◌, ◌==◌, ltb, leb,
}
use elco_os.Kstring.Memory.{kmemcpy, kmemset}
use elco_os.Kmalloc.Chunk.{
  Arena, min_chunk_size, min_large_size, bins, is_inuse, prev_inuse, get_chunk_size, next_chunk,
  prev_chunk, payload_chunk, request2size, request_overflow, is_init, address_ok, set_header,
}
use elco_os.Kmalloc.Tree.{kmalloc_tree_get_smallest, kmalloc_tree_get_best_fit}
use elco_os.Kmalloc.Bins.{
  calc_tbin, calc_leftbin, tbin_depth, small_index, is_empty_map, shift_map, unbin_chunk,
  allocate_sbin, split_sbin, allocate_tchunk, allocate_smallest_tbin,
}
use elco_os.Kmalloc.Top.{split_top, allocate_dv}
use elco_os.Kmalloc.Merge.{merge_free_chunks, try_expand_chunk, resized}

-- kmalloc_intern for a small chunk: the payload, NULL where the bins do not serve
unfoldable pub from_small_bins : Arena → (chunksize : ℕ) → Option (ℕ × Arena)
from_small_bins a chunksize =
    let index = small_index chunksize in
    let bits = shift_map a.sbinmap index in
    if bits 0 || bits 1
    then some (allocate_sbin a (if bits 0 then index else index + 1))
    else if leb chunksize a.d_victim_size
    then some (0, a)
    else if not (is_empty_map (λ i. bits (i + 2)))
    then some (split_sbin a (index + 2 + calc_leftbin (λ i. bits (i + 2))) chunksize)
    else if not (is_empty_map a.tbinmap)
    then allocate_smallest_tbin a chunksize
    else some (0, a)

-- the next larger tree bin with a chunk, from `index` on
unfoldable pub from_larger_bins : Arena → (chunksize index : ℕ) → Option (ℕ × Arena)
from_larger_bins a chunksize index =
    let bits = shift_map a.tbinmap index in
    let bin = index + calc_leftbin bits in
    if is_empty_map bits
    then some (0, a)
    else if ltb (calc_tbin a.d_victim_size) bin && leb chunksize a.d_victim_size
    then some (0, a)
    else if leb bins bin
    then none
    else (do
      chunk ← kmalloc_tree_get_smallest a (a.tbin bin)
      if ltb a.d_victim_size chunksize || ltb (get_chunk_size a chunk) a.d_victim_size
          then allocate_tchunk a chunk chunksize
          else some (0, a))

-- kmalloc_intern for a large chunk
unfoldable pub from_tree_bins : Arena → (chunksize : ℕ) → Option (ℕ × Arena)
from_tree_bins a chunksize = do
  let index = calc_tbin chunksize
  chunk ← kmalloc_tree_get_best_fit a chunksize (a.tbin index) (tbin_depth index)
  if chunk == 0
      then from_larger_bins a chunksize (index + 1)
      else if ltb a.d_victim_size chunksize || leb (get_chunk_size a chunk) a.d_victim_size
      then allocate_tchunk a chunk chunksize
      else some (0, a)

-- The bins did not serve: the designated victim, or the top chunk.
unfoldable pub from_victim_or_top : Arena → (chunksize : ℕ) → (allow_expand : Bool) → ℕ × Arena
from_victim_or_top a chunksize allow_expand =
    if leb chunksize a.d_victim_size
    then allocate_dv a chunksize
    else split_top a chunksize allow_expand

unfoldable pub kmalloc_intern : Arena → (chunksize : ℕ) → (allow_expand : Bool) → Option (ℕ × Arena)
kmalloc_intern a chunksize allow_expand = do
  (result, a1) ←
      if ltb chunksize min_large_size
      then from_small_bins a chunksize
      else from_tree_bins a chunksize
  some (if result == 0 then from_victim_or_top a1 chunksize allow_expand else (result, a1))

unfoldable pub kmalloc : Arena → (size : ℕ) → Option (ℕ × Arena)
kmalloc a size =
    if not (is_init a)
    then some (0, a)
    else if request_overflow size
    then some (0, a)
    else kmalloc_intern a (request2size size) true

-- ACTION_ABORT()
abbrev pub abort : Arena → Arena
abort a = record a { aborted = true }

-- the end of kfree: `freeptr` is free for `freesize` bytes, and `next` follows
unfoldable pub free_up_to : Arena → (freeptr freesize next : ℕ) → Option Arena
free_up_to a freeptr freesize next =
    if address_ok a next then merge_free_chunks a freeptr freesize next else some (abort a)

-- kfree where the chunk before is free
unfoldable pub free_with_prev : Arena → (chunk : ℕ) → Option Arena
free_with_prev a chunk =
    let csize = a.prev_foot chunk in
    let prev = prev_chunk a chunk in
    let freesize = get_chunk_size a chunk + csize in
    let next = next_chunk a chunk in
    if not (address_ok a prev) || not (get_chunk_size a prev == csize) || is_inuse a prev
    then some (abort a)
    else if a.d_victim == prev
    then free_up_to a prev freesize next
    else (unbin_chunk a prev >>= λ a1. free_up_to a1 prev freesize next)

unfoldable pub kfree : Arena → (ptr : ℕ) → Option Arena
kfree a ptr =
    let chunk = payload_chunk ptr in
    if (ptr == 0) || not (is_init a)
    then some a
    else if not (address_ok a chunk) || not (is_inuse a chunk)
    then some (abort a)
    else if prev_inuse a chunk
    then free_up_to a chunk (get_chunk_size a chunk) (next_chunk a chunk)
    else free_with_prev a chunk

-- krealloc to a smaller chunk: `ptr` stays
unfoldable pub shrink_chunk : Arena → (ptr new_size : ℕ) → Option (ℕ × Arena)
shrink_chunk a ptr new_size =
    let chunk = payload_chunk ptr in
    let next = next_chunk a chunk in
    let diff = get_chunk_size a chunk - new_size in
    if ltb diff min_chunk_size && is_inuse a next
    then some (ptr, a)
    else (let a1 = set_header a chunk (resized a chunk new_size) in
        merge_free_chunks a1 (next_chunk a1 chunk) diff next >>= λ a2. some (ptr, a2))

-- krealloc to a larger chunk: in place, or by a copy of the payload of `old_capacity` bytes
unfoldable pub enlarge_chunk : Arena → (ptr new_size old_capacity : ℕ) → Option (ℕ × Arena)
enlarge_chunk a ptr new_size old_capacity = do
  (expanded, a1) ← try_expand_chunk a (payload_chunk ptr) new_size
  if expanded then some (ptr, a1) else (do
    (new_location, a2) ← kmalloc_intern a1 new_size true
    if new_location == 0 then some (0, a2) else (do
      a3 ← kfree (record a2 { bytes = kmemcpy a2.bytes new_location ptr old_capacity }) ptr
      some (new_location, a3)))

-- krealloc of a chunk in use, once its sanity checks are passed
unfoldable pub resize_chunk : Arena → (ptr req_size : ℕ) → Option (ℕ × Arena)
resize_chunk a ptr req_size =
    let cur_size = get_chunk_size a (payload_chunk ptr) in
    let new_size = request2size req_size in
    if new_size == cur_size
    then some (ptr, a)
    else if ltb new_size cur_size
    then shrink_chunk a ptr new_size
    else enlarge_chunk a ptr new_size (cur_size - 4)

unfoldable pub krealloc : Arena → (ptr req_size : ℕ) → Option (ℕ × Arena)
krealloc a ptr req_size =
    let chunk = payload_chunk ptr in
    if ptr == 0
    then kmalloc a req_size
    else if req_size == 0
    then (kfree a ptr >>= λ a1. some (0, a1))
    else if not (is_init a)
    then some (0, a)
    else if not (address_ok a chunk) || not (is_inuse a chunk)
    then some (0, abort a)
    else if not (address_ok a (next_chunk a chunk))
    then some (0, abort a)
    else resize_chunk a ptr req_size

unfoldable pub kcalloc : Arena → (nmemb size : ℕ) → Option (ℕ × Arena)
kcalloc a nmemb size = do
  let msize = size * nmemb % 2 ^ 32
  (ptr, a1) ← kmalloc a msize
  some (ptr, if ptr == 0 then a1 else record a1 { bytes = kmemset a1.bytes ptr 0 msize })
