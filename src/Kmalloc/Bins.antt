-- ===== src/Kmalloc/Bins.antt =====
-- kmalloc_util.c and kmalloc_util.h: which bin a size belongs to, and chunks entering and leaving
-- the bins.
pub mod Index
use elco_os.Base.{
  ℕ, zero, suc, ◌+◌, ◌-◌, ◌*◌, ◌/◌, ◌%◌, ◌^◌, Bool, true, false, ◌&&◌, not, Option, none, some,
  ◌>>=◌, if◌then◌else◌, ◌==◌, ltb, leb, upd,
}
use elco_os.Kmalloc.Chunk.{
  Arena, min_chunk_size, min_large_size, get_chunk_size, next_chunk, chunk_payload, set_pinuse,
  set_cinuse, set_header, set_prev_foot, sub32,
}
use elco_os.Kmalloc.Dllist.{kmalloc_dllist_add, kmalloc_dllist_remove, kmalloc_dllist_remove_intern}
use elco_os.Kmalloc.Tree.{kmalloc_tree_insert, kmalloc_tree_remove, kmalloc_tree_get_smallest}

-- 31 - __builtin_clz(size): the highest set bit, at most `k`
unfoldable pub highest_bit : (k size : ℕ) → ℕ
highest_bit zero size = 0
highest_bit (suc k) size =
    let rest = highest_bit k size in if leb (2 ^ suc k) size then suc k else rest

unfoldable pub calc_tbin : ℕ → ℕ
calc_tbin size =
    let msb = highest_bit 31 size in
    if ltb size 256
    then 0
    else if ltb 0xFFFF00 size
    then 31
    else (msb - 8) * 2 + size / 2 ^ (msb - 1) % 2

-- TBIN_DEPTH and small_index
abbrev pub tbin_depth : ℕ → ℕ
tbin_depth index = index / 2 + 8 - 1

abbrev pub small_index : ℕ → ℕ
small_index size = size / 8

-- __builtin_ctz of a map: the lowest set bit from `i` on, of `n` bits; i + n for none
unfoldable pub lowest_bit : (n i : ℕ) → (ℕ → Bool) → ℕ
lowest_bit zero i map = i
lowest_bit (suc n) i map = let rest = lowest_bit n (suc i) map in if map i then i else rest

unfoldable pub is_empty_map : (ℕ → Bool) → Bool
is_empty_map map = lowest_bit 32 0 map == 32

-- calc_leftbin(0, map): its mask has all bits
unfoldable pub calc_leftbin : (ℕ → Bool) → ℕ
calc_leftbin map = lowest_bit 32 0 map

-- map >> count; the shift of i386 takes the count mod 32
abbrev pub shift_map : (ℕ → Bool) → ℕ → ℕ → Bool
shift_map map count i = ltb (i + count % 32) 32 && map (i + count % 32)

-- `if (bin[index] == NULL) binmap &= ~(1 << index);`
abbrev pub clear_if_empty : (ℕ → Bool) → (index bin : ℕ) → ℕ → Bool
clear_if_empty map index bin = if bin == 0 then upd map index false else map

unfoldable pub bin_chunk : Arena → ℕ → Arena
bin_chunk a chunk =
    let size = get_chunk_size a chunk in
    if ltb size min_large_size
    then (let index = small_index size in
        let (links, head) = kmalloc_dllist_add a.links chunk (a.sbin index) in
        record a {
          links = links;
          sbin = upd a.sbin index head;
          sbinmap = upd a.sbinmap index true;
        })
    else (let index = calc_tbin size in
        let (a1, root) =
          kmalloc_tree_insert (record a { index = upd a.index chunk index }) chunk (a.tbin index)
            (tbin_depth index) in
        record a1 { tbin = upd a1.tbin index root; tbinmap = upd a1.tbinmap index true })

unfoldable pub unbin_chunk : Arena → ℕ → Option Arena
unbin_chunk a chunk =
    let size = get_chunk_size a chunk in
    if ltb size min_large_size
    then (let index = small_index size in
        let (removed, links, head) = kmalloc_dllist_remove_intern a.links chunk (a.sbin index) in
        some (record a {
          links = links;
          sbin = upd a.sbin index head;
          sbinmap = clear_if_empty a.sbinmap index head;
        }))
    else (let index = a.index chunk in
        kmalloc_tree_remove a chunk (a.tbin index) >>= λ r. some (record r.0 {
          tbin = upd r.0.tbin index r.1;
          tbinmap = clear_if_empty r.0.tbinmap index r.1;
        }))

unfoldable pub replace_dv : Arena → (new : ℕ) → Arena
replace_dv a new =
    let a1 = if a.d_victim == 0 then a else bin_chunk a a.d_victim in
    record a1 { d_victim = new; d_victim_size = get_chunk_size a1 new }

-- the first chunk leaves a small bin
unfoldable pub take_small : Arena → (index : ℕ) → ℕ × Arena
take_small a index =
    let (chunk, links, head) = kmalloc_dllist_remove a.links (a.sbin index) in
    (
      chunk,
      record a {
        links = links;
        sbin = upd a.sbin index head;
        sbinmap = clear_if_empty a.sbinmap index head;
      },
    )

-- `chunk` keeps `size` bytes and is in use; the rest, of `rest_size` bytes, is a free chunk
unfoldable pub split_off : Arena → (chunk size rest_size : ℕ) → Arena
split_off a chunk size rest_size =
    let new = chunk + size in
    let a1 = set_header a chunk (set_cinuse (set_pinuse size)) in
    let a2 = set_header a1 new (set_pinuse rest_size) in
    set_prev_foot a2 (next_chunk a2 new) rest_size

-- `chunk->header |= CINUSE; NEXTCHUNK(chunk)->header |= PINUSE;`
unfoldable pub mark_inuse : Arena → ℕ → Arena
mark_inuse a chunk =
    let a1 = set_header a chunk (set_cinuse (a.header chunk)) in
    set_header a1 (next_chunk a1 chunk) (set_pinuse (a1.header (next_chunk a1 chunk)))

-- A payload of NULL is the address 0.
unfoldable pub split_sbin : Arena → (index chunksize : ℕ) → ℕ × Arena
split_sbin a index chunksize =
    let (chunk, a1) = take_small a index in
    if chunk == 0
    then (0, a1)
    else (let a2 = split_off a1 chunk chunksize (sub32 (get_chunk_size a1 chunk) chunksize) in
        (chunk_payload chunk, replace_dv a2 (chunk + chunksize)))

unfoldable pub allocate_sbin : Arena → (index : ℕ) → ℕ × Arena
allocate_sbin a index =
    let (chunk, a1) = take_small a index in
    if chunk == 0 then (0, a1) else (chunk_payload chunk, mark_inuse a1 chunk)

unfoldable pub allocate_tchunk : Arena → (chunk wanted_size : ℕ) → Option (ℕ × Arena)
allocate_tchunk a chunk wanted_size = if chunk == 0 then some (0, a) else (do
  let index = a.index chunk
  (a1, root) ← kmalloc_tree_remove a chunk (a.tbin index)
  let a2 = record a1 {
    tbin = upd a1.tbin index root;
    tbinmap = clear_if_empty a1.tbinmap index root;
  }
  let size = get_chunk_size a2 chunk
  some (
    chunk_payload chunk,
    if ltb min_chunk_size (sub32 size wanted_size)
        then replace_dv (split_off a2 chunk wanted_size (sub32 size wanted_size))
            (chunk + wanted_size)
        else mark_inuse a2 chunk,
  ))

unfoldable pub allocate_smallest_tbin : Arena → (wanted_size : ℕ) → Option (ℕ × Arena)
allocate_smallest_tbin a wanted_size = do
  chunk ← kmalloc_tree_get_smallest a (a.tbin (calc_leftbin a.tbinmap))
  allocate_tchunk a chunk wanted_size
