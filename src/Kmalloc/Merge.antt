-- ===== src/Kmalloc/Merge.antt =====
-- kmalloc_util.c: merge_free_chunks and try_expand_chunk.
use elco_os.Base.{
  ℕ, ◌+◌, ◌-◌, Bool, true, false, ◌||◌, not, Option, some, ◌>>=◌, if◌then◌else◌, ◌==◌, ltb, upd,
}
use elco_os.Kmalloc.Chunk.{
  Arena, min_chunk_size, is_inuse, prev_inuse, get_chunk_size, next_chunk, set_pinuse, set_cinuse,
  clear_pinuse, set_header, set_prev_foot,
}
use elco_os.Kmalloc.Dllist.{set_prev}
use elco_os.Kmalloc.Bins.{bin_chunk, unbin_chunk}
use elco_os.Kmalloc.Top.{shrink_top}

-- the chunk becomes the designated victim of that size if it was the victim, else it is binned
unfoldable pub settle_free : Arena → (first size : ℕ) → Arena
settle_free a first size =
    if first == a.d_victim then record a { d_victim_size = size } else bin_chunk a first

-- `next` is in use
unfoldable pub free_before_used : Arena → (first first_size next : ℕ) → Arena
free_before_used a first first_size next =
    let a1 = set_prev_foot (set_header a first (set_pinuse first_size)) next first_size in
    settle_free (set_header a1 next (clear_pinuse (a1.header next))) first first_size

-- `next` is free and now part of `first`
unfoldable pub join_next : Arena → (first new_size next : ℕ) → Option Arena
join_next a first new_size next =
    let a1 = set_prev_foot (set_header a first (set_pinuse new_size)) (first + new_size) new_size in
    if next == a1.top_chunk
    then (let a2 =
          if first == a1.d_victim then record a1 { d_victim = 0; d_victim_size = 0 } else a1 in
        let a3 = record a2 { top_chunk = first; top_chunk_size = new_size } in
        some (shrink_top (set_prev_foot a3 (next_chunk a3 first) new_size)))
    else if next == a1.d_victim
    then some (record a1 { d_victim = first; d_victim_size = new_size })
    else (unbin_chunk a1 next >>= λ a2. some (settle_free a2 first new_size))

unfoldable pub merge_free_chunks : Arena → (first first_size next : ℕ) → Option Arena
merge_free_chunks a first first_size next =
    if is_inuse a next
    then some (free_before_used a first first_size next)
    else join_next a first (first_size + get_chunk_size a next) next

-- new_size | CINUSE | PREV_INUSE(chunk)
abbrev pub resized : Arena → (chunk new_size : ℕ) → ℕ
resized a chunk new_size =
    if prev_inuse a chunk then set_pinuse (set_cinuse new_size) else set_cinuse new_size

-- `new->header = h` at `diff` bytes from `next`, which is still in its bin: for 8, 16 and 24 bytes
-- that place is also a field of `next`.
unfoldable pub set_header_inside : Arena → (next diff h : ℕ) → Arena
set_header_inside a next diff h =
    let a1 = set_header a (next + diff) h in
    if diff == 8
    then record a1 { links = set_prev a1.links next h }
    else if diff == 16
    then record a1 { right = upd a1.right next h }
    else if diff == 24
    then record a1 { index = upd a1.index next h }
    else a1

-- `chunk` takes the first `diff` bytes of `next`; the other `free_size` stay free
unfoldable pub expand_split : Arena → (chunk new_size next diff free_size : ℕ) → Option Arena
expand_split a chunk new_size next diff free_size =
    let new = next + diff in
    let a1 = set_header a chunk (resized a chunk new_size) in
    let a2 =
      set_prev_foot (set_header_inside a1 next diff (set_pinuse free_size)) (new + free_size)
        free_size in
    if next == a2.top_chunk
    then some (record a2 { top_chunk = new; top_chunk_size = free_size })
    else if next == a2.d_victim
    then some (record a2 { d_victim = new; d_victim_size = free_size })
    else (unbin_chunk a2 next >>= λ a3. some (bin_chunk a3 new))

-- `if (next->header) next->header |= PINUSE;`
abbrev pub mark_after : Arena → ℕ → Arena
mark_after a c = if a.header c == 0 then a else set_header a c (set_pinuse (a.header c))

-- `chunk` takes all of `next`
unfoldable pub expand_whole : Arena → (chunk new_size next : ℕ) → Option Arena
expand_whole a chunk new_size next =
    let a1 = set_header a chunk (resized a chunk new_size) in
    let after = next_chunk a1 chunk in
    if next == a1.top_chunk
    then some (mark_after (record a1 { top_chunk = after; top_chunk_size = 0 }) after)
    else if next == a1.d_victim
    then some (mark_after (record a1 { d_victim = 0; d_victim_size = 0 }) after)
    else (unbin_chunk a1 next >>= λ a2. some (mark_after a2 (next_chunk a2 chunk)))

-- `true` for the code 0
unfoldable pub try_expand_chunk : Arena → (chunk new_size : ℕ) → Option (Bool × Arena)
try_expand_chunk a chunk new_size =
    let diff = new_size - get_chunk_size a chunk in
    let next = next_chunk a chunk in
    let free_size = get_chunk_size a next - diff in
    if not (is_inuse a chunk) || ltb new_size (get_chunk_size a chunk)
    then some (false, a)
    else if is_inuse a next || ltb (get_chunk_size a next) diff
    then some (false, a)
    else if ltb min_chunk_size free_size
    then (expand_split a chunk new_size next diff free_size >>= λ a1. some (true, a1))
    else (expand_whole a chunk (new_size + free_size) next >>= λ a1. some (true, a1))
