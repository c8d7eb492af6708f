-- ===== src/Kmalloc/Top.antt =====
-- kmalloc_util.c: the start of the heap, the top chunk and the designated victim.
pub mod Resize
use elco_os.Base.{
  ℕ, ◌+◌, ◌-◌, ◌%◌, ◌^◌, Bool, true, false, ◌&&◌, ◌||◌, not, List, [], ◌∷◌, if◌then◌else◌, ◌==◌,
  ltb, leb, upd,
}
use elco_os.Kmalloc.Chunk.{
  Arena, min_chunk_size, dummy_size, bins, kmalloc_state_magic, chunk_align, chunk_floor,
  next_chunk, chunk_payload, set_pinuse, set_cinuse, set_header, set_prev_foot, sub32,
}
use elco_os.Kmalloc.Bins.{split_off, mark_inuse}
use elco_os.Kmalloc.Dllist.{set_next, set_prev}

-- NEXTCHUNK(top)->prev_foot = size, and its header is 0: the dummy behind the heap
abbrev pub set_dummy : Arena → (top size : ℕ) → Arena
set_dummy a top size =
    let a1 = set_prev_foot a (next_chunk a top) size in set_header a1 (next_chunk a1 top) 0

unfoldable pub kmalloc_init : Arena → (heap_addr heap_size : ℕ) → Arena
unfolding chunk_align
kmalloc_init a heap_addr heap_size =
    let top = chunk_align heap_addr in
    let offset = sub32 top heap_addr in
    let top_size = chunk_floor (heap_size - offset - dummy_size) in
    if heap_addr == 0
    then a
    else if ltb heap_size (offset + min_chunk_size + dummy_size)
    then a
    else (let a1 = set_header a top (set_pinuse top_size) in
        let a2 = record a1 { links = set_next (set_prev a1.links top top) top top } in
        record (set_dummy a2 top top_size) {
          heap_start = top;
          heap_size = heap_size - offset;
          initial_heap_size = heap_size - offset;
          sbinmap = λ i. false;
          tbinmap = λ i. false;
          sbin = λ i. if ltb i bins then 0 else a.sbin i;
          tbin = λ i. if ltb i bins then 0 else a.tbin i;
          d_victim = 0;
          d_victim_size = 0;
          top_chunk = top;
          top_chunk_size = top_size;
          magic = kmalloc_state_magic;
        })

-- ACTION_SBRK: whether the answer is not (void *) -1. Where no answer is left, it is.
unfoldable pub action_sbrk : Arena → (increment : ℕ) → Bool × Arena
action_sbrk a increment = elim a.answers [
  | [] ↦ (false, record a { requests = increment ∷ a.requests })
  | answer ∷ rest ↦ (answer, record a { requests = increment ∷ a.requests; answers = rest })
]

-- (x + (HEAP_SIZE_ALIGN - 1)) & ~(HEAP_SIZE_ALIGN - 1), for a value of size_t
abbrev pub heap_align : ℕ → ℕ
heap_align x = let y = (x + 4095) % 2 ^ 32 in y - y % 4096

abbrev pub half_max_size : ℕ
half_max_size = 2 ^ 31 - 1

-- the size of the heap that shrink_top aims at
unfoldable pub shrunk_size : Arena → ℕ
shrunk_size a =
    let newsize = sub32 a.heap_size (a.top_chunk_size - 4096) in
    heap_align (if ltb newsize a.initial_heap_size then a.initial_heap_size else newsize)

-- by how much the heap is to shrink
unfoldable pub decrease_of : Arena → ℕ
unfolding shrunk_size
decrease_of a =
    let decrease = sub32 a.heap_size (shrunk_size a) in
    if ltb half_max_size decrease then half_max_size - half_max_size % 4096 else decrease

-- the new top after sbrk took `decrease` bytes back
unfoldable pub lower_top : Arena → (decrease : ℕ) → Arena
lower_top a decrease =
    let size = sub32 a.top_chunk_size decrease in
    let a1 = record a { heap_size = sub32 a.heap_size decrease; top_chunk_size = size } in
    if size == 0
    then set_header a1 a.top_chunk 0
    else set_dummy (set_header a1 a.top_chunk (set_pinuse size)) a.top_chunk size

unfoldable pub shrink_top : Arena → Arena
unfolding decrease_of lower_top
shrink_top a =
    let decrease = decrease_of a in
    if ltb 4096 a.top_chunk_size && leb a.initial_heap_size a.heap_size && ltb 0 decrease
    then (let (granted, a1) = action_sbrk a (2 ^ 32 - decrease) in
        if granted then lower_top a1 decrease else a1)
    else a

-- `true` for the code 0
unfoldable pub grow_top : Arena → (increment : ℕ) → Bool × Arena
grow_top a increment =
    let inc = heap_align increment in
    if ltb half_max_size inc
    then (false, a)
    else (let (granted, a1) = action_sbrk a inc in
        if granted
        then (let size = (a1.top_chunk_size + inc) % 2 ^ 32 in
            let a2 = record a1 {
              heap_size = (a1.heap_size + inc) % 2 ^ 32;
              top_chunk_size = size;
            } in
            (true, set_dummy (set_header a2 a2.top_chunk (set_pinuse size)) a2.top_chunk size))
        else (false, a1))

-- split_top once the top chunk is large enough
unfoldable pub cut_top : Arena → (chunksize : ℕ) → ℕ × Arena
unfolding split_off
cut_top a chunksize =
    let chunk = a.top_chunk in
    let split_size = sub32 a.top_chunk_size chunksize in
    if ltb split_size min_chunk_size
    then (let a1 = set_header a chunk (set_cinuse (set_pinuse chunksize)) in
        let dummy = next_chunk a1 chunk in
        (
          chunk_payload chunk,
          record (set_header a1 dummy 0) { top_chunk = dummy; top_chunk_size = 0 },
        ))
    else (
      chunk_payload chunk,
      record (split_off a chunk chunksize split_size) {
        top_chunk = chunk + chunksize;
        top_chunk_size = split_size;
      },
    )

-- A payload of NULL is the address 0.
unfoldable pub split_top : Arena → (chunksize : ℕ) → (allow_expand : Bool) → ℕ × Arena
split_top a chunksize allow_expand =
    if ltb a.top_chunk_size chunksize
    then (if allow_expand
        then (let (grown, a1) = grow_top a (chunksize - a.top_chunk_size) in
            if grown then cut_top a1 chunksize else (0, a1))
        else (0, a))
    else cut_top a chunksize

unfoldable pub allocate_dv : Arena → (chunksize : ℕ) → ℕ × Arena
unfolding split_off mark_inuse
allocate_dv a chunksize =
    let chunk = a.d_victim in
    let split_size = a.d_victim_size - chunksize in
    if (chunk == 0) || ltb a.d_victim_size chunksize
    then (0, a)
    else if ltb split_size min_chunk_size
    then (chunk_payload chunk, record (mark_inuse a chunk) { d_victim = 0; d_victim_size = 0 })
    else (
      chunk_payload chunk,
      record (split_off a chunk chunksize split_size) {
        d_victim = chunk + chunksize;
        d_victim_size = split_size;
      },
    )
