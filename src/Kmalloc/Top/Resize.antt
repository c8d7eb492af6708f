-- ===== src/Kmalloc/Top/Resize.antt =====
-- How far the heap grows and shrinks.
use elco_os.Base.{
  ℕ, ◌+◌, ◌-◌, ◌%◌, ◌^◌, ◌≡◌, ◌≢◌, ◌≤◌, ◌<◌, ◌⊎◌, inl, inr, Bool-cases, refl, Bool, true, false,
  List, ◌∷◌, ◌&&◌, arith, ltb, leb,
}
use elco_os.Kmalloc.Chunk.{Arena}
use elco_os.Kmalloc.Top.{action_sbrk, shrunk_size, decrease_of, shrink_top}

-- Where both sizes of the heap are multiples of 4096, the heap is asked to shrink by a multiple of
-- 4096, the largest that leaves it its initial size and leaves the top chunk at least 4096 bytes.
pub decrease_of_bounds :
    (a : Arena)
    → a.heap_size % 4096 ≡ 0
    → a.initial_heap_size % 4096 ≡ 0
    → a.initial_heap_size ≤ a.heap_size
    → a.heap_size < 2 ^ 31
    → 4096 < a.top_chunk_size
    → a.top_chunk_size ≤ a.heap_size
    → (decrease_of a % 4096 ≡ 0)
      × (a.initial_heap_size + decrease_of a ≤ a.heap_size)
      × (4096 + decrease_of a ≤ a.top_chunk_size)
      × ((a.top_chunk_size < decrease_of a + 8192)
          ⊎ (a.initial_heap_size + decrease_of a ≡ a.heap_size))
unfolding decrease_of shrunk_size
decrease_of_bounds a h i small heap top fits =
    elim (Bool-cases (ltb (a.heap_size - (a.top_chunk_size - 4096)) a.initial_heap_size)) [
      | inl e ↦ (ground arith, ground arith, ground arith, inr (ground arith))
      | inr e ↦ (ground arith, ground arith, ground arith, inl (ground arith))
    ]

-- a refusal is recorded, and changes nothing
action_sbrk-refused :
    (a : Arena) (rest : List Bool) (n : ℕ)
    → a.answers ≡ false ∷ rest
    → action_sbrk a n ≡ (false, record a { requests = n ∷ a.requests; answers = rest })
unfolding action_sbrk
action_sbrk-refused a rest n refused = rw refused refl

decrease_of-unaligned :
    (a : Arena)
    → a.heap_size % 4096 ≢ 0
    → a.initial_heap_size ≡ a.heap_size
    → a.heap_size < 2 ^ 31
    → 4096 < a.top_chunk_size
    → a.top_chunk_size ≤ a.heap_size
    → decrease_of a ≡ 2 ^ 31 - 4096
unfolding decrease_of shrunk_size
decrease_of-unaligned a h i heap top fits = ground arith

-- Where the heap still has its initial size and that is not a multiple of 4096, shrink_top asks
-- sbrk for 2^31 - 4096 bytes less; sbrk refuses, and nothing else changes.
pub shrink_top-unaligned :
    (a : Arena) (rest : List Bool)
    → a.answers ≡ false ∷ rest
    → a.heap_size % 4096 ≢ 0
    → a.initial_heap_size ≡ a.heap_size
    → a.heap_size < 2 ^ 31
    → 4096 < a.top_chunk_size
    → a.top_chunk_size ≤ a.heap_size
    → shrink_top a ≡ record a { requests = (2 ^ 31 + 4096) ∷ a.requests; answers = rest }
unfolding shrink_top
shrink_top-unaligned a rest refused h i heap top fits =
    let clipped : decrease_of a ≡ 2 ^ 31 - 4096 = decrease_of-unaligned a h i heap top fits in
    let asks : ltb 4096 a.top_chunk_size
          && leb a.initial_heap_size a.heap_size
          && ltb 0 (decrease_of a)
        ≡ true =
      ground arith in
    rw asks (rw clipped (rw (action_sbrk-refused a rest (2 ^ 31 + 4096) refused) refl))
