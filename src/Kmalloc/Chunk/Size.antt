-- ===== src/Kmalloc/Chunk/Size.antt =====
-- The chunk size for a request.
use elco_os.Base.{ℕ, ◌+◌, ◌-◌, ◌%◌, ◌^◌, ◌≡◌, ◌≤◌, ◌<◌, ◌⊎◌, true, false, arith}
use elco_os.Kmalloc.Chunk.{request2size, request_overflow, chunk_align}

-- A request is refused as too large exactly from 2^32 - 11 bytes on. For any other one the chunk is
-- aligned, has at least 16 bytes, holds the request with its overhead of 4 bytes, and is the
-- smallest such chunk.
pub request2size_bounds :
    (req : ℕ)
    → req < 2 ^ 32
    → ((request_overflow req ≡ true) × (2 ^ 32 - 11 ≤ req))
      ⊎ ((request_overflow req ≡ false)
          × (req < 2 ^ 32 - 11)
          × (request2size req % 8 ≡ 0)
          × (16 ≤ request2size req)
          × (req + 4 ≤ request2size req)
          × ((request2size req ≡ 16) ⊎ (request2size req < req + 12)))
unfolding request_overflow request2size chunk_align
request2size_bounds req small = ground arith
