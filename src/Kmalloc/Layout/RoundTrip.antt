-- ===== src/Kmalloc/Layout/RoundTrip.antt =====
-- A block is cut off the top chunk and freed again.
use mathlib.Core.Path.{subst}
use elco_os.Base.{
  ℕ, ◌+◌, ◌-◌, ◌%◌, ◌^◌, ◌≡◌, ◌≢◌, ◌≤◌, ◌<◌, sym, ap, ◌∙◌, Bool, true, false, some, List, [], ◌∷◌,
  ◌++◌, arith,
}
use elco_os.Kmalloc.Chunk.{Arena, is_init}
use elco_os.Kmalloc.Bins.{split_off}
use elco_os.Kmalloc.Top.{cut_top}
use elco_os.Kmalloc.Api.{kfree}
use elco_os.Kmalloc.Layout.{Block, Tagged, total, used_after}
use elco_os.Kmalloc.Layout.Allocate.{cut_off, cut_off-Tagged, cut_top-run_split}
use elco_os.Kmalloc.Layout.Shrink.{Asked, Shrunk}
use elco_os.Kmalloc.Layout.Join.{kfree-joined}

-- A block cut off the top chunk, so that 16 bytes or more remain, can be freed at once: kfree of
-- its payload returns, and the heap has the blocks from before, with a top chunk and a heap that
-- are smaller by what sbrk took, as `Asked` says: it is asked for the largest multiple of 4096 bytes that
-- leaves the heap its initial size and the top chunk 4096 bytes, and grants it or not. The sizes of the
-- heap are multiples of 4096 below 2^31, the chunk before the top chunk is in use, and the top chunk is
-- not the designated victim.
pub kfree-cut_top :
    (a : Arena) (before : Bool) (c n : ℕ) (xs : List Block) (end : ℕ)
    → Tagged a before c (xs ++ (a.top_chunk_size, false) ∷ []) end
    → used_after before xs ≡ true
    → a.top_chunk ≡ c + total xs
    → c + total xs ≢ a.d_victim
    → n % 8 ≡ 0
    → 8 ≤ n
    → n + 16 ≤ a.top_chunk_size
    → is_init a ≡ true
    → a.heap_start ≤ c
    → end ≤ a.heap_start + a.heap_size
    → a.heap_size < 2 ^ 31
    → a.top_chunk_size < 2 ^ 32
    → a.heap_size % 4096 ≡ 0
    → a.initial_heap_size % 4096 ≡ 0
    → a.initial_heap_size ≤ a.heap_size
    → (gone : ℕ) × (a' : Arena) × (kfree (cut_top a n).1 (cut_top a n).0 ≡ some a')
      × Shrunk before c xs end a gone a'
unfolding split_off
kfree-cut_top a before c n xs end t used at other al pos fits init lo hi word small al_heap al_init
      initial =
    let (gone, a', run, ((al_gone, keep, heap, top, size, tags), asked)) =
      kfree-joined (cut_off a n) before c n xs end
        (cut_off-Tagged a before c n xs end t used at al pos fits) used (ground arith) other init lo
        hi word al_heap al_init initial in
    let whole : n + (a.top_chunk_size - n) ≡ a.top_chunk_size = omega arith in
    let restored : Asked a gone a' =
      subst (λ s. Asked (record a { top_chunk_size = s }) gone a') whole asked in
    rw (cut_top-run_split a n small fits) (
      gone,
      a',
      ap (λ d. kfree (cut_off a n) (d + 8)) at ∙ run,
      ((al_gone, keep, heap, top ∙ sym at, omega arith, tags), restored),
    )
