-- ===== src/Kmalloc/Layout/Join.antt =====
-- kfree of the block before the top chunk.
use elco_os.Base.{
  ℕ, ◌+◌, ◌%◌, ◌^◌, ◌≡◌, ◌≢◌, ◌≤◌, ◌<◌, refl, sym, ◌∙◌, Bool, true, false, some, List, [], ◌∷◌,
  ◌++◌, arith, ◌==◌,
}
use elco_os.Kmalloc.Chunk.{Arena, is_init, next_chunk, set_header, set_prev_foot, set_pinuse}
use elco_os.Kmalloc.Top.{shrink_top}
use elco_os.Kmalloc.Merge.{join_next, merge_free_chunks}
use elco_os.Kmalloc.Api.{kfree}
use elco_os.Kmalloc.Layout.{
  Block, Tagged, Tagged-from, Tagged-replace, tag, tag_lem, total, used_after,
}
use elco_os.Kmalloc.Layout.Free.{kfree-run}
use elco_os.Kmalloc.Layout.Shrink.{Shrunk, shrink_top-Shrunk}

-- the heap whose top chunk begins at `c` and has `n` bytes
abbrev absorbed : Arena → (c n : ℕ) → Arena
absorbed a c n =
    let a1 = record (set_prev_foot (set_header a c (set_pinuse n)) (c + n) n) {
      top_chunk = c;
      top_chunk_size = n;
    } in
    set_prev_foot a1 (next_chunk a1 c) n

absorbed-places :
    (a : Arena) (c n : ℕ)
    → n % 8 ≡ 0
    → 8 ≤ n
    → ((absorbed a c n).header c ≡ tag n false true)
      × ((absorbed a c n).prev_foot (c + n) ≡ n)
      × ((x : ℕ) → x < c → (absorbed a c n).header x ≡ a.header x)
      × ((x : ℕ) → x ≤ c → (absorbed a c n).prev_foot x ≡ a.prev_foot x)
absorbed-places a c n al pos =
    let a1 = record (set_prev_foot (set_header a c (set_pinuse n)) (c + n) n) {
      top_chunk = c;
      top_chunk_size = n;
    } in
    let far : next_chunk a1 c ≡ c + n = ground arith in
    rw far (ground arith, ground arith, λ x lt. ground arith, λ x le. ground arith)

join_next-run :
    (a : Arena) (c n next : ℕ)
    → next ≡ a.top_chunk
    → c ≢ a.d_victim
    → join_next a c n next ≡ some (shrink_top (absorbed a c n))
unfolding join_next
join_next-run a c n next at other =
    let top : (next == a.top_chunk) ≡ true = ground arith in
    let no_victim : (c == a.d_victim) ≡ false = ground arith in rw top (rw no_victim refl)

absorbed-Tagged :
    (a : Arena) (before : Bool) (c size t : ℕ) (xs : List Block) (end : ℕ)
    → Tagged a before c (xs ++ (size, true) ∷ (t, false) ∷ []) end
    → used_after before xs ≡ true
    → Tagged (absorbed a (c + total xs) (size + t)) before c (xs ++ (size + t, false) ∷ []) end
absorbed-Tagged a before c size t xs end tags used =
    let d = c + total xs in
    let (e, al, pos, g, (e', al', pos', g', far)) =
      Tagged-from a before c xs ((size, true) ∷ (t, false) ∷ []) end tags in
    let aligned : (size + t) % 8 ≡ 0 = omega arith in
    let (h, f, hs, fs) = absorbed-places a d (size + t) aligned (omega arith) in
    Tagged-replace a (absorbed a d (size + t)) before c xs ((size, true) ∷ (t, false) ∷ [])
      ((size + t, false) ∷ []) end end tags (λ x lo hi. hs x hi) (λ x lo hi. fs x hi)
      (rw used (h, aligned, omega arith, λ free. f, omega arith))

-- kfree of the block before the top chunk, behind a block in use and not the designated victim, returns.
-- The top chunk then begins at that block, and is smaller by what sbrk took, as `Asked` says: it is asked
-- for the largest multiple of 4096 bytes that leaves the heap its initial size and the top chunk 4096
-- bytes, and grants it or not. The blocks before it do not change. The sizes of the heap are multiples
-- of 4096 below 2^31.
pub kfree-joined :
    (a : Arena) (before : Bool) (c size : ℕ) (xs : List Block) (end : ℕ)
    → Tagged a before c (xs ++ (size, true) ∷ (a.top_chunk_size, false) ∷ []) end
    → used_after before xs ≡ true
    → a.top_chunk ≡ c + total xs + size
    → c + total xs ≢ a.d_victim
    → is_init a ≡ true
    → a.heap_start ≤ c
    → end ≤ a.heap_start + a.heap_size
    → a.heap_size < 2 ^ 31
    → a.heap_size % 4096 ≡ 0
    → a.initial_heap_size % 4096 ≡ 0
    → a.initial_heap_size ≤ a.heap_size
    → (gone : ℕ) × (a' : Arena) × (kfree a (c + total xs + 8) ≡ some a')
      × Shrunk before c xs end
          (record a { top_chunk = c + total xs; top_chunk_size = size + a.top_chunk_size })
          gone
          a'
unfolding merge_free_chunks
kfree-joined a before c size xs end t used at other init lo hi word al_heap al_init initial =
    let d = c + total xs in
    let n = size + a.top_chunk_size in
    let (e, al, pos, g, (e', al', pos', g', far)) =
      Tagged-from a before c xs ((size, true) ∷ (a.top_chunk_size, false) ∷ []) end t in
    let (s, u, b) = tag_lem a d size true (used_after before xs) e al in
    let (s', u', b') = tag_lem a (d + size) a.top_chunk_size false true e' al' in
    let run = kfree-run a d size init (ground arith) (ground arith) s u (b ∙ used) in
    let (gone, shrunk) =
      shrink_top-Shrunk (absorbed a d n) before c xs end
        (absorbed-Tagged a before c size a.top_chunk_size xs end t used) used refl (omega arith)
        word al_heap al_init initial in
    (
      gone,
      shrink_top (absorbed a d n),
      run ∙ rw u' (rw s' (join_next-run a d n (d + size) (sym at) other)),
      shrunk,
    )
