-- ===== src/Kmalloc/Layout/Twice.antt =====
-- A block is freed twice.
use elco_os.Base.{ℕ, ◌+◌, ◌≡◌, ◌≤◌, ◌∙◌, ap, inr, Bool, true, false, some, List, ◌∷◌, ◌++◌, arith}
use elco_os.Kmalloc.Chunk.{Arena, is_init, is_inuse, payload_chunk}
use elco_os.Kmalloc.Merge.{free_before_used}
use elco_os.Kmalloc.Api.{kfree, krealloc, abort}
use elco_os.Kmalloc.Api.Refusal.{kfree-krealloc-abort}
use elco_os.Kmalloc.Layout.{Block, Tagged, Tagged-from, tag_lem, total, used_after}
use elco_os.Kmalloc.Layout.Free.{kfree-free_before_used}

-- A block between two blocks in use is freed once only: kfree of its payload returns, and after that
-- kfree and krealloc, to any size, of the same payload call abort and leave the allocator as it is;
-- krealloc returns NULL.
pub kfree-kfree-abort :
    (a : Arena) (before : Bool) (c size next_size req_size : ℕ) (xs ys : List Block) (end : ℕ)
    → Tagged a before c (xs ++ (size, true) ∷ (next_size, true) ∷ ys) end
    → used_after before xs ≡ true
    → is_init a ≡ true
    → a.heap_start ≤ c
    → end ≤ a.heap_start + a.heap_size
    → (a' : Arena) × (kfree a (c + total xs + 8) ≡ some a')
      × (kfree a' (c + total xs + 8) ≡ some (abort a'))
      × (krealloc a' (c + total xs + 8) req_size ≡ some (0, abort a'))
kfree-kfree-abort a before c size next_size req_size xs ys end t used init lo hi =
    let d = c + total xs in
    let a' = free_before_used a d size (d + size) in
    let (run, tags, init', al, pos, nz) =
      kfree-free_before_used a before c size next_size xs ys end t used init lo hi in
    let (e, al', pos', g, t') =
      Tagged-from a' before c xs ((size, false) ∷ (next_size, true) ∷ ys) end tags in
    let (s, u, b) = tag_lem a' d size false (used_after before xs) e al in
    let free : is_inuse a' (payload_chunk (d + 8)) ≡ false =
      ap (λ x. is_inuse a' x) {x = payload_chunk (d + 8)} {y = d} (omega arith) ∙ u in
    let (refused, refused') =
      kfree-krealloc-abort a' (d + 8) req_size (omega arith) init' (inr free) in
    (a', run, refused, refused')
