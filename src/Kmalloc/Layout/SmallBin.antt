-- ===== src/Kmalloc/Layout/SmallBin.antt =====
-- Allocation from a small bin.
use mathlib.Core.Path.{subst}
use elco_os.Base.{
  ℕ, ◌+◌, ◌%◌, ◌≡◌, ◌≢◌, ◌<◌, refl, sym, ap, ◌∙◌, Bool, true, false, some, List, ◌∷◌, ◌++◌, arith,
  ◌==◌, ltb, upd,
}
use elco_os.Kmalloc.Chunk.{Arena, is_init, request_overflow, request2size}
use elco_os.Kmalloc.Dllist.{kmalloc_dllist_remove}
use elco_os.Kmalloc.Dllist.Ring.{Ring}
use elco_os.Kmalloc.Dllist.Ring.Remove.{kmalloc_dllist_remove-Ring}
use elco_os.Kmalloc.Bins.{
  small_index, shift_map, allocate_sbin, take_small, mark_inuse, clear_if_empty,
}
use elco_os.Kmalloc.Api.{kmalloc, kmalloc_intern, from_small_bins}
use elco_os.Kmalloc.Layout.{Block, Tagged, total, used_after, keeps}
use elco_os.Kmalloc.Layout.Split.{use-before}

-- the heap without the first chunk of a small bin
abbrev taken_from : Arena → (index : ℕ) → Arena
taken_from a index =
    let (chunk, links, head) = kmalloc_dllist_remove a.links (a.sbin index) in
    record a {
      links = links;
      sbin = upd a.sbin index head;
      sbinmap = clear_if_empty a.sbinmap index head;
    }

allocate_sbin-run :
    (a : Arena) (index chunk : ℕ)
    → (kmalloc_dllist_remove a.links (a.sbin index)).0 ≡ chunk
    → chunk ≢ 0
    → allocate_sbin a index ≡ (chunk + 8, mark_inuse (taken_from a index) chunk)
unfolding allocate_sbin take_small
allocate_sbin-run a index chunk e nz =
    let some_chunk : ((kmalloc_dllist_remove a.links (a.sbin index)).0 == 0) ≡ false =
      ground arith in
    rw some_chunk (ap (λ c. (c + 8, mark_inuse (taken_from a index) c)) e)

upd-at : (f : ℕ → ℕ) (i v : ℕ) → upd f i v i ≡ v
upd-at f i v = ground arith

-- Allocation from a small bin whose list holds chunks gives the payload of the first one. That block
-- of the heap, behind a block in use, is then in use; the bin keeps the other chunks; no other block
-- changes.
pub allocate_sbin-Ring :
    (a : Arena) (before : Bool) (c index chunk size : ℕ) (rest : List ℕ) (xs ys : List Block)
    (end : ℕ)
    → Ring a.links (a.sbin index) (chunk ∷ rest)
    → Tagged a before c (xs ++ (size, false) ∷ ys) end
    → used_after before xs ≡ true
    → chunk ≡ c + total xs
    → ((allocate_sbin a index).0 ≡ chunk + 8)
      × Ring (allocate_sbin a index).1.links ((allocate_sbin a index).1.sbin index) rest
      × Tagged (allocate_sbin a index).1 before c (xs ++ (size, true) ∷ ys) end
unfolding mark_inuse
allocate_sbin-Ring a before c index chunk size rest xs ys end ring tags used at =
    let (e, left) = kmalloc_dllist_remove-Ring a.links (a.sbin index) chunk rest ring in
    let r = kmalloc_dllist_remove a.links (a.sbin index) in
    let kept =
      keeps a (taken_from a index) before c (xs ++ (size, false) ∷ ys) end refl refl tags in
    rw (allocate_sbin-run a index chunk e ring.1.0) (
      refl,
      subst (λ h. Ring r.1 h rest) (sym (upd-at a.sbin index r.2)) left,
      subst (λ d. Tagged (mark_inuse (taken_from a index) d) before c (xs ++ (size, true) ∷ ys) end)
          (sym at) (use-before (taken_from a index) before c size xs ys end kept used),
    )

-- the lowest bit of the map of small bins, shifted to the bin of a small chunk
exact_bit :
    (a : Arena) (n : ℕ)
    → n < 256
    → a.sbinmap (small_index n) ≡ true
    → shift_map a.sbinmap (small_index n) 0 ≡ true
exact_bit a n small full =
    let place : 0 + small_index n % 32 ≡ small_index n = omega arith in
    let inside : ltb (small_index n) 32 ≡ true = ground arith in rw place (rw inside full)

kmalloc-run :
    (a : Arena) (req : ℕ)
    → is_init a ≡ true
    → request_overflow req ≡ false
    → request2size req < 256
    → a.sbinmap (small_index (request2size req)) ≡ true
    → (allocate_sbin a (small_index (request2size req))).0 ≢ 0
    → kmalloc a req ≡ some (allocate_sbin a (small_index (request2size req)))
unfolding kmalloc kmalloc_intern from_small_bins
kmalloc-run a req init ok small full nz =
    let n = request2size req in
    let test : ltb n 256 ≡ true = ground arith in
    let served : ((allocate_sbin a (small_index n)).0 == 0) ≡ false = ground arith in
    rw init (rw ok (rw test (rw (exact_bit a n small full) (rw served refl))))

-- kmalloc reuses a free chunk of exactly the size that a small request needs: where the bin of that
-- size is not empty, it gives the payload of the first chunk of the bin, which is then in use; the
-- bin keeps the other chunks, and no other block changes.
pub kmalloc-Ring :
    (a : Arena) (before : Bool) (c req chunk : ℕ) (rest : List ℕ) (xs ys : List Block) (end : ℕ)
    → is_init a ≡ true
    → request_overflow req ≡ false
    → request2size req < 256
    → a.sbinmap (small_index (request2size req)) ≡ true
    → Ring a.links (a.sbin (small_index (request2size req))) (chunk ∷ rest)
    → Tagged a before c (xs ++ (request2size req, false) ∷ ys) end
    → used_after before xs ≡ true
    → chunk ≡ c + total xs
    → (a' : Arena) × (kmalloc a req ≡ some (chunk + 8, a'))
      × Ring a'.links (a'.sbin (small_index (request2size req))) rest
      × Tagged a' before c (xs ++ (request2size req, true) ∷ ys) end
kmalloc-Ring a before c req chunk rest xs ys end init ok small full ring tags used at =
    let n = request2size req in
    let (payload, left, blocks) =
      allocate_sbin-Ring a before c (small_index n) chunk n rest xs ys end ring tags used at in
    let r = allocate_sbin a (small_index n) in
    (
      r.1,
      kmalloc-run a req init ok small full (λ e. absurd (omega arith))
          ∙ ap (λ p. some (p, r.1)) payload,
      left,
      blocks,
    )
