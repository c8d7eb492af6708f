-- ===== src/Kmalloc/Layout/Fresh.antt =====
-- A heap from its start: kmalloc_init, the first allocation, and its end.
use mathlib.Core.Path.{subst}
use elco_os.Base.{
  ℕ, ◌+◌, ◌-◌, ◌%◌, ◌^◌, ◌≡◌, ◌≢◌, ◌≤◌, ◌<◌, refl, sym, ap, ◌∙◌, Bool, true, false, ◌||◌, some, [],
  ◌∷◌, arith, if◌then◌else◌, ◌==◌, ltb, leb, Bool-cases, inl, inr,
}
use elco_os.Kmalloc.Chunk.{
  Arena, is_init, sub32, chunk_align, chunk_floor, next_chunk, set_header, set_pinuse, request2size,
  request_overflow, kmalloc_state_magic, min_large_size, bins,
}
use elco_os.Kmalloc.Chunk.Size.{request2size_bounds}
use elco_os.Kmalloc.Tree.{kmalloc_tree_get_best_fit}
use elco_os.Kmalloc.Bins.{calc_tbin, shift_map, small_index, tbin_depth}
use elco_os.Kmalloc.Bins.Index.{calc_tbin_bound, is_empty_map_lem}
use elco_os.Kmalloc.Top.{cut_top, split_top, kmalloc_init, set_dummy}
use elco_os.Kmalloc.Dllist.{set_next, set_prev}
use elco_os.Kmalloc.Api.{
  kmalloc, kmalloc_intern, kfree, from_small_bins, from_tree_bins, from_larger_bins,
  from_victim_or_top,
}
use elco_os.Kmalloc.Layout.{Tagged}
use elco_os.Kmalloc.Layout.Allocate.{cut_top-run_split}
use elco_os.Kmalloc.Layout.RoundTrip.{kfree-cut_top}

-- no chunk in any bin, and no designated victim
abbrev pub NothingBinned : Arena → Type 0
NothingBinned a =
    ((i : ℕ) → a.sbinmap i ≡ false)
    × ((i : ℕ) → a.tbinmap i ≡ false)
    × ((i : ℕ) → i < 32 → a.tbin i ≡ 0)
    × (a.d_victim ≡ 0)
    × (a.d_victim_size ≡ 0)

or_true : (b : Bool) → (b || true) ≡ true
or_true true = refl
or_true false = refl

-- a shift of a map without a bit
shift_clear :
    (map : ℕ → Bool) (count i : ℕ) → ((j : ℕ) → map j ≡ false) → shift_map map count i ≡ false
shift_clear map count i clear = let c = clear (i + count % 32) in ground arith

from_small_bins-nothing :
    (a : Arena) (n : ℕ) → NothingBinned a → 0 < n → from_small_bins a n ≡ some (0, a)
unfolding from_small_bins
from_small_bins-nothing a n (small, large, roots, dv, dv_size) pos =
    let index = small_index n in
    let bit : (i : ℕ) → shift_map a.sbinmap index i ≡ false =
      λ i. shift_clear a.sbinmap index i small in
    let victim : leb n a.d_victim_size ≡ false = ground arith in
    rw (bit 0) (
      rw (bit 1) (
        rw victim (
          rw (is_empty_map_lem (λ i. shift_map a.sbinmap index (i + 2)) (λ i. bit (i + 2)))
            (rw (is_empty_map_lem a.tbinmap large) refl))))

from_larger_bins-nothing :
    (a : Arena) (n index : ℕ) → NothingBinned a → from_larger_bins a n index ≡ some (0, a)
unfolding from_larger_bins
from_larger_bins-nothing a n index (small, large, roots, dv, dv_size) =
    let none_set =
      is_empty_map_lem (shift_map a.tbinmap index) (λ i. shift_clear a.tbinmap index i large) in
    rw none_set refl

from_tree_bins-nothing : (a : Arena) (n : ℕ) → NothingBinned a → from_tree_bins a n ≡ some (0, a)
unfolding from_tree_bins kmalloc_tree_get_best_fit
from_tree_bins-nothing a n nothing = rw (nothing.2 (calc_tbin n) (calc_tbin_bound n)) (
    rw (or_true (tbin_depth (calc_tbin n) == 0))
      (from_larger_bins-nothing a n (calc_tbin n + 1) nothing))

served_by_neither :
    (a : Arena) (n : ℕ)
    → NothingBinned a
    → 0 < n
    → (if ltb n min_large_size then from_small_bins a n else from_tree_bins a n) ≡ some (0, a)
served_by_neither a n nothing pos = elim (Bool-cases (ltb n min_large_size)) [
  | inl small ↦ rw small (from_small_bins-nothing a n nothing pos)
  | inr large ↦ rw large (from_tree_bins-nothing a n nothing)
]

-- With nothing in the bins, kmalloc cuts the top chunk.
kmalloc-top :
    (a : Arena) (size : ℕ)
    → NothingBinned a
    → is_init a ≡ true
    → request_overflow size ≡ false
    → 0 < request2size size
    → request2size size ≤ a.top_chunk_size
    → kmalloc a size ≡ some (cut_top a (request2size size))
unfolding kmalloc kmalloc_intern from_victim_or_top split_top
kmalloc-top a size nothing init ok pos fits =
    let n = request2size size in
    let bins : (if ltb n min_large_size then from_small_bins a n else from_tree_bins a n)
        ≡ some (0, a) =
      served_by_neither a n nothing pos in
    let (small, large, roots, dv, dv_size) = nothing in
    let victim : leb n a.d_victim_size ≡ false = ground arith in
    let enough : ltb a.top_chunk_size n ≡ false = ground arith in
    rw init (rw ok (rw bins (rw victim (rw enough refl))))

-- What kmalloc_init gives for an aligned heap: one free top chunk up to the dummy of 8 bytes at the
-- end, and nothing else.
abbrev pub OneBlock : Arena → (start size : ℕ) → Type 0
OneBlock a start size =
    NothingBinned a
    × (is_init a ≡ true)
    × (a.heap_start ≡ start)
    × (a.heap_size ≡ size)
    × (a.initial_heap_size ≡ size)
    × (a.top_chunk ≡ start)
    × (a.top_chunk_size ≡ size - 8)
    × Tagged a true start ((size - 8, false) ∷ []) (start + (size - 8))

-- the heap of kmalloc_init at an aligned address
abbrev started : Arena → (start size : ℕ) → Arena
started a start size =
    let top_size = size - 8 in
    let a1 = set_header a start (set_pinuse top_size) in
    let a2 = record a1 { links = set_next (set_prev a1.links start start) start start } in
    record (set_dummy a2 start top_size) {
      heap_start = start;
      heap_size = size;
      initial_heap_size = size;
      sbinmap = λ i. false;
      tbinmap = λ i. false;
      sbin = λ i. if ltb i bins then 0 else a.sbin i;
      tbin = λ i. if ltb i bins then 0 else a.tbin i;
      d_victim = 0;
      d_victim_size = 0;
      top_chunk = start;
      top_chunk_size = top_size;
      magic = kmalloc_state_magic;
    }

kmalloc_init-run :
    (a : Arena) (start size : ℕ)
    → start ≢ 0
    → start % 8 ≡ 0
    → size % 8 ≡ 0
    → 24 ≤ size
    → start + size < 2 ^ 32
    → kmalloc_init a start size ≡ started a start size
unfolding kmalloc_init chunk_align
kmalloc_init-run a start size nz al al_size fits word =
    let top : chunk_align start ≡ start = ground arith in
    let offset : sub32 start start ≡ 0 = ground arith in
    let size_0 : size - 0 ≡ size = omega arith in
    let floor : chunk_floor (size - 8) ≡ size - 8 = ground arith in
    let there : (start == 0) ≡ false = ground arith in
    let room : ltb size 24 ≡ false = ground arith in
    rw there (rw top (rw offset (rw size_0 (rw floor (rw room refl)))))

started-Tagged :
    (a : Arena) (start size : ℕ)
    → size % 8 ≡ 0
    → 24 ≤ size
    → Tagged (started a start size) true start ((size - 8, false) ∷ []) (start + (size - 8))
started-Tagged a start size al fits =
    let a1 = set_header a start (set_pinuse (size - 8)) in
    let a2 = record a1 { links = set_next (set_prev a1.links start start) start start } in
    let far : next_chunk a2 start ≡ start + (size - 8) = ground arith in
    rw far (ground arith, omega arith, omega arith, λ free. ground arith, refl)

chunk_size-Aligned :
    (req : ℕ)
    → req < 2 ^ 32
    → request_overflow req ≡ false
    → (request2size req % 8 ≡ 0) × (16 ≤ request2size req)
chunk_size-Aligned req small ok = elim (request2size_bounds req small) [
  | inl (over, much) ↦ absurd (ground arith)
  | inr (fine, lt, al, pos, holds, least) ↦ (al, pos)
]

-- kmalloc_init at an aligned address, with a multiple of 8 bytes and at least 24, gives a heap of one
-- free block, the top chunk: the maps of the bins are empty, every bin of both kinds is NULL, and there
-- is no designated victim. The heap does not reach the end of the address space.
pub kmalloc_init-OneBlock :
    (a : Arena) (start size : ℕ)
    → start ≢ 0
    → start % 8 ≡ 0
    → size % 8 ≡ 0
    → 24 ≤ size
    → start + size < 2 ^ 32
    → OneBlock (kmalloc_init a start size) start size
      × ((i : ℕ) → (kmalloc_init a start size).sbin i ≡ (if ltb i 32 then 0 else a.sbin i))
kmalloc_init-OneBlock a start size nz al al_size fits word =
    rw (kmalloc_init-run a start size nz al al_size fits word) (
      (
        (λ i. refl, λ i. refl, λ i lt. ground arith, refl, refl),
        ground arith,
        refl,
        refl,
        refl,
        refl,
        refl,
        started-Tagged a start size al_size fits,
      ),
      λ i. refl,
    )

-- The first allocation on a heap of one free block succeeds, if 16 bytes or more remain, and kfree
-- of the block gives the heap of one free block back: nothing is lost, and nothing goes back to
-- sbrk.
pub kfree-kmalloc :
    (a : Arena) (start size req : ℕ)
    → OneBlock a start size
    → start ≢ 0
    → size % 4096 ≡ 0
    → size < 2 ^ 31
    → req < 2 ^ 32
    → request_overflow req ≡ false
    → request2size req + 24 ≤ size
    → (payload : ℕ) × (a1 : Arena) × (a2 : Arena) × (kmalloc a req ≡ some (payload, a1))
      × (payload ≡ start + 8)
      × (kfree a1 payload ≡ some a2)
      × (a2.heap_size ≡ size)
      × (a2.top_chunk ≡ start)
      × (a2.top_chunk_size ≡ size - 8)
      × Tagged a2 true start ((size - 8, false) ∷ []) (start + (size - 8))
kfree-kmalloc a start size req (nothing, init, first, heap, initial, top, top_size, tags) nz al word
      small ok fits =
    let n = request2size req in
    let (al_n, pos) = chunk_size-Aligned req small ok in
    let (small_clear, large_clear, roots, dv, dv_size) = nothing in
    let at : a.top_chunk ≡ start + 0 = omega arith in
    let other : start + 0 ≢ a.d_victim = λ e. nz (omega arith) in
    let left : n + 16 ≤ a.top_chunk_size = omega arith in
    let inside : start + (size - 8) ≤ a.heap_start + a.heap_size = omega arith in
    let (gone, a2, run, ((al_gone, keep, heap2, top2, size2, tags2), asked)) =
      kfree-cut_top a true start n [] (start + (size - 8))
        (subst (λ v. Tagged a true start ((v, false) ∷ []) (start + (size - 8))) (sym top_size)
          tags)
        refl at other al_n (omega arith) left init (omega arith) inside (omega arith) (omega arith)
        (ap (λ s. s % 4096) heap ∙ al) (ap (λ s. s % 4096) initial ∙ al) (omega arith) in
    let none_gone : gone ≡ 0 = omega arith in
    let whole : a2.top_chunk_size ≡ size - 8 = omega arith in
    let end : start + (size - 8) - gone ≡ start + (size - 8) = omega arith in
    (
      (cut_top a n).0,
      (cut_top a n).1,
      a2,
      kmalloc-top a req nothing init ok (omega arith) (omega arith),
      ap (λ r. r.0) (cut_top-run_split a n (omega arith) left) ∙ omega arith,
      run,
      omega arith,
      top2 ∙ top,
      whole,
      subst (λ e. Tagged a2 true start ((size - 8, false) ∷ []) e) end
          (subst (λ v. Tagged a2 true start ((v, false) ∷ []) (start + (size - 8) - gone)) whole
            tags2),
    )
