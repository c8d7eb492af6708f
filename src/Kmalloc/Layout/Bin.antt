-- ===== src/Kmalloc/Layout/Bin.antt =====
-- Chunks enter and leave the bins without a change of the boundary tags.
use elco_os.Base.{
  ℕ, zero, suc, ◌/◌, ◌≡◌, ◌≢◌, ◌≤◌, ◌<◌, refl, Bool, true, false, List, ◌∷◌, ◌∉◌, arith,
  if◌then◌else◌, ◌==◌, ◌||◌, ltb, upd,
}
use elco_os.Kmalloc.Chunk.{Arena, is_init, get_chunk_size, min_large_size}
use elco_os.Kmalloc.Tree.{goes_right, insert_loop, kmalloc_tree_insert}
use elco_os.Kmalloc.Dllist.Ring.{Ring}
use elco_os.Kmalloc.Dllist.Ring.Add.{kmalloc_dllist_add-Ring}
use elco_os.Kmalloc.Bins.{bin_chunk, calc_tbin, tbin_depth}

-- the same headers and feet, and the state is initialised as it was
abbrev pub SameTags : Arena → Arena → Type 0
SameTags a a' = (a'.header ≡ a.header) × (a'.prev_foot ≡ a.prev_foot) × (is_init a' ≡ is_init a)

pub if-SameTags :
    (a x y : Arena) (b : Bool) → SameTags a x → SameTags a y → SameTags a (if b then x else y)
if-SameTags a x y true p q = p
if-SameTags a x y false p q = q

insert_loop-SameTags :
    (depth : ℕ) (a : Arena) (chunk cur : ℕ) → SameTags a (insert_loop depth a chunk cur)
unfolding insert_loop
insert_loop-SameTags zero a chunk cur =
    if-SameTags a _ _ (get_chunk_size a chunk == get_chunk_size a cur) (refl, refl, refl)
      (refl, refl, refl)
insert_loop-SameTags (suc depth) a chunk cur =
    let right = goes_right (get_chunk_size a chunk) depth in
    let below = if right then a.right cur else a.left cur in
    if-SameTags a _ _ (get_chunk_size a chunk == get_chunk_size a cur) (refl, refl, refl)
      (if-SameTags a _ _ (below == 0)
        (if-SameTags a _ _ right (refl, refl, refl) (refl, refl, refl))
        (insert_loop-SameTags depth a chunk below))

if-SameTags_first :
    (a : Arena) (x y : Arena × ℕ) (b : Bool)
    → SameTags a x.0
    → SameTags a y.0
    → SameTags a (if b then x else y).0
if-SameTags_first a x y true p q = p
if-SameTags_first a x y false p q = q

kmalloc_tree_insert-SameTags :
    (a : Arena) (chunk root depth : ℕ) → SameTags a (kmalloc_tree_insert a chunk root depth).0
unfolding kmalloc_tree_insert
kmalloc_tree_insert-SameTags a chunk root depth =
    if-SameTags_first a _ _ ((depth == 0) || (chunk == 0)) (refl, refl, refl)
      (if-SameTags_first a _ _ (root == 0) (refl, refl, refl)
        (insert_loop-SameTags depth _ chunk root))

pub bin_chunk-SameTags : (a : Arena) (chunk : ℕ) → SameTags a (bin_chunk a chunk)
unfolding bin_chunk
bin_chunk-SameTags a chunk =
    let index = calc_tbin (get_chunk_size a chunk) in
    if-SameTags a _ _ (ltb (get_chunk_size a chunk) min_large_size) (refl, refl, refl)
      (kmalloc_tree_insert-SameTags (record a { index = upd a.index chunk index }) chunk
        (a.tbin index) (tbin_depth index))

-- A small chunk goes to the front of its bin.
pub bin_chunk-small :
    (a : Arena) (chunk size : ℕ) (zs : List ℕ)
    → get_chunk_size a chunk ≡ size
    → size < 256
    → Ring a.links (a.sbin (size / 8)) zs
    → chunk ≢ 0
    → chunk ∉ zs
    → ((bin_chunk a chunk).sbinmap (size / 8) ≡ true)
      × Ring (bin_chunk a chunk).links ((bin_chunk a chunk).sbin (size / 8)) (chunk ∷ zs)
unfolding bin_chunk
bin_chunk-small a chunk size zs e small ring nz out =
    let test : ltb size 256 ≡ true = ground arith in
    let here : (size / 8 == size / 8) ≡ true = ground arith in
    rw e (
      rw test
        (rw here (refl, kmalloc_dllist_add-Ring a.links chunk (a.sbin (size / 8)) zs ring nz out)))

kmalloc_tree_insert-root :
    (a : Arena) (chunk root depth : ℕ)
    → (depth == 0) ≡ false
    → chunk ≢ 0
    → (kmalloc_tree_insert a chunk root depth).1 ≡ (if root == 0 then chunk else root)
unfolding kmalloc_tree_insert
kmalloc_tree_insert-root a chunk root depth deep nz = ground arith

-- The tree bin of a large chunk is not empty: the chunk is its root if it was empty.
pub bin_chunk-large :
    (a : Arena) (chunk size : ℕ)
    → get_chunk_size a chunk ≡ size
    → 256 ≤ size
    → chunk ≢ 0
    → ((bin_chunk a chunk).tbinmap (calc_tbin size) ≡ true)
      × ((bin_chunk a chunk).tbin (calc_tbin size)
          ≡ (if a.tbin (calc_tbin size) == 0 then chunk else a.tbin (calc_tbin size)))
unfolding bin_chunk
bin_chunk-large a chunk size e large nz =
    let i = calc_tbin size in
    let test : ltb size 256 ≡ false = ground arith in
    let here : (i == i) ≡ true = ground arith in
    let deep : (tbin_depth i == 0) ≡ false = ground arith in
    rw e (
      rw test (
        rw here (
          refl,
          kmalloc_tree_insert-root (record a { index = upd a.index chunk i }) chunk (a.tbin i)
              (tbin_depth i) deep nz,
        )))
