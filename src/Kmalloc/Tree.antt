-- ===== src/Kmalloc/Tree.antt =====
-- kmalloc_tree.c: the large chunks of a bin, by the bits of their sizes; chunks of one size form a
-- circular list, whose first one stands in the tree. `ktchunk_ptr *root` is the root before, and the
-- root after in the result; it is the address of a bin and never NULL. `none` stands for a shift by
-- a negative count, and for a loop that leaves the 32 levels that the bits of a size allow.
use elco_os.Base.{
  ℕ, zero, suc, ◌/◌, ◌%◌, ◌^◌, Bool, ◌&&◌, ◌||◌, not, Option, none, some, ◌>>=◌, if◌then◌else◌,
  ◌==◌, ltb, upd,
}
use elco_os.Kmalloc.Chunk.{Arena, get_chunk_size}
use elco_os.Kmalloc.Dllist.{set_next, set_prev, kmalloc_dllist_add_end}

abbrev pub ktchunk_is_leave : Arena → ℕ → Bool
ktchunk_is_leave a c = (a.left c == 0) && (a.right c == 0)

abbrev pub ktchunk_is_in_list : Arena → ℕ → Bool
ktchunk_is_in_list a c = not (a.links.next c == c) && not (a.links.prev c == c)

abbrev pub ktchunk_is_in_tree : Arena → ℕ → Bool
ktchunk_is_in_tree a c = not (a.left c == 0) || not (a.right c == 0) || not (a.parent c == 0)

abbrev pub set_left : Arena → ℕ → ℕ → Arena
set_left a c v = record a { left = upd a.left c v }

abbrev pub set_right : Arena → ℕ → ℕ → Arena
set_right a c v = record a { right = upd a.right c v }

abbrev pub set_parent : Arena → ℕ → ℕ → Arena
set_parent a c v = record a { parent = upd a.parent c v }

-- `if (p != NULL) p->parent = v;`
abbrev pub set_parent_of : Arena → ℕ → ℕ → Arena
set_parent_of a p v = if p == 0 then a else set_parent a p v

unfoldable pub ktchunk_replace_head : Arena → (old new : ℕ) → Arena
ktchunk_replace_head a old new =
    let a1 = set_parent a new (a.parent old) in
    let a2 = set_left a1 new (a1.left old) in
    let a3 = set_right a2 new (a2.right old) in
    let l1 = set_prev a3.links new (a3.links.prev old) in
    let a4 = record a3 { links = set_next l1 (l1.prev old) new } in
    let a5 = set_parent_of a4 (a4.left new) new in set_parent_of a5 (a5.right new) new

unfoldable pub ktchunk_update_parent : Arena → (chunk newchild : ℕ) → Arena
ktchunk_update_parent a chunk newchild =
    let p = a.parent chunk in
    if a.left p == chunk then set_left a p newchild else set_right a p newchild

-- size & (1 << bit)
abbrev pub goes_right : (size bit : ℕ) → Bool
goes_right size bit = size / 2 ^ bit % 2 == 1

-- the loop of kmalloc_tree_insert at `cur`, which is not NULL
unfoldable pub insert_loop : ℕ → Arena → (chunk cur : ℕ) → Arena
insert_loop zero a chunk cur =
    if get_chunk_size a chunk == get_chunk_size a cur
    then (let a1 = set_parent a chunk 0 in
        record a1 { links = kmalloc_dllist_add_end a1.links chunk cur })
    else a
insert_loop (suc depth) a chunk cur =
    let size = get_chunk_size a chunk in
    let below = if goes_right size depth then a.right cur else a.left cur in
    let rest = insert_loop depth a chunk below in
    if size == get_chunk_size a cur
    then (let a1 = set_parent a chunk 0 in
        record a1 { links = kmalloc_dllist_add_end a1.links chunk cur })
    else if below == 0
    then (let a1 = set_parent a chunk cur in
        if goes_right size depth then set_right a1 cur chunk else set_left a1 cur chunk)
    else rest

unfoldable pub kmalloc_tree_insert : Arena → (chunk root depth : ℕ) → Arena × ℕ
kmalloc_tree_insert a chunk root depth =
    if (depth == 0) || (chunk == 0)
    then (a, root)
    else (let a1 = record a { links = set_next (set_prev a.links chunk chunk) chunk chunk } in
        let a2 = set_left (set_right a1 chunk 0) chunk 0 in
        if root == 0
        then (set_parent a2 chunk 0, chunk)
        else (insert_loop depth a2 chunk root, root))

abbrev pub levels : ℕ
levels = 32

-- the left-most leaf below
unfoldable pub leave_below : ℕ → Arena → ℕ → Option ℕ
leave_below zero a c = none
leave_below (suc fuel) a c =
    let rest = leave_below fuel a (if a.left c == 0 then a.right c else a.left c) in
    if ktchunk_is_leave a c then some c else rest

-- `chunk` stands in the list of its size
unfoldable pub remove_from_list : Arena → (chunk root : ℕ) → Arena × ℕ
remove_from_list a chunk root =
    let next = a.links.next chunk in
    if chunk == root
    then (ktchunk_replace_head a chunk next, next)
    else if ktchunk_is_in_tree a chunk
    then (ktchunk_update_parent (ktchunk_replace_head a chunk next) chunk next, root)
    else (let l1 = set_next a.links (a.links.prev chunk) (a.links.next chunk) in
        (record a { links = set_prev l1 (l1.next chunk) (l1.prev chunk) }, root))

-- `replacement` takes the place of `chunk` in the tree
unfoldable pub replace_node : Arena → (chunk replacement root : ℕ) → Arena × ℕ
replace_node a chunk replacement root =
    let a1 = ktchunk_update_parent a replacement 0 in
    let a2 = set_left a1 replacement (a1.left chunk) in
    let a3 = set_parent_of a2 (a2.left replacement) replacement in
    let a4 = set_right a3 replacement (a3.right chunk) in
    let a5 = set_parent_of a4 (a4.right replacement) replacement in
    let a6 = set_parent a5 replacement (a5.parent chunk) in
    if a6.parent replacement == 0
    then (a6, replacement)
    else (ktchunk_update_parent a6 chunk replacement, root)

unfoldable pub kmalloc_tree_remove : Arena → (chunk root : ℕ) → Option (Arena × ℕ)
kmalloc_tree_remove a chunk root =
    if chunk == 0
    then some (a, root)
    else if ktchunk_is_in_list a chunk
    then some (remove_from_list a chunk root)
    else if ktchunk_is_leave a chunk
    then some (if a.parent chunk == 0 then (a, 0) else (ktchunk_update_parent a chunk 0, root))
    else (do replacement ← leave_below levels a chunk; some (replace_node a chunk replacement root))

-- the loop of kmalloc_tree_get_smallest, with the smallest chunk so far
unfoldable pub smallest_loop : ℕ → Arena → (cur smallest : ℕ) → Option ℕ
smallest_loop zero a cur smallest = none
smallest_loop (suc fuel) a cur smallest =
    let below = if a.left cur == 0 then a.right cur else a.left cur in
    let rest =
      smallest_loop fuel a below
        (if ltb (get_chunk_size a below) (get_chunk_size a smallest) then below else smallest) in
    if ktchunk_is_leave a cur then some smallest else rest

unfoldable pub kmalloc_tree_get_smallest : Arena → ℕ → Option ℕ
kmalloc_tree_get_smallest a chunk =
    if chunk == 0 then some 0 else smallest_loop levels a chunk chunk

-- where the way down of kmalloc_tree_get_best_fit ends
pub data Descent : Type 0 where
  exact : ℕ → Descent
  missed : (parent smallest : ℕ) → Descent

-- the better one of the smallest fit so far, NULL for none, and the chunk at hand
abbrev pub better : Arena → (size cur smallest : ℕ) → ℕ
better a size cur smallest =
    if ltb size (get_chunk_size a cur)
      && ((smallest == 0) || ltb (get_chunk_size a cur) (get_chunk_size a smallest))
    then cur
    else smallest

-- the way down at `cur`, which is not NULL
unfoldable pub descend : ℕ → Arena → (size cur smallest : ℕ) → Option Descent
descend zero a size cur smallest = if size == get_chunk_size a cur then some (exact cur) else none
descend (suc depth) a size cur smallest =
    let smallest' = better a size cur smallest in
    let below = if goes_right size depth then a.right cur else a.left cur in
    let rest = descend depth a size below smallest' in
    if size == get_chunk_size a cur
    then some (exact cur)
    else if below == 0
    then some (missed cur smallest')
    else rest

-- the way up, until the smallest fit is met or a subtree lies to the right
unfoldable pub climb : ℕ → Arena → (cur parent smallest : ℕ) → Option ℕ
climb zero a cur parent smallest = none
climb (suc fuel) a cur parent smallest =
    let rest = climb fuel a parent (a.parent parent) smallest in
    if (a.right parent == 0) || (a.right parent == cur)
    then (if parent == smallest then some parent else if a.parent parent == 0 then some 0 else rest)
    else kmalloc_tree_get_smallest a (a.right parent)

unfoldable pub kmalloc_tree_get_best_fit : Arena → (size root depth : ℕ) → Option ℕ
kmalloc_tree_get_best_fit a size root depth =
    if (depth == 0) || (root == 0)
    then some 0
    else (descend depth a size root 0 >>= λ d. elim d [
      | exact c ↦ some c
      | missed parent smallest ↦ climb levels a 0 parent smallest
    ])
