-- ===== src/Kmalloc/Dllist.antt =====
-- kmalloc_dllist.c: circular lists of chunks. `kmchunk_ptr *head` is the head before, and the head
-- after in the result.
pub mod Ring
use elco_os.Base.{ℕ, Bool, if◌then◌else◌, ◌==◌, upd}
use elco_os.Kmalloc.Chunk.{Links}

abbrev pub set_next : Links → ℕ → ℕ → Links
set_next l c v = record l { next = upd l.next c v }

abbrev pub set_prev : Links → ℕ → ℕ → Links
set_prev l c v = record l { prev = upd l.prev c v }

unfoldable pub kmalloc_dllist_add : Links → (chunk head : ℕ) → Links × ℕ
kmalloc_dllist_add l chunk head =
    if head == 0
    then (set_prev (set_next l chunk chunk) chunk chunk, chunk)
    else (let prev = l.prev head in
        let l1 = set_prev (set_next l chunk head) chunk prev in
        (set_prev (set_next l1 prev chunk) head chunk, chunk))

unfoldable pub kmalloc_dllist_add_end : Links → (chunk head : ℕ) → Links
kmalloc_dllist_add_end l chunk head =
    if head == 0
    then l
    else (let prev = l.prev head in
        let l1 = set_next (set_prev l chunk prev) chunk head in
        set_prev (set_next l1 prev chunk) head chunk)

-- The result is the chunk that was removed, NULL for NULL.
unfoldable pub kmalloc_dllist_remove_intern : Links → (chunk head : ℕ) → ℕ × Links × ℕ
kmalloc_dllist_remove_intern l chunk head =
    let next = l.next chunk in
    let prev = l.prev chunk in
    if chunk == 0
    then (0, l, head)
    else if next == chunk
    then (chunk, l, 0)
    else (chunk, set_prev (set_next l prev next) next prev, if head == chunk then next else head)

unfoldable pub kmalloc_dllist_remove : Links → (head : ℕ) → ℕ × Links × ℕ
kmalloc_dllist_remove l head =
    let next = l.next head in
    let prev = l.prev head in
    if head == 0
    then (0, l, head)
    else if next == head
    then (head, l, 0)
    else (head, set_prev (set_next l prev next) next prev, next)
