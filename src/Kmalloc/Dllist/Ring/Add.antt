-- ===== src/Kmalloc/Dllist/Ring/Add.antt =====
-- Adding to a circular list, in front and at the end.
use mathlib.Core.Path.{subst}
use elco_os.Base.{
  ℕ, ◌≡◌, ◌≢◌, refl, sym, ap, ◌∙◌, false, List, [], ◌∷◌, ◌++◌, arith, ◌∉◌, has-append, last_or,
  last_or-mem, ◌==◌, upd,
}
use elco_os.Chain.{not-mem_of_eq}
use elco_os.Kmalloc.Chunk.{Links}
use elco_os.Kmalloc.Dllist.{kmalloc_dllist_add, kmalloc_dllist_add_end}
use elco_os.Kmalloc.Dllist.Ring.{Linked, Chunks, Ring, last-Linked, Linked-end, Gives}

-- `chunk` between the chunks `last` and `x`
abbrev hooked : Links → (chunk last x : ℕ) → Links
hooked l chunk last x = record {
  next = upd (upd l.next chunk x) last chunk;
  prev = upd (upd l.prev chunk last) x chunk;
}

hooked-Linked :
    (l : Links) (chunk x : ℕ) (xs : List ℕ)
    → Chunks (x ∷ xs)
    → Linked l x xs x
    → chunk ∉ x ∷ xs
    → Linked (hooked l chunk (last_or x xs) x) x xs chunk
hooked-Linked l chunk x xs c k out =
    let other = not-mem_of_eq chunk (last_or x xs) (x ∷ xs) out (last_or-mem x xs) in
    Linked-end l (hooked l chunk (last_or x xs) x) x xs x chunk k c (ground arith) (ground arith)
      (λ a i ne. ground (arith, not-mem_of_eq chunk a (x ∷ xs) out i))
      (λ a i.
        ground
          (arith, not-mem_of_eq chunk a (x ∷ xs) out (ground arith), not-mem_of_eq x a xs c.1 i))

hooked-ends :
    (l : Links) (chunk x : ℕ) (xs : List ℕ)
    → chunk ∉ x ∷ xs
    → let l' = hooked l chunk (last_or x xs) x in (l'.next chunk ≡ x) × (l'.prev x ≡ chunk)
hooked-ends l chunk x xs out =
    ground (arith, not-mem_of_eq chunk (last_or x xs) (x ∷ xs) out (last_or-mem x xs))

add-run :
    (l : Links) (chunk head : ℕ)
    → head ≢ 0
    → kmalloc_dllist_add l chunk head ≡ (hooked l chunk (l.prev head) head, chunk)
unfolding kmalloc_dllist_add
add-run l chunk head nz = ground arith

add_first-Ring :
    (l : Links) (chunk head : ℕ)
    → head ≡ 0
    → chunk ≢ 0
    → Gives (kmalloc_dllist_add l chunk head) (chunk ∷ [])
unfolding kmalloc_dllist_add
add_first-Ring l chunk head e nz = rw e (refl, (nz, refl, tt), (ground arith, ground arith))

Linked-snoc :
    (l : Links) (x : ℕ) (ys : List ℕ) (c z : ℕ)
    → Linked l x ys c
    → l.next c ≡ z
    → l.prev z ≡ c
    → Linked l x (ys ++ c ∷ []) z
Linked-snoc l x [] c z (e, f) n p = (e, f, (n, p))
Linked-snoc l x (y ∷ ys) c z (e, f, g) n p = (e, f, Linked-snoc l y ys c z g n p)

-- Adding in front of a list: the chunk is its new head.
pub kmalloc_dllist_add-Ring :
    (l : Links) (chunk head : ℕ) (xs : List ℕ)
    → Ring l head xs
    → chunk ≢ 0
    → chunk ∉ xs
    → Gives (kmalloc_dllist_add l chunk head) (chunk ∷ xs)
kmalloc_dllist_add-Ring l chunk head [] e nz out = add_first-Ring l chunk head e nz
kmalloc_dllist_add-Ring l chunk head (x ∷ xs) (e, c, k) nz out =
    let run =
      ap (λ h. kmalloc_dllist_add l chunk h) e
      ∙ add-run l chunk x c.0
      ∙ ap (λ p. (hooked l chunk p x, chunk)) (last-Linked l x xs x k) in
    let ends = hooked-ends l chunk x xs out in
    subst (λ r. Gives r (chunk ∷ x ∷ xs)) (sym run)
      (refl, (nz, out, c), (ends.0, ends.1, hooked-Linked l chunk x xs c k out))

Chunks-snoc : (c : ℕ) (xs : List ℕ) → Chunks xs → c ≢ 0 → c ∉ xs → Chunks (xs ++ c ∷ [])
Chunks-snoc c [] k nz out = (nz, refl, tt)
Chunks-snoc c (x ∷ xs) (xnz, fresh, k) nz out =
    (xnz, has-append x xs (c ∷ []) ∙ ground arith, Chunks-snoc c xs k nz (ground arith))

add_end-run :
    (l : Links) (chunk head : ℕ)
    → head ≢ 0
    → (head == chunk) ≡ false
    → kmalloc_dllist_add_end l chunk head ≡ hooked l chunk (l.prev head) head
unfolding kmalloc_dllist_add_end
add_end-run l chunk head nz ne = ground arith

-- Adding at the end of a list that is not empty: the head stays.
pub kmalloc_dllist_add_end-Ring :
    (l : Links) (chunk head x : ℕ) (xs : List ℕ)
    → Ring l head (x ∷ xs)
    → chunk ≢ 0
    → chunk ∉ x ∷ xs
    → Ring (kmalloc_dllist_add_end l chunk head) head (x ∷ xs ++ chunk ∷ [])
kmalloc_dllist_add_end-Ring l chunk head x xs (e, c, k) nz out =
    let run =
      ap (λ h. kmalloc_dllist_add_end l chunk h) e
      ∙ add_end-run l chunk x c.0 (ground arith)
      ∙ ap (λ p. hooked l chunk p x) (last-Linked l x xs x k) in
    let ends = hooked-ends l chunk x xs out in
    subst (λ r. Ring r head (x ∷ xs ++ chunk ∷ [])) (sym run)
      (
        e,
        Chunks-snoc chunk (x ∷ xs) c nz out,
        Linked-snoc (hooked l chunk (last_or x xs) x) x xs chunk x
            (hooked-Linked l chunk x xs c k out) ends.0 ends.1,
      )
