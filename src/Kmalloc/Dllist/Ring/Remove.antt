-- ===== src/Kmalloc/Dllist/Ring/Remove.antt =====
-- Removing from a circular list, at the front and anywhere.
use mathlib.Core.Path.{subst}
use elco_os.Base.{
  ℕ, ◌⊎◌, ◌≡◌, ◌≢◌, refl, sym, ap, ◌∙◌, inl, inr, false, List, [], ◌∷◌, arith, ◌∈◌, ◌∉◌, erase,
  not-mem-erase, last_or, if◌then◌else◌, ◌==◌, ==_iff, eq-cases, upd,
}
use elco_os.Chain.{not-mem_of_eq}
use elco_os.Kmalloc.Chunk.{Links}
use elco_os.Kmalloc.Dllist.{kmalloc_dllist_remove, kmalloc_dllist_remove_intern}
use elco_os.Kmalloc.Dllist.Ring.{
  Linked, Chunks, Ring, Linked-frame, last-Linked, Linked-end, Leaves,
}

-- without the chunk between `prev` and `next`
abbrev unhooked : Links → (prev next : ℕ) → Links
unhooked l prev next = record { next = upd l.next prev next; prev = upd l.prev next prev }

-- The first chunk taken out: the second one is the first of the circle.
unhooked_first-Linked :
    (l : Links) (x y : ℕ) (ys : List ℕ)
    → Chunks (y ∷ ys)
    → Linked l y ys x
    → Linked (unhooked l (last_or y ys) y) y ys y
unhooked_first-Linked l x y ys c k =
    Linked-end l (unhooked l (last_or y ys) y) y ys x y k c (ground arith) (ground arith)
      (λ a i ne. ground arith) (λ a i. ground (arith, not-mem_of_eq y a ys c.1 i))

remove-run :
    (l : Links) (head : ℕ)
    → head ≢ 0
    → (l.next head == head) ≡ false
    → kmalloc_dllist_remove l head ≡ (head, unhooked l (l.prev head) (l.next head), l.next head)
unfolding kmalloc_dllist_remove
remove-run l head nz ne = ground arith

remove-run_one :
    (l : Links) (head : ℕ)
    → head ≢ 0
    → l.next head ≡ head
    → kmalloc_dllist_remove l head ≡ (head, l, 0)
unfolding kmalloc_dllist_remove
remove-run_one l head nz e = ground arith

-- Removing from the front of a list gives its first chunk, and leaves the others.
pub kmalloc_dllist_remove-Ring :
    (l : Links) (head x : ℕ) (xs : List ℕ)
    → Ring l head (x ∷ xs)
    → ((kmalloc_dllist_remove l head).0 ≡ x) × Leaves (kmalloc_dllist_remove l head) xs
kmalloc_dllist_remove-Ring l head x [] (e, c, k) =
    let run = ap (λ h. kmalloc_dllist_remove l h) e ∙ remove-run_one l x c.0 k.0 in
    subst (λ r. (r.0 ≡ x) × Leaves r []) (sym run) (refl, refl)
kmalloc_dllist_remove-Ring l head x (y ∷ ys) (e, c, (f, g, k)) =
    let run =
      ap (λ h. kmalloc_dllist_remove l h) e
      ∙ remove-run l x c.0 (ground arith)
      ∙ ap (λ n. (x, unhooked l (l.prev x) n, n)) f
      ∙ ap (λ p. (x, unhooked l p y, y)) (last-Linked l y ys x k) in
    subst (λ r. (r.0 ≡ x) × Leaves r (y ∷ ys)) (sym run)
      (refl, (refl, c.2, unhooked_first-Linked l x y ys c.2 k))

first-Linked :
    (l : Links) (x : ℕ) (ys : List ℕ) (z : ℕ) → Linked l x ys z → (l.next x ∈ ys) ⊎ (l.next x ≡ z)
first-Linked l x [] z k = inr k.0
first-Linked l x (y ∷ ys) z k = inl (ground (arith, k.0))

Or_suc :
    (l : Links) (y : ℕ) (ys : List ℕ) (z : ℕ)
    → (l.next y ∈ ys) ⊎ (l.next y ≡ z)
    → (l.next y ∈ y ∷ ys) ⊎ (l.next y ≡ z)
Or_suc l y ys z h = ground arith

-- the neighbours of a chunk in the middle
neighbours :
    (l : Links) (c x : ℕ) (ys : List ℕ) (z : ℕ)
    → Linked l x ys z
    → c ∈ ys
    → (l.prev c ∈ x ∷ ys) × ((l.next c ∈ ys) ⊎ (l.next c ≡ z))
neighbours l c x [] z k i = absurd (ground arith)
neighbours l c x (y ∷ ys) z (e, f, g) i = elim (eq-cases c y) [
  | inl same ↦
      let at : c ≡ y = (==_iff c y).0 same in
      subst (λ q. (l.prev q ∈ x ∷ y ∷ ys) × ((l.next q ∈ y ∷ ys) ⊎ (l.next q ≡ z))) (sym at)
        (ground (arith, f), Or_suc l y ys z (first-Linked l y ys z g))
  | inr ne ↦
      let (before, after) = neighbours l c y ys z g (ground arith) in (ground arith, ground arith)
]

skip-Linked :
    (l : Links) (x y : ℕ) (ys : List ℕ) (z : ℕ)
    → Linked l x (y ∷ ys) z
    → Chunks (x ∷ y ∷ ys)
    → z ∉ y ∷ ys
    → Linked (unhooked l (l.prev y) (l.next y)) x ys z
skip-Linked l x y [] z (e, f, g) d zo = (ground arith, ground arith)
skip-Linked l x y (w ∷ ws) z (e, f, (g, h, k)) d zo =
    let l' = unhooked l (l.prev y) (l.next y) in
    (
      ground arith,
      ground arith,
      Linked-frame l l' w ws z k
          (λ a i. ground (arith, not-mem_of_eq x a (w ∷ ws) (ground arith) i))
          (λ a i. ground (arith, not-mem_of_eq w a ws d.2.2.1 i)) (ground arith),
    )

not_next :
    (l : Links) (c y : ℕ) (ys : List ℕ) (z : ℕ)
    → y ∉ ys
    → z ∉ y ∷ ys
    → (l.next c ∈ ys) ⊎ (l.next c ≡ z)
    → (y == l.next c) ≡ false
not_next l c y ys z out zo (inl i) = not-mem_of_eq y (l.next c) ys out i
not_next l c y ys z out zo (inr e) = ground arith

-- A chunk in the middle taken out of the circle; `z` closes it.
Linked-erase :
    (l : Links) (c x : ℕ) (ys : List ℕ) (z : ℕ)
    → Linked l x ys z
    → Chunks (x ∷ ys)
    → z ∉ ys
    → c ∈ ys
    → Linked (unhooked l (l.prev c) (l.next c)) x (erase c ys) z
Linked-erase l c x [] z k d zo i = absurd (ground arith)
Linked-erase l c x (y ∷ ys) z (e, f, g) d zo i = elim (eq-cases c y) [
  | inl same ↦
      let at : c ≡ y = (==_iff c y).0 same in
      rw same (
        subst (λ q. Linked (unhooked l (l.prev q) (l.next q)) x ys z) (sym at)
          (skip-Linked l x y ys z (e, f, g) d zo))
  | inr ne ↦
      let around = neighbours l c y ys z g (ground arith) in
      let rest = Linked-erase l c y ys z g d.2 (ground arith) (ground arith) in
      let far : (x == l.prev c) ≡ false = not-mem_of_eq x (l.prev c) (y ∷ ys) d.1 around.0 in
      rw ne (ground arith, ground (arith, f, not_next l c y ys z d.2.1 zo around.1), rest)
]

intern-run :
    (l : Links) (chunk head : ℕ)
    → chunk ≢ 0
    → (l.next chunk == chunk) ≡ false
    → kmalloc_dllist_remove_intern l chunk head ≡ (
      chunk,
      unhooked l (l.prev chunk) (l.next chunk),
      if head == chunk then l.next chunk else head,
    )
unfolding kmalloc_dllist_remove_intern
intern-run l chunk head nz ne = ground arith

intern-run_one :
    (l : Links) (chunk head : ℕ)
    → chunk ≢ 0
    → l.next chunk ≡ chunk
    → kmalloc_dllist_remove_intern l chunk head ≡ (chunk, l, 0)
unfolding kmalloc_dllist_remove_intern
intern-run_one l chunk head nz e = ground arith

-- the first chunk of the list
intern-first :
    (l : Links) (head x : ℕ) (xs : List ℕ)
    → Ring l head (x ∷ xs)
    → Leaves (kmalloc_dllist_remove_intern l x head) xs
intern-first l head x [] (e, c, k) =
    subst (λ r. Leaves r []) (sym (intern-run_one l x head c.0 k.0)) refl
intern-first l head x (y ∷ ys) (e, c, (f, g, k)) =
    let run =
      intern-run l x head c.0 (ground arith)
      ∙ ap (λ n. (x, unhooked l (l.prev x) n, if head == x then n else head)) f
      ∙ ap (λ p. (x, unhooked l p y, if head == x then y else head)) (last-Linked l y ys x k) in
    subst (λ r. Leaves r (y ∷ ys)) (sym run)
      (ground arith, c.2, unhooked_first-Linked l x y ys c.2 k)

Chunks-erase : (c : ℕ) (xs : List ℕ) → Chunks xs → Chunks (erase c xs)
Chunks-erase c [] k = tt
Chunks-erase c (x ∷ xs) (nz, out, k) = elim (eq-cases c x) [
  | inl e ↦ rw e k
  | inr ne ↦ rw ne (nz, not-mem-erase c x xs out, Chunks-erase c xs k)
]

Chunks-ne : (c : ℕ) (xs : List ℕ) → Chunks xs → c ∈ xs → c ≢ 0
Chunks-ne c [] k i = absurd (ground arith)
Chunks-ne c (x ∷ xs) (nz, out, k) i = ground (arith, Chunks-ne c xs k)

-- a chunk in the middle is not the one behind itself
moves_on :
    (l : Links) (c x : ℕ) (ys : List ℕ) (z : ℕ)
    → Linked l x ys z
    → Chunks ys
    → z ∉ ys
    → c ∈ ys
    → (l.next c == c) ≡ false
moves_on l c x [] z k d zo i = absurd (ground arith)
moves_on l c x (y ∷ ys) z (e, f, g) d zo i = elim (eq-cases c y) [
  | inl same ↦
      let at : c ≡ y = (==_iff c y).0 same in
      let far = not_next l y y ys z d.1 zo (first-Linked l y ys z g) in
      subst (λ q. (l.next q == q) ≡ false) (sym at) (ground arith)
  | inr ne ↦ moves_on l c y ys z g d.2 (ground arith) (ground arith)
]

-- Removing a chunk, wherever it stands in the list, leaves the other chunks in their order; the
-- head is the first of them, NULL if none is left.
pub kmalloc_dllist_remove_intern-Ring :
    (l : Links) (chunk head : ℕ) (xs : List ℕ)
    → Ring l head xs
    → chunk ∈ xs
    → Leaves (kmalloc_dllist_remove_intern l chunk head) (erase chunk xs)
kmalloc_dllist_remove_intern-Ring l chunk head [] r i = absurd (ground arith)
kmalloc_dllist_remove_intern-Ring l chunk head (x ∷ xs) (e, c, k) i = elim (eq-cases chunk x) [
  | inl same ↦ rw same (
      subst (λ q. Leaves (kmalloc_dllist_remove_intern l q head) xs) (sym ((==_iff chunk x).0 same))
        (intern-first l head x xs (e, c, k)))
  | inr ne ↦
      let inside : chunk ∈ xs = ground arith in
      let run =
        intern-run l chunk head (Chunks-ne chunk xs c.2 inside)
          (moves_on l chunk x xs x k c.2 c.1 inside) in
      rw ne (
        subst (λ r. Leaves r (x ∷ erase chunk xs)) (sym run)
          (
            ground arith,
            (c.0, not-mem-erase chunk x xs c.1, Chunks-erase chunk xs c.2),
            Linked-erase l chunk x xs x k c c.1 inside,
          ))
]
