-- ===== src/Kmalloc/Dllist/Ring.antt =====
-- The circular lists of kmalloc_dllist.c stand for lists of chunks.
pub mod Add
pub mod Remove
use mathlib.Core.Path.{subst}
use elco_os.Base.{
  ℕ, ◌⊎◌, ◌≡◌, ◌≢◌, refl, sym, ap, ◌∙◌, inl, inr, false, List, [], ◌∷◌, ◌++◌, arith, ◌∈◌, ◌∉◌,
  has-append, erase, not-mem-erase, last_or, last_or-mem, if◌then◌else◌, ◌==◌, ==_iff, eq-cases,
  upd,
}
use elco_os.Chain.{not-mem_of_eq}
use elco_os.Kmalloc.Chunk.{Links}
use elco_os.Kmalloc.Dllist.{
  kmalloc_dllist_add, kmalloc_dllist_add_end, kmalloc_dllist_remove, kmalloc_dllist_remove_intern,
}

-- from `x` over the chunks `ys` to `z`, with the links in both directions
abbrev pub Linked : Links → ℕ → List ℕ → ℕ → Type 0
Linked l x [] z = (l.next x ≡ z) × (l.prev z ≡ x)
Linked l x (y ∷ ys) z = (l.next x ≡ y) × (l.prev y ≡ x) × Linked l y ys z

-- distinct chunks, none of them NULL
abbrev pub Chunks : List ℕ → Type 0
Chunks [] = Unit {0}
Chunks (x ∷ xs) = (x ≢ 0) × (x ∉ xs) × Chunks xs

-- The circular list with this head holds the chunks `xs`, first to last.
abbrev pub Ring : Links → ℕ → List ℕ → Type 0
Ring l head [] = head ≡ 0
Ring l head (x ∷ xs) = (head ≡ x) × Chunks (x ∷ xs) × Linked l x xs x

-- links elsewhere do not matter: `next` is read at all but the end, `prev` at all but the start
Linked-frame :
    (l l' : Links) (x : ℕ) (ys : List ℕ) (z : ℕ)
    → Linked l x ys z
    → ((a : ℕ) → a ∈ x ∷ ys → l'.next a ≡ l.next a)
    → ((a : ℕ) → a ∈ ys → l'.prev a ≡ l.prev a)
    → l'.prev z ≡ l.prev z
    → Linked l' x ys z
Linked-frame l l' x [] z (e, f) n p last = (n x (ground arith) ∙ e, last ∙ f)
Linked-frame l l' x (y ∷ ys) z (e, f, g) n p last = (
  n x (ground arith) ∙ e,
  p y (ground arith) ∙ f,
  Linked-frame l l' y ys z g (λ a i. n a (ground arith)) (λ a i. p a (ground arith)) last,
)

-- the chunk before the end
last-Linked : (l : Links) (x : ℕ) (ys : List ℕ) (z : ℕ) → Linked l x ys z → l.prev z ≡ last_or x ys
last-Linked l x [] z (e, f) = f
last-Linked l x (y ∷ ys) z (e, f, g) = last-Linked l y ys z g

-- The end moved to another chunk.
Linked-end :
    (l l' : Links) (x : ℕ) (ys : List ℕ) (z z' : ℕ)
    → Linked l x ys z
    → Chunks (x ∷ ys)
    → l'.next (last_or x ys) ≡ z'
    → l'.prev z' ≡ last_or x ys
    → ((a : ℕ) → a ∈ x ∷ ys → (a == last_or x ys) ≡ false → l'.next a ≡ l.next a)
    → ((a : ℕ) → a ∈ ys → l'.prev a ≡ l.prev a)
    → Linked l' x ys z'
Linked-end l l' x [] z z' (e, f) c n p keep_next keep_prev = (n, p)
Linked-end l l' x (y ∷ ys) z z' (e, f, g) (nz, out, c) n p keep_next keep_prev =
    let apart : (x == last_or y ys) ≡ false =
      not-mem_of_eq x (last_or y ys) (y ∷ ys) out (last_or-mem y ys) in
    (
      keep_next x (ground arith) apart ∙ e,
      keep_prev y (ground arith) ∙ f,
      Linked-end l l' y ys z z' g c n p (λ a i. keep_next a (ground arith))
          (λ a i. keep_prev a (ground arith)),
    )

-- What the function gives stands for a list, if the links and the head that it gives do.
abbrev pub Gives : Links × ℕ → List ℕ → Type 0
Gives r xs = Ring r.0 r.1 xs

abbrev pub Leaves : ℕ × Links × ℕ → List ℕ → Type 0
Leaves r xs = Ring r.1 r.2 xs
