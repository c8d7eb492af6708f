-- ===== src/Chain.antt =====
-- Linked lists of the kernel's tables: pointers are numbers, 0 is NULL, and `next` is the link
-- field that a list runs through (`next_ready`, `message_q_next` or `timer_next` of task_t).
use elco_os.Base.{
  ℕ, ◌≡◌, ◌≢◌, ◌≤◌, refl, ◌∙◌, sym, false, List, [], ◌∷◌, ◌++◌, arith, ◌∈◌, ◌∉◌, last_or,
  DistinctIn, inl, inr, eq-cases, ◌==◌, ==_iff, last_or-mem, has-append,
}

abbrev pub Ptr : Type 0
Ptr = ℕ

abbrev pub null : Ptr
null = 0

-- from `p` the links lead through the distinct entries `xs` to NULL
abbrev pub Chain : (Ptr → Ptr) → Ptr → List Ptr → Type 0
Chain next p [] = p ≡ null
Chain next p (x ∷ xs) = (p ≡ x) × (x ≢ null) × (x ∉ xs) × Chain next (next x) xs

-- A chain survives any change of links outside it.
pub Chain-frame :
    (f g : Ptr → Ptr) (p : Ptr) (xs : List Ptr)
    → Chain f p xs
    → ((a : Ptr) → a ∈ xs → g a ≡ f a)
    → Chain g p xs
Chain-frame f g p [] c same = c
Chain-frame f g p (x ∷ xs) (e, ne, out, c) same = (
  e,
  ne,
  out,
  Chain-frame f g (g x) xs (rw (same x (ground arith)) c) (λ a i. same a (ground arith)),
)

pub null-not-mem : (f : Ptr → Ptr) (p : Ptr) (xs : List Ptr) → Chain f p xs → null ∉ xs
null-not-mem f p [] c = refl
null-not-mem f p (x ∷ xs) (e, ne, out, c) = ground (arith, null-not-mem f (f x) xs c)

-- A chain from NULL is empty.
pub Chain-null : (f : Ptr → Ptr) (p : Ptr) (xs : List Ptr) → Chain f p xs → p ≡ null → xs ≡ []
Chain-null f p [] c e = refl
Chain-null f p (x ∷ xs) (e', ne, out, c) e = absurd (ne (sym e' ∙ e))

-- A chain from elsewhere starts there.
pub Chain-start :
    (f : Ptr → Ptr) (p : Ptr) (xs : List Ptr)
    → Chain f p xs
    → p ≢ null
    → (ys : List Ptr) × (xs ≡ p ∷ ys)
Chain-start f p [] c ne = absurd (ne c)
Chain-start f p (x ∷ xs) (e, n, out, c) ne = (xs, rw e)

pub not-mem_of_eq : (x y : Ptr) (xs : List Ptr) → x ∉ xs → y ∈ xs → (x == y) ≡ false
not-mem_of_eq x y xs out i = elim (eq-cases x y) [
  | inl e ↦ absurd (cc (rw (← (==_iff x y).0 e) at i))
  | inr ne ↦ ne
]

-- Hanging a new entry behind the last one.
pub Chain-snoc :
    (f g : Ptr → Ptr) (p x t : Ptr) (xs : List Ptr)
    → Chain f p (x ∷ xs)
    → t ≢ null
    → t ∉ x ∷ xs
    → g t ≡ null
    → g (last_or x xs) ≡ t
    → ((a : Ptr) → (a == last_or x xs) ≡ false → a ∈ x ∷ xs → g a ≡ f a)
    → Chain g p ((x ∷ xs) ++ t ∷ [])
Chain-snoc f g p x t [] (e, ne, out, c) tn fresh end link same =
    (e, ne, ground arith, (link, tn, refl, end))
Chain-snoc f g p x t (y ∷ ys) (e, ne, out, c) tn fresh end link same =
    let apart : (x == last_or y ys) ≡ false =
      not-mem_of_eq x (last_or y ys) (y ∷ ys) out (last_or-mem y ys) in
    let step : g x ≡ y = same x apart (ground arith) ∙ c.0 in
    (
      e,
      ne,
      has-append x (y ∷ ys) (t ∷ []) ∙ ground arith,
      Chain-snoc f g (g x) y t ys (step, c.1, c.2, c.3) tn (ground arith) end link
          (λ a n i. same a n (ground arith)),
    )

-- A chain of entries of a table with slots 1 .. n has at most n entries.
pub Chain-DistinctIn :
    (n : ℕ) (f : Ptr → Ptr) (p : Ptr) (xs : List Ptr)
    → Chain f p xs
    → ((a : Ptr) → a ∈ xs → a ≤ n)
    → DistinctIn n xs
Chain-DistinctIn n f p [] c small = tt
Chain-DistinctIn n f p (x ∷ xs) (e, ne, out, c) small = (
  omega arith,
  small x (ground arith),
  out,
  Chain-DistinctIn n f (f x) xs c (λ a i. small a (ground arith)),
)
