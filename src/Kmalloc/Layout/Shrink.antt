-- ===== src/Kmalloc/Layout/Shrink.antt =====
-- The top chunk gives memory back.
use mathlib.Core.Path.{subst}
use elco_os.Base.{
  ℕ, ◌+◌, ◌-◌, ◌%◌, ◌^◌, ◌≡◌, ◌≤◌, ◌<◌, ◌⊎◌, if◌then◌else◌, refl, sym, ap, ◌∙◌, Bool, true, false,
  ◌&&◌, List, [], ◌∷◌, ◌++◌, arith, ◌==◌, ltb, leb, Bool-cases, inl, inr,
}
use elco_os.Kmalloc.Chunk.{Arena, sub32, next_chunk, set_header, set_pinuse}
use elco_os.Kmalloc.Top.{lower_top, shrink_top, action_sbrk, decrease_of}
use elco_os.Kmalloc.Top.Resize.{decrease_of_bounds}
use elco_os.Kmalloc.Layout.{
  Block, Tagged, Tagged-from, Tagged-replace, tag, total, used_after, keeps,
}

lower_top-places :
    (a : Arena) (gone size : ℕ)
    → a.top_chunk_size ≡ size + gone
    → a.top_chunk_size ≤ a.heap_size
    → a.heap_size < 2 ^ 31
    → size % 8 ≡ 0
    → 8 ≤ size
    → ((lower_top a gone).top_chunk ≡ a.top_chunk)
      × ((lower_top a gone).top_chunk_size ≡ size)
      × ((lower_top a gone).heap_size ≡ a.heap_size - gone)
      × ((lower_top a gone).header a.top_chunk ≡ tag size false true)
      × ((lower_top a gone).prev_foot (a.top_chunk + size) ≡ size)
      × ((x : ℕ) → x < a.top_chunk → (lower_top a gone).header x ≡ a.header x)
      × ((x : ℕ) → x ≤ a.top_chunk → (lower_top a gone).prev_foot x ≡ a.prev_foot x)
unfolding lower_top
lower_top-places a gone size e fits word al pos =
    let rest : sub32 a.top_chunk_size gone ≡ size = ground arith in
    let heap : sub32 a.heap_size gone ≡ a.heap_size - gone = ground arith in
    let some_left : (size == 0) ≡ false = ground arith in
    let a1 =
      set_header (record a { heap_size = a.heap_size - gone; top_chunk_size = size }) a.top_chunk
        (set_pinuse size) in
    let far : next_chunk a1 a.top_chunk ≡ a.top_chunk + size = ground arith in
    rw rest (
      rw heap (
        rw some_left (
          rw far (
            refl,
            refl,
            refl,
            ground arith,
            ground arith,
            λ x lt. ground arith,
            λ x le. ground arith,
          ))))

-- the tail, of no answers none
abbrev later : List Bool → List Bool
later [] = []
later (answer ∷ rest) = rest

action_sbrk-run :
    (a : Arena) (n : ℕ) (answers : List Bool)
    → a.answers ≡ answers
    → (action_sbrk a n).1 ≡ record a { requests = n ∷ a.requests; answers = later answers }
unfolding action_sbrk
action_sbrk-run a n [] e = rw e refl
action_sbrk-run a n (answer ∷ rest) e = rw e refl

-- The heap `a'` is the heap `a`, whose last block is the top chunk, without its last `gone` bytes:
-- a multiple of 4096 bytes that leaves the initial size.
abbrev pub Lowered :
    (before : Bool) (c : ℕ) (xs : List Block) (end : ℕ) → Arena → (gone : ℕ) → Arena → Type 0
Lowered before c xs end a gone a' =
    (gone % 4096 ≡ 0)
    × (a.initial_heap_size + gone ≤ a.heap_size)
    × (a'.heap_size ≡ a.heap_size - gone)
    × (a'.top_chunk ≡ a.top_chunk)
    × (a'.top_chunk_size + gone ≡ a.top_chunk_size)
    × Tagged a' before c (xs ++ (a'.top_chunk_size, false) ∷ []) (end - gone)

-- the next answer of sbrk; of no answers, a refusal
abbrev pub grants : List Bool → Bool
grants [] = false
grants (answer ∷ rest) = answer

-- What the heap asks sbrk to take, the largest multiple of 4096 bytes that leaves the heap its initial
-- size and the top chunk 4096 bytes, and what is taken: all of it if sbrk grants it, else nothing. If
-- that multiple is 0, sbrk is not called.
abbrev pub Asked : Arena → (gone : ℕ) → Arena → Type 0
Asked a gone a' =
    (wanted : ℕ) × (wanted % 4096 ≡ 0)
    × (a.initial_heap_size + wanted ≤ a.heap_size)
    × ((wanted ≡ 0) ⊎ (wanted + 4096 ≤ a.top_chunk_size))
    × ((a.top_chunk_size < wanted + 8192) ⊎ (a.initial_heap_size + wanted ≡ a.heap_size))
    × (((wanted ≡ 0) × (gone ≡ 0) × (a'.requests ≡ a.requests))
        ⊎ ((0 < wanted)
            × (a'.requests ≡ (2 ^ 32 - wanted) ∷ a.requests)
            × (gone ≡ (if grants a.answers then wanted else 0))))

-- both
abbrev pub Shrunk :
    (before : Bool) (c : ℕ) (xs : List Block) (end : ℕ) → Arena → (gone : ℕ) → Arena → Type 0
Shrunk before c xs end a gone a' = Lowered before c xs end a gone a' × Asked a gone a'

lower_top-Lowered :
    (a : Arena) (before : Bool) (c gone : ℕ) (xs : List Block) (end : ℕ)
    → Tagged a before c (xs ++ (a.top_chunk_size, false) ∷ []) end
    → used_after before xs ≡ true
    → a.top_chunk ≡ c + total xs
    → a.top_chunk_size ≤ a.heap_size
    → a.heap_size < 2 ^ 31
    → gone % 4096 ≡ 0
    → a.initial_heap_size + gone ≤ a.heap_size
    → gone + 8 ≤ a.top_chunk_size
    → Lowered before c xs end a gone (lower_top a gone)
lower_top-Lowered a before c gone xs end t used at fits word al keep left =
    let size = a.top_chunk_size - gone in
    let (e, al', pos, g, far) = Tagged-from a before c xs ((a.top_chunk_size, false) ∷ []) end t in
    let aligned : size % 8 ≡ 0 = omega arith in
    let (top, now, heap, h, f, hs, fs) =
      lower_top-places a gone size (omega arith) fits word aligned (omega arith) in
    (
      al,
      keep,
      heap,
      top,
      ground arith,
      Tagged-replace a (lower_top a gone) before c xs ((a.top_chunk_size, false) ∷ [])
          (((lower_top a gone).top_chunk_size, false) ∷ []) end (end - gone) t
          (λ x lo hi. hs x (omega arith)) (λ x lo hi. fs x (omega arith))
          (rw now (
            rw used (
              ap (λ x. (lower_top a gone).header x) (sym at) ∙ h,
              aligned,
              omega arith,
              λ free. ap (λ x. (lower_top a gone).prev_foot (x + size)) (sym at) ∙ f,
              omega arith,
            ))),
    )

less_0 : (n : ℕ) → n ≡ n - 0
less_0 n = omega arith

-- a heap that was only asked to shrink
stays-Lowered :
    (a : Arena) (before : Bool) (c : ℕ) (xs : List Block) (end : ℕ) (requests : List ℕ)
    (answers : List Bool)
    → Tagged a before c (xs ++ (a.top_chunk_size, false) ∷ []) end
    → a.initial_heap_size ≤ a.heap_size
    → Lowered before c xs end a 0 (record a { requests = requests; answers = answers })
stays-Lowered a before c xs end requests answers t init = (
  refl,
  omega arith,
  omega arith,
  refl,
  omega arith,
  keeps a (record a { requests = requests; answers = answers }) before c
      (xs ++ (a.top_chunk_size, false) ∷ []) (end - 0) refl refl
      (subst (λ e. Tagged a before c (xs ++ (a.top_chunk_size, false) ∷ []) e) (less_0 end) t),
)

action_sbrk-grants :
    (a : Arena) (n : ℕ) (answers : List Bool)
    → a.answers ≡ answers
    → (action_sbrk a n).0 ≡ grants answers
unfolding action_sbrk
action_sbrk-grants a n [] e = rw e refl
action_sbrk-grants a n (answer ∷ rest) e = rw e refl

lower_top-requests : (a : Arena) (n : ℕ) → (lower_top a n).requests ≡ a.requests
unfolding lower_top
lower_top-requests a n = ground arith

-- where sbrk is not called, there is nothing to ask for
asks_nothing :
    (a : Arena)
    → a.heap_size % 4096 ≡ 0
    → a.initial_heap_size % 4096 ≡ 0
    → a.initial_heap_size ≤ a.heap_size
    → a.heap_size < 2 ^ 31
    → a.top_chunk_size ≤ a.heap_size
    → (ltb 4096 a.top_chunk_size && leb a.initial_heap_size a.heap_size && ltb 0 (decrease_of a))
      ≡ false
    → (a.top_chunk_size < 0 + 8192) ⊎ (a.initial_heap_size + 0 ≡ a.heap_size)
asks_nothing a al al_init init word fits off = elim (Bool-cases (ltb 4096 a.top_chunk_size)) [
  | inr small ↦ inl (ground arith)
  | inl large ↦
      let (al_gone, keep, left, most) =
        decrease_of_bounds a al al_init init word (ground arith) fits in
      let none : decrease_of a ≡ 0 = ground arith in
      subst (λ d. (a.top_chunk_size < d + 8192) ⊎ (a.initial_heap_size + d ≡ a.heap_size)) none most
]

-- shrink_top leaves the blocks before the top chunk as they are, and takes from the top chunk what
-- it takes from the heap, as it asks for it and sbrk grants it.
pub shrink_top-Shrunk :
    (a : Arena) (before : Bool) (c : ℕ) (xs : List Block) (end : ℕ)
    → Tagged a before c (xs ++ (a.top_chunk_size, false) ∷ []) end
    → used_after before xs ≡ true
    → a.top_chunk ≡ c + total xs
    → a.top_chunk_size ≤ a.heap_size
    → a.heap_size < 2 ^ 31
    → a.heap_size % 4096 ≡ 0
    → a.initial_heap_size % 4096 ≡ 0
    → a.initial_heap_size ≤ a.heap_size
    → (gone : ℕ) × Shrunk before c xs end a gone (shrink_top a)
unfolding shrink_top
shrink_top-Shrunk a before c xs end t used at fits word al al_init init =
    let gone = decrease_of a in
    let asked = record a { requests = (2 ^ 32 - gone) ∷ a.requests; answers = later a.answers } in
    let run = action_sbrk-run a (2 ^ 32 - gone) a.answers refl in
    let answer = action_sbrk-grants a (2 ^ 32 - gone) a.answers refl in
    elim (Bool-cases
      (ltb 4096 a.top_chunk_size && leb a.initial_heap_size a.heap_size && ltb 0 gone)) [
        | inr off ↦ rw off (
          0,
          (
            stays-Lowered a before c xs end a.requests a.answers t init,
            (
              0,
              refl,
              omega arith,
              inl refl,
              asks_nothing a al al_init init word fits off,
              inl (refl, refl, refl),
            ),
          ),
        )
        | inl on ↦
            (let (al_gone, keep, left, most) =
                decrease_of_bounds a al al_init init word (ground arith) fits in
              elim (Bool-cases (action_sbrk a (2 ^ 32 - gone)).0) [
                | inl granted ↦ rw on (
                    rw granted (
                      rw run (
                        gone,
                        (
                          lower_top-Lowered asked before c gone xs end
                              (keeps a asked before c (xs ++ (a.top_chunk_size, false) ∷ []) end
                                refl refl t)
                              used at fits word al_gone keep (omega arith),
                          (
                            gone,
                            al_gone,
                            keep,
                            inr (omega arith),
                            most,
                            inr (
                              ground arith,
                              lower_top-requests asked gone,
                              rw (sym answer ∙ granted) refl,
                            ),
                          ),
                        ),
                      )))
                | inr refused ↦ rw on (
                    rw refused (
                      rw run (
                        0,
                        (
                          stays-Lowered a before c xs end ((2 ^ 32 - gone) ∷ a.requests)
                              (later a.answers) t init,
                          (
                            gone,
                            al_gone,
                            keep,
                            inr (omega arith),
                            most,
                            inr (ground arith, refl, rw (sym answer ∙ refused) refl),
                          ),
                        ),
                      )))
              ])
      ]
