-- ===== src/Memory/HeapGrowth/Answer.antt =====
-- The answers of heap_callback, and the size of the heap after them.
use elco_os.Base.{
  ap, ◌∙◌, ℕ, zero, suc, ◌+◌, ◌-◌, ◌%◌, ◌/◌, ◌*◌, ◌^◌, ◌≡◌, ◌≤◌, ◌<◌, ◌⊎◌, inl, inr, refl, Bool,
  true, false, Option, some, arith, Bool-cases, ◌==◌, ltb, leb,
}
use elco_os.Memory.Paging.{Memory, page_size}
use elco_os.Memory.Pages.{memory_allocate_page, memory_free_page}
use elco_os.Memory.HeapGrowth.{
  free_down, allocate_up, last_page, shrink_heap, grow_heap, settle, heap_callback, refused,
  kernel_heap_limit, kernel_initial_heap_size,
}
use elco_os.Memory.HeapGrowth.Bounds.{
  SameHeap, SameHeap-trans, memory_allocate_page-SameHeap, memory_free_page-SameHeap,
}

-- a round for each page below, and one more, ends the loop
free_down-SameHeap :
    (fuel : ℕ) (m : Memory) (page stop : ℕ)
    → page < 2 ^ 32
    → page % page_size ≡ 0
    → page / page_size < fuel
    → (m' : Memory) × (free_down fuel m page stop ≡ some m') × SameHeap m m'
unfolding free_down
free_down-SameHeap zero m page stop small whole f = absurd (omega arith)
free_down-SameHeap (suc fuel) m page stop small whole f = elim (Bool-cases (ltb stop page)) [
  | inl e ↦
      let m1 = (memory_free_page m page).1 in
      let pos : 0 < page = ground arith in
      let (m2, run, same) =
        free_down-SameHeap fuel m1 ((page + 2 ^ 32 - page_size) % 2 ^ 32) stop (omega arith)
          (omega arith) (omega arith) in
      (m2, rw e run, SameHeap-trans m m1 m2 (memory_free_page-SameHeap m page) same)
  | inr e ↦ (m, rw e refl, (refl, refl))
]

-- what the loop that allocates leaves
abbrev Grown : Memory → (page : ℕ) → Option (Bool × ℕ × Memory) → Type 0
Grown m page r =
    (err : Bool) × (p : ℕ) × (m' : Memory) × (r ≡ some (err, p, m'))
    × SameHeap m m'
    × (p % page_size ≡ 0)
    × (page ≤ p)
    × (p < 2 ^ 32)

allocate_up-Grown :
    (fuel : ℕ) (m : Memory) (page stop : ℕ)
    → stop < kernel_heap_limit
    → page < 2 ^ 32
    → page % page_size ≡ 0
    → page ≤ stop + page_size
    → stop + page_size < page + fuel * page_size
    → Grown m page (allocate_up fuel m page stop)
unfolding allocate_up
allocate_up-Grown zero m page stop limit small whole near f = absurd (omega arith)
allocate_up-Grown (suc fuel) m page stop limit small whole near f =
    elim (Bool-cases (leb page stop)) [
      | inl e ↦
          let m1 = (memory_allocate_page m page false true).1 in
          let same1 : SameHeap m m1 = memory_allocate_page-SameHeap m page false true in
          let le : page ≤ stop = ground arith in
          elim (Bool-cases ((memory_allocate_page m page false true).0 == 0)) [
            | inl done ↦
                let (err, p, m2, run, same, wp, lo, hi) =
                  allocate_up-Grown fuel m1 ((page + page_size) % 2 ^ 32) stop limit (omega arith)
                    (omega arith) (omega arith) (omega arith) in
                rw (e, done)
                  (err, p, m2, run, SameHeap-trans m m1 m2 same1 same, wp, omega arith, hi)
            | inr failed ↦ rw (e, failed) (true, page, m1, refl, same1, whole, omega arith, small)
          ]
      | inr e ↦ rw e (false, page, m, refl, (refl, refl), whole, omega arith, small)
    ]

-- The answer to a change: code 0 and the new size, or the code -1 and the size as it was.
abbrev pub Answers : Memory → ℕ → Option (ℕ × Memory) → Type 0
Answers m size r =
    (code : ℕ) × (m' : Memory) × (r ≡ some (code, m'))
    × (m'.heap_addr ≡ m.heap_addr)
    × (((code ≡ 0) × (m'.heap_size ≡ size)) ⊎ ((code ≡ refused) × (m'.heap_size ≡ m.heap_size)))

Answers-size :
    (m : Memory) (size size' : ℕ) (r : Option (ℕ × Memory))
    → size ≡ size'
    → Answers m size r
    → Answers m size' r
Answers-size m size size' r e (code, m', run, addr, inl (zero_code, new)) =
    (code, m', run, addr, inl (zero_code, new ∙ e))
Answers-size m size size' r e (code, m', run, addr, inr old) = (code, m', run, addr, inr old)

settle-Answers :
    (m m1 : Memory) (cur_end_page amount page : ℕ) (err : Bool)
    → SameHeap m m1
    → page % page_size ≡ 0
    → page_size ≤ page
    → page < 2 ^ 32
    → Answers m ((m.heap_size + amount) % 2 ^ 32) (settle m1 cur_end_page amount page err)
unfolding settle
settle-Answers m m1 cur_end_page amount page false same whole lo hi = (
  0,
  record m1 { heap_size = (m1.heap_size + amount) % 2 ^ 32 },
  refl,
  same.1,
  inl (refl, ap (λ (x : ℕ). (x + amount) % 2 ^ 32) same.0),
)
settle-Answers m m1 cur_end_page amount page true same whole lo hi =
    let (m2, run, same2) =
      free_down-SameHeap (suc (page / page_size)) m1 ((page + 2 ^ 32 - page_size) % 2 ^ 32)
        cur_end_page (omega arith) (omega arith) (omega arith) in
    let all = SameHeap-trans m m1 m2 same same2 in
    (refused, m2, rw run refl, all.1, inr (refl, all.0))

shrink_heap-Answers :
    (m : Memory) (heap_end amount : ℕ)
    → heap_end < 2 ^ 32
    → Answers m ((m.heap_size + 2 ^ 32 - amount) % 2 ^ 32) (shrink_heap m heap_end amount)
unfolding shrink_heap
shrink_heap-Answers m heap_end amount small = elim (Bool-cases (ltb heap_end amount)) [
  | inl e ↦ rw e (refused, m, refl, refl, inr (refl, refl))
  | inr e ↦
      elim (Bool-cases (ltb ((m.heap_size + 2 ^ 32 - amount) % 2 ^ 32) kernel_initial_heap_size)) [
        | inl low ↦ rw (e, low) (refused, m, refl, refl, inr (refl, refl))
        | inr high ↦
            let page = last_page heap_end in
            let (m1, run, same) =
              free_down-SameHeap (suc (page / page_size)) m page (last_page (heap_end - amount))
                (omega arith) (omega arith) (omega arith) in
            rw (e, high, run)
              (
                0,
                record m1 { heap_size = (m1.heap_size + 2 ^ 32 - amount) % 2 ^ 32 },
                refl,
                same.1,
                inl (refl, ap (λ (x : ℕ). (x + 2 ^ 32 - amount) % 2 ^ 32) same.0),
              )
      ]
]

grow_heap-Answers :
    (m : Memory) (heap_end amount : ℕ)
    → heap_end < 2 ^ 32
    → 0 < heap_end
    → amount < 2 ^ 31
    → Answers m ((m.heap_size + amount) % 2 ^ 32) (grow_heap m heap_end amount)
unfolding grow_heap
grow_heap-Answers m heap_end amount small pos fits =
    let new_end = (heap_end + amount) % 2 ^ 32 in
    let stop = last_page new_end in
    let start = (last_page heap_end + page_size) % 2 ^ 32 in
    elim (Bool-cases (leb kernel_heap_limit new_end)) [
      | inl e ↦ rw e (refused, m, refl, refl, inr (refl, refl))
      | inr e ↦ elim (Bool-cases (ltb new_end heap_end)) [
        | inl w ↦ rw (e, w) (refused, m, refl, refl, inr (refl, refl))
        | inr w ↦
            let below : new_end < kernel_heap_limit = ground arith in
            let grows : heap_end ≤ new_end = ground arith in
            let (err, p, m1, run, same, whole, lo, hi) =
              allocate_up-Grown (suc (suc (stop / page_size))) m start stop (omega arith)
                (omega arith) (omega arith) (omega arith) (omega arith) in
            rw (e, w, run)
              (settle-Answers m m1 (last_page heap_end) amount p err same whole (omega arith) hi)
      ]
    ]

-- heap_callback returns, for every signed difference: with code 0 and the size changed by the
-- difference (mod 2^32), or with -1 and the size as it was; the start of the heap stands. The
-- heap lies in the address space and does not start at 0.
pub heap_callback-Answers :
    (m : Memory) (difference : ℕ)
    → 0 < m.heap_addr
    → m.heap_addr + m.heap_size < 2 ^ 32
    → difference < 2 ^ 32
    → Answers m ((m.heap_size + difference) % 2 ^ 32) (heap_callback m difference)
unfolding heap_callback
heap_callback-Answers m difference start inside fits =
    let heap_end = (m.heap_addr + m.heap_size) % 2 ^ 32 in
    elim (Bool-cases (difference == 0)) [
      | inl z ↦ rw z (0, m, refl, refl, inl (refl, ground arith))
      | inr nz ↦ elim (Bool-cases (leb (2 ^ 31) difference)) [
        | inl neg ↦
            let size : (m.heap_size + 2 ^ 32 - (2 ^ 32 - difference)) % 2 ^ 32
                ≡ (m.heap_size + difference) % 2 ^ 32 =
              ap (λ (x : ℕ). x % 2 ^ 32) {x = m.heap_size + 2 ^ 32 - (2 ^ 32 - difference)}
                {y = m.heap_size + difference} (omega arith) in
            rw (nz, neg)
              (Answers-size m _ _ _ size
                (shrink_heap-Answers m heap_end (2 ^ 32 - difference) (omega arith)))
        | inr pos ↦
            rw (nz, pos)
              (grow_heap-Answers m heap_end difference (omega arith) (omega arith) (ground arith))
      ]
    ]

shrink_heap-underflow :
    (m : Memory) (heap_end amount : ℕ)
    → m.heap_size < amount
    → amount ≤ heap_end
    → heap_end < 2 ^ 32
    → amount ≤ 2 ^ 31
    → (m' : Memory) × (shrink_heap m heap_end amount ≡ some (0, m'))
      × (m'.heap_size ≡ m.heap_size + 2 ^ 32 - amount)
unfolding shrink_heap
shrink_heap-underflow m heap_end amount over room inside fits =
    let page = last_page heap_end in
    let (m1, run, same) =
      free_down-SameHeap (suc (page / page_size)) m page (last_page (heap_end - amount))
        (omega arith) (omega arith) (omega arith) in
    let e : ltb heap_end amount ≡ false = ground arith in
    let high : ltb ((m.heap_size + 2 ^ 32 - amount) % 2 ^ 32) kernel_initial_heap_size ≡ false =
      ground arith in
    rw (e, high, run)
      (
        record m1 { heap_size = (m1.heap_size + 2 ^ 32 - amount) % 2 ^ 32 },
        refl,
        ap (λ (x : ℕ). (x + 2 ^ 32 - amount) % 2 ^ 32) same.0 ∙ omega arith,
      )

-- A shrink by more bytes than the heap has is accepted where the heap's end is not below them: the
-- difference of the sizes wraps, so the check of the minimum passes, and the new size is beyond
-- the old one. The amount is at most 2 ^ 31, the heap lies in the address space and does not start
-- at 0.
pub heap_callback-underflow :
    (m : Memory) (amount : ℕ)
    → m.heap_size < amount
    → amount ≤ m.heap_addr + m.heap_size
    → m.heap_addr + m.heap_size < 2 ^ 32
    → amount ≤ 2 ^ 31
    → 0 < m.heap_addr
    → (m' : Memory) × (heap_callback m (2 ^ 32 - amount) ≡ some (0, m'))
      × (m'.heap_size ≡ m.heap_size + 2 ^ 32 - amount)
unfolding heap_callback
heap_callback-underflow m amount over room inside fits start =
    let difference = 2 ^ 32 - amount in
    let heap_end = (m.heap_addr + m.heap_size) % 2 ^ 32 in
    let nz : (difference == 0) ≡ false = ground arith in
    let neg : leb (2 ^ 31) difference ≡ true = ground arith in
    let back : 2 ^ 32 - difference ≡ amount = omega arith in
    rw (nz, neg, back)
      (shrink_heap-underflow m heap_end amount over (omega arith) (omega arith) fits)
