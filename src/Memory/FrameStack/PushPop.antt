-- ===== src/Memory/FrameStack/PushPop.antt =====
-- The stack of free frames gives back what was pushed.
use elco_os.Base.{
  ℕ, ◌+◌, ◌-◌, ◌%◌, ◌≡◌, ◌≢◌, ◌≤◌, ◌<◌, inl, inr, refl, ap, ◌∙◌, Bool, true, false, ◌&&◌, not, some,
  arith, eq-cases, ==_iff, Bool-cases, ◌==◌, upd,
}
use elco_os.Memory.Paging.{
  Memory, page_size, set_page, get_page, page_is_mapped, frame_of, read_entry,
}
use elco_os.Memory.Paging.RoundTrip.{HasTable, get_page-set_page}
use elco_os.Memory.FrameStack.{pstack_push, pstack_pop, pstack_top, pstack_bottom}

-- What the stack relies on: its pointer is a word boundary in its region; the page tables below it
-- exist; and no page of the stack below the one in use is mapped.
pub record IsStack (m : Memory) : Type 0 where
  pub aligned : m.pstack_pointer % 4 ≡ 0
  pub above : pstack_bottom ≤ m.pstack_pointer
  pub below_top : m.pstack_pointer ≤ pstack_top
  pub tables : m.pstack_pointer ≢ pstack_bottom → HasTable m (m.pstack_pointer - 1)
  pub next_free :
      m.pstack_pointer % page_size ≡ 4 → page_is_mapped m (m.pstack_pointer - 4 - 1) ≡ false

-- page_is_mapped does not look at the words of the stack or its pointer
mapped_cong :
    (m : Memory) (p vaddr : ℕ) (w : ℕ → ℕ)
    → page_is_mapped (record m { pstack_pointer = p; word = w }) vaddr ≡ page_is_mapped m vaddr
unfolding page_is_mapped read_entry
mapped_cong m p vaddr w = refl

-- whether the next page of the stack is wanted and missing
abbrev wants_page : Memory → Bool
wants_page m = m.pstack_pointer % page_size == 0 && not (page_is_mapped m (m.pstack_pointer - 1))

abbrev has_page : Memory → Bool
has_page m = m.pstack_pointer % page_size == 0 && page_is_mapped m (m.pstack_pointer - 1)

push_page-run :
    (m : Memory) (frame : ℕ)
    → m.pstack_pointer ≢ pstack_bottom
    → wants_page m ≡ true
    → pstack_push m frame ≡ set_page m (m.pstack_pointer - 1) frame 3
unfolding pstack_push
push_page-run m frame room new = ground arith

push_word-run :
    (m : Memory) (frame : ℕ)
    → m.pstack_pointer ≢ pstack_bottom
    → wants_page m ≡ false
    → pstack_push m frame ≡ (
      0,
      record m {
        pstack_pointer = m.pstack_pointer - 4;
        word = upd m.word (m.pstack_pointer - 4) frame;
      },
    )
unfolding pstack_push
push_word-run m frame room old = ground arith

pop_page-run :
    (m m2 : Memory) (frame flags : ℕ)
    → m.pstack_pointer % page_size ≡ 0
    → page_is_mapped m (m.pstack_pointer - 1) ≡ true
    → get_page m (m.pstack_pointer - 1) ≡ some (frame, flags)
    → set_page m (m.pstack_pointer - 1) 0 0 ≡ (0, m2)
    → pstack_pop m ≡ (some frame, m2)
unfolding pstack_pop
pop_page-run m m2 frame flags start mapped got put = simp (start, mapped, got, put)

pop_word-run :
    (m : Memory)
    → has_page m ≡ false
    → m.pstack_pointer < pstack_top
    → pstack_pop m
      ≡ (some (m.word m.pstack_pointer), record m { pstack_pointer = m.pstack_pointer + 4 })
unfolding pstack_pop
pop_word-run m test room = ground arith

-- where the next page of the stack is missing, the frame becomes that page
push_page :
    (m : Memory) (frame : ℕ)
    → IsStack m
    → m.pstack_pointer ≢ pstack_bottom
    → frame % page_size ≡ 0
    → (m.pstack_pointer % page_size == 0 && not (page_is_mapped m (m.pstack_pointer - 1))) ≡ true
    → (m1 m2 : Memory) × (pstack_push m frame ≡ (0, m1))
      × (pstack_pop m1 ≡ (some frame, m2))
      × (m2.pstack_pointer ≡ m.pstack_pointer)
push_page m frame s room whole new =
    let at = m.pstack_pointer - 1 in
    let table = s.tables room in
    let low : at < 0xFFC00000 = ground (arith, s.below_top) in
    let (m1, put, got, mapped, same, rest) = get_page-set_page m at frame 3 low table in
    let sp : m1.pstack_pointer ≡ m.pstack_pointer = ap (λ (k : Memory). k.pstack_pointer) same in
    let table1 : HasTable m1 at = rw (ap (λ (k : Memory). k.ptable) same) table in
    let (m2, put2, got2, mapped2, same2, rest2) = get_page-set_page m1 at 0 0 low table1 in
    (
      m1,
      m2,
      push_page-run m frame room new ∙ put,
      pop_page-run m1 m2 frame 3 (ground (arith, sp)) (rw sp mapped)
          (rw sp (got ∙ ap (λ f. some (f, 3)) {x = frame_of frame} {y = frame} (ground arith)))
          (rw sp put2),
      ap (λ (k : Memory). k.pstack_pointer) same2 ∙ sp,
    )

-- After a word is pushed, the pop looks at no page: the page below is not mapped.
word_stays :
    (m : Memory) (frame : ℕ)
    → IsStack m
    → wants_page m ≡ false
    → has_page (record m {
      pstack_pointer = m.pstack_pointer - 4;
      word = upd m.word (m.pstack_pointer - 4) frame;
    })
      ≡ false
word_stays m frame s old =
    let same =
      mapped_cong m (m.pstack_pointer - 4) (m.pstack_pointer - 4 - 1)
        (upd m.word (m.pstack_pointer - 4) frame) in
    elim (eq-cases (m.pstack_pointer % page_size) 4) [
      | inl e ↦ ground (arith, same, s.next_free ((==_iff (m.pstack_pointer % page_size) 4).0 e))
      | inr ne ↦ ground (arith, s.aligned, s.above)
    ]

-- else it is a word of the page in use
push_word :
    (m : Memory) (frame : ℕ)
    → IsStack m
    → m.pstack_pointer ≢ pstack_bottom
    → (m.pstack_pointer % page_size == 0 && not (page_is_mapped m (m.pstack_pointer - 1))) ≡ false
    → (m1 m2 : Memory) × (pstack_push m frame ≡ (0, m1))
      × (pstack_pop m1 ≡ (some frame, m2))
      × (m2.pstack_pointer ≡ m.pstack_pointer)
push_word m frame s room old =
    let m1 = record m {
      pstack_pointer = m.pstack_pointer - 4;
      word = upd m.word (m.pstack_pointer - 4) frame;
    } in
    (
      m1,
      record m1 { pstack_pointer = m1.pstack_pointer + 4 },
      push_word-run m frame room old,
      pop_word-run m1 (word_stays m frame s old) (ground (arith, s.below_top, s.above))
          ∙ ap (λ f. (some f, record m1 { pstack_pointer = m1.pstack_pointer + 4 }))
              {x = m1.word m1.pstack_pointer} {y = frame} (ground arith),
      ground (arith, s.aligned, s.above),
    )

-- A push that is accepted, of a page frame, and the pop after it: the pop gives the same frame, and
-- the stack pointer is back where it was.
pub pstack_pop-push :
    (m : Memory) (frame : ℕ)
    → IsStack m
    → m.pstack_pointer ≢ pstack_bottom
    → frame % page_size ≡ 0
    → (m1 m2 : Memory) × (pstack_push m frame ≡ (0, m1))
      × (pstack_pop m1 ≡ (some frame, m2))
      × (m2.pstack_pointer ≡ m.pstack_pointer)
pstack_pop-push m frame s room whole =
    elim (Bool-cases
      (m.pstack_pointer % page_size == 0 && not (page_is_mapped m (m.pstack_pointer - 1)))) [
        | inl e ↦ push_page m frame s room whole e
        | inr e ↦ push_word m frame s room e
      ]
