-- ===== src/Memory/HeapGrowth/Bounds.antt =====
-- The page functions leave the bounds of the heap alone.
use elco_os.Base.{
  ◌∙◌, ℕ, ◌-◌, ◌≡◌, inl, inr, refl, Bool, true, not, Option, none, some, arith, Bool-cases,
  if◌then◌else◌, ◌==◌,
}
use elco_os.Memory.Paging.{
  Memory, write_entry, set_page, get_page, set_page_table, page_is_mapped, ptable_is_set,
}
use elco_os.Memory.FrameStack.{pstack_push, pstack_pop}
use elco_os.Memory.Pages.{memory_allocate_page, memory_free_page, map_page}

-- the same bounds of the heap
abbrev pub SameHeap : Memory → Memory → Type 0
SameHeap m m' = (m'.heap_size ≡ m.heap_size) × (m'.heap_addr ≡ m.heap_addr)

pub SameHeap-trans : (a b c : Memory) → SameHeap a b → SameHeap b c → SameHeap a c
SameHeap-trans a b c e f = (f.0 ∙ e.0, f.1 ∙ e.1)

set_page-SameHeap : (m : Memory) (v f g : ℕ) → SameHeap m (set_page m v f g).1
unfolding set_page write_entry
set_page-SameHeap m v f g = ground arith

pstack_push-SameHeap : (m : Memory) (frame : ℕ) → SameHeap m (pstack_push m frame).1
unfolding pstack_push
pstack_push-SameHeap m frame = ground (arith, set_page-SameHeap m (m.pstack_pointer - 1) frame 3)

pstack_pop-SameHeap : (m : Memory) → SameHeap m (pstack_pop m).1
unfolding pstack_pop
pstack_pop-SameHeap m = ground (arith, set_page-SameHeap m (m.pstack_pointer - 1) 0 0)

set_page_table-SameHeap :
    (m : Memory) (v t f : ℕ) (c : Bool) → SameHeap m (set_page_table m v t f c)
unfolding set_page_table
set_page_table-SameHeap m v t f c = ground arith

read_page-SameHeap :
    (m : Memory) (v : ℕ) (r : Option (ℕ × ℕ))
    → SameHeap m
        (elim r as (λ x. ℕ × Memory) [
          | none ↦ (1, m)
          | some (frame, flags) ↦
              (let (code, m1) = set_page m v 0 0 in
                if code == 0 then pstack_push m1 frame else (1, m1))
        ]).1
read_page-SameHeap m v none = (refl, refl)
read_page-SameHeap m v (some (frame, flags)) =
    let m1 = (set_page m v 0 0).1 in
    elim (Bool-cases ((set_page m v 0 0).0 == 0)) [
      | inl e ↦ rw e (
          SameHeap-trans m m1 (pstack_push m1 frame).1 (set_page-SameHeap m v 0 0)
            (pstack_push-SameHeap m1 frame))
      | inr e ↦ rw e (set_page-SameHeap m v 0 0)
    ]

pub memory_free_page-SameHeap : (m : Memory) (v : ℕ) → SameHeap m (memory_free_page m v).1
unfolding memory_free_page
memory_free_page-SameHeap m v = elim (Bool-cases (page_is_mapped m v)) [
  | inl e ↦ rw e (read_page-SameHeap m v (get_page m v))
  | inr e ↦ rw e (refl, refl)
]

map_page-SameHeap : (m : Memory) (v f : ℕ) (u w : Bool) → SameHeap m (map_page m v f u w).1
map_page-SameHeap m v f u w = set_page-SameHeap m v f _

-- after the first frame was popped
with_frame-SameHeap :
    (m : Memory) (v frame : ℕ) (u w : Bool) (r : Option ℕ × Memory)
    → SameHeap m r.1
    → SameHeap m
        (elim r.0 as (λ x. ℕ × Memory) [
          | none ↦ (1, (pstack_push r.1 frame).1)
          | some table ↦ map_page (set_page_table r.1 v table 3 true) v frame u w
        ]).1
with_frame-SameHeap m v frame u w (none, m2) s =
    SameHeap-trans m m2 (pstack_push m2 frame).1 s (pstack_push-SameHeap m2 frame)
with_frame-SameHeap m v frame u w (some table, m2) s =
    let m3 = set_page_table m2 v table 3 true in
    SameHeap-trans m m2 (map_page m3 v frame u w).1 s (
      SameHeap-trans m2 m3 (map_page m3 v frame u w).1 (set_page_table-SameHeap m2 v table 3 true)
        (map_page-SameHeap m3 v frame u w))

with_pop-SameHeap :
    (m : Memory) (v : ℕ) (u w : Bool) (r : Option ℕ × Memory)
    → SameHeap m r.1
    → SameHeap m
        (elim r.0 as (λ x. ℕ × Memory) [
          | none ↦ (1, r.1)
          | some frame ↦
              if not (ptable_is_set r.1 v)
              then (let (popped2, m2) = pstack_pop r.1 in
                  elim popped2 [
                    | none ↦ (1, (pstack_push m2 frame).1)
                    | some table ↦ map_page (set_page_table m2 v table 3 true) v frame u w
                  ])
              else map_page r.1 v frame u w
        ]).1
with_pop-SameHeap m v u w (none, m1) s = s
with_pop-SameHeap m v u w (some frame, m1) s = elim (Bool-cases (ptable_is_set m1 v)) [
  | inl e ↦
      rw e (SameHeap-trans m m1 (map_page m1 v frame u w).1 s (map_page-SameHeap m1 v frame u w))
  | inr e ↦ rw e (
      with_frame-SameHeap m v frame u w (pstack_pop m1)
        (SameHeap-trans m m1 (pstack_pop m1).1 s (pstack_pop-SameHeap m1)))
]

pub memory_allocate_page-SameHeap :
    (m : Memory) (v : ℕ) (u w : Bool) → SameHeap m (memory_allocate_page m v u w).1
unfolding memory_allocate_page
memory_allocate_page-SameHeap m v u w = elim (Bool-cases (page_is_mapped m v)) [
  | inl e ↦ rw e (refl, refl)
  | inr e ↦ rw e (with_pop-SameHeap m v u w (pstack_pop m) (pstack_pop-SameHeap m))
]
