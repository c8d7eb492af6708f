-- ===== src/Memory/Tests.antt =====
-- Memories on which the theorems about memory.c are applied: every page table exists and no page
-- is mapped, and the stack of free frames is empty, or holds one page with one frame more.
use elco_os.Base.{
  ℕ, List, [], ◌∷◌, ◌∈◌, ◌↔◌, ◌≡◌, refl, true, false, ◌&&◌, some, arith, if◌then◌else◌, ◌==◌,
}
use elco_os.Memory.Paging.{Memory, set_page, get_page, page_is_mapped, read_entry}
use elco_os.Memory.Paging.RoundTrip.{get_page-set_page}
use elco_os.Memory.FrameStack.{pstack_push, pstack_pop}
use elco_os.Memory.FrameStack.PushPop.{IsStack, pstack_pop-push}
use elco_os.Memory.Pages.{memory_allocate_page}
use elco_os.Memory.Start.{MemEntry, push_entries}
use elco_os.Memory.Start.Frames.{push_all, Offered, push_entries-Frames}
use elco_os.Memory.HeapGrowth.{heap_callback}
use elco_os.Memory.HeapGrowth.Answer.{Answers, heap_callback-Answers}
use elco_os.Memory.Pages.Allocate.{Outcome, memory_allocate_page-Outcome}
use elco_os.Memory.Pages.Map.{MapOutcome, memory_unmap_addr-map_addr}

abbrev fresh : Memory
fresh = record {
  ptable = λ i. 3;
  entry = λ t p. 0;
  word = λ a. 0x5000;
  pstack_pointer = 0xFFC00000;
  heap_addr = 0x400000;
  heap_size = 0x2000;
}

abbrev stocked : Memory
stocked = record fresh {
  entry = λ t p. if t == 1022 then (if p == 1023 then 0x7003 else 0) else 0;
  pstack_pointer = 0xFFBFFFFC;
}

get_page-set_page_example :
    (m' : Memory) × (set_page fresh 0x400123 0x9000 3 ≡ (0, m'))
    × (get_page m' 0x400123 ≡ some (0x9000, 3))
    × (page_is_mapped m' 0x400123 ≡ true)
    × (m' ≡ record fresh { entry = m'.entry })
    × ((t p : ℕ) → m'.entry t p ≡ (if t == 1 && p == 0 then 0x9003 else 0))
get_page-set_page_example = get_page-set_page fresh 0x400123 0x9000 3 (omega arith) (refl, refl)

fresh-IsStack : IsStack fresh
fresh-IsStack = record {
  aligned = refl;
  above = omega arith;
  below_top = omega arith;
  tables = λ room. (refl, refl);
  next_free = λ e. absurd (omega arith);
}

pstack_pop-push_example :
    (m1 m2 : Memory) × (pstack_push fresh 0x9000 ≡ (0, m1))
    × (pstack_pop m1 ≡ (some 0x9000, m2))
    × (m2.pstack_pointer ≡ 0xFFC00000)
pstack_pop-push_example = pstack_pop-push fresh 0x9000 fresh-IsStack (omega arith) refl

memory_allocate_page-Outcome_example :
    Outcome stocked 0x400000 false true (memory_allocate_page stocked 0x400000 false true)
unfolding page_is_mapped read_entry
memory_allocate_page-Outcome_example =
    memory_allocate_page-Outcome stocked 0x400000 false true (omega arith) refl

memory_unmap_addr-map_addr_example : MapOutcome fresh 0x400000 0xB8000 false true
unfolding page_is_mapped read_entry
memory_unmap_addr-map_addr_example =
    memory_unmap_addr-map_addr fresh 0x400000 0xB8000 false true (omega arith) refl

heap_callback-Answers_example : Answers fresh 12288 (heap_callback fresh 4096)
heap_callback-Answers_example =
    heap_callback-Answers fresh 4096 (omega arith) (omega arith) (omega arith)

-- a free entry that holds one whole frame, and one that is reserved
abbrev two_entries : List MemEntry
two_entries =
    record { address = 0x8800; size = 0x2000; kind = 1 }
    ∷ record { address = 0xA800; size = 0x3000; kind = 2 }
    ∷ []

push_entries-Frames_example :
    (fs : List ℕ) × (push_entries fresh two_entries ≡ some (push_all fresh fs))
    × ((g : ℕ) → (g ∈ fs) ↔ Offered two_entries g)
push_entries-Frames_example =
    push_entries-Frames fresh two_entries
      ((omega arith, omega arith), ((omega arith, omega arith), tt))
