-- ===== src/Memory/FrameStack.antt =====
-- The stack of free frames of memory.c. It grows downwards below the page tables; a frame that is
-- pushed where the next page of the stack is not mapped becomes that page.
pub mod PushPop
use elco_os.Base.{
  ℕ, ◌+◌, ◌-◌, ◌%◌, Bool, true, false, ◌&&◌, not, Option, none, some, if◌then◌else◌, ◌==◌, leb, upd,
}
use elco_os.Memory.Paging.{Memory, page_size, set_page, get_page, page_is_mapped}

-- KERNEL_PSTACK_TOP and KERNEL_PSTACK_BOTTOM
abbrev pub pstack_top : ℕ
pstack_top = 0xFFC00000

abbrev pub pstack_bottom : ℕ
pstack_bottom = 0xFF800000

unfoldable pub pstack_push : Memory → ℕ → ℕ × Memory
pstack_push m frame =
    let sp = m.pstack_pointer in
    if sp == pstack_bottom
    then (1, m)
    else if sp % page_size == 0 && not (page_is_mapped m (sp - 1))
    then set_page m (sp - 1) frame 3
    else (0, record m { pstack_pointer = sp - 4; word = upd m.word (sp - 4) frame })

-- `some` frame for the code 0
unfoldable pub pstack_pop : Memory → Option ℕ × Memory
pstack_pop m =
    let sp = m.pstack_pointer in
    if sp % page_size == 0 && page_is_mapped m (sp - 1)
    then (let (code, m') = set_page m (sp - 1) 0 0 in
        (
          elim (get_page m (sp - 1)) [
            | none ↦ none
            | some (frame, flags) ↦ if code == 0 then some frame else none
          ],
          m',
        ))
    else if leb pstack_top sp
    then (none, m)
    else (some (m.word sp), record m { pstack_pointer = sp + 4 })
