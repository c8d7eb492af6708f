-- ===== src/Memory/Paging/RoundTrip.antt =====
-- What set_page writes, get_page and page_is_mapped read; other pages are left alone.
use elco_os.Base.{
  ap, ◌∙◌, ℕ, ◌+◌, ◌%◌, ◌/◌, ◌≡◌, ◌≢◌, ◌<◌, ◌⊎◌, inl, inr, true, false, ◌&&◌, some, arith,
  if◌then◌else◌, ◌==◌,
}
use elco_os.Memory.Paging.{
  Memory, page_size, self_table, read_entry, write_entry, pde_num, pte_num, present, large,
  frame_of, flags_of, set_page, get_page, page_is_mapped,
}

abbrev pub HasTable : Memory → ℕ → Type 0
HasTable m vaddr =
    (present (m.ptable (pde_num vaddr)) ≡ true) × (large (m.ptable (pde_num vaddr)) ≡ false)

-- reading back an entry of a table other than the directory itself
pub read-write_entry :
    (m : Memory) (t p e t' p' : ℕ)
    → (t == self_table) ≡ false
    → read_entry (write_entry m t p e) t' p'
      ≡ (if t' == t then (if p' == p then e else read_entry m t' p') else read_entry m t' p')
unfolding read_entry write_entry
read-write_entry m t p e t' p' n = ground arith

pub ptable-write_entry :
    (m : Memory) (t p e : ℕ) → (t == self_table) ≡ false → (write_entry m t p e).ptable ≡ m.ptable
unfolding write_entry
ptable-write_entry m t p e n = rw n

pub join_parts :
    (frame flags : ℕ)
    → (frame_of (frame_of frame + flags_of flags) ≡ frame_of frame)
      × (flags_of (frame_of frame + flags_of flags) ≡ flags_of flags)
join_parts frame flags = omega arith

pub HasTable-write_entry :
    (m : Memory) (t p e vaddr : ℕ)
    → (t == self_table) ≡ false
    → HasTable m vaddr
    → HasTable (write_entry m t p e) vaddr
HasTable-write_entry m t p e vaddr out h = rw (ptable-write_entry m t p e out) h

pub read_self :
    (m : Memory) (t p e : ℕ) → (t == self_table) ≡ false → read_entry (write_entry m t p e) t p ≡ e
read_self m t p e out = read-write_entry m t p e t p out ∙ ground arith

write_entry-others :
    (m : Memory) (t p e : ℕ)
    → (t == self_table) ≡ false
    → write_entry m t p e ≡ record m { entry = (write_entry m t p e).entry }
unfolding write_entry
write_entry-others m t p e out = rw out

entry-write_entry :
    (m : Memory) (t p e : ℕ)
    → (t == self_table) ≡ false
    → (t' p' : ℕ)
    → (write_entry m t p e).entry t' p' ≡ (if t' == t && p' == p then e else m.entry t' p')
unfolding write_entry
entry-write_entry m t p e out t' p' = ground arith

pub set_page-run :
    (m : Memory) (vaddr frame flags : ℕ)
    → HasTable m vaddr
    → set_page m vaddr frame flags
      ≡ (0, write_entry m (pde_num vaddr) (pte_num vaddr) (frame_of frame + flags_of flags))
unfolding set_page
set_page-run m vaddr frame flags h = ground arith

pub get_page-run :
    (m : Memory) (vaddr : ℕ)
    → HasTable m vaddr
    → let e = read_entry m (pde_num vaddr) (pte_num vaddr) in
      get_page m vaddr ≡ some (frame_of e, flags_of e)
unfolding get_page
get_page-run m vaddr h = ground arith

pub page_is_mapped-run :
    (m : Memory) (vaddr : ℕ)
    → HasTable m vaddr
    → page_is_mapped m vaddr ≡ present (read_entry m (pde_num vaddr) (pte_num vaddr))
unfolding page_is_mapped
page_is_mapped-run m vaddr h = ground arith

present_join :
    (frame flags : ℕ) → present (frame_of frame + flags_of flags) ≡ present (flags_of flags)
present_join frame flags =
    ap (λ (b : ℕ). b == 1) {x = (frame_of frame + flags_of flags) % 2} {y = flags_of flags % 2}
      (omega arith)

not_self : (vaddr : ℕ) → vaddr < 0xFFC00000 → (pde_num vaddr == self_table) ≡ false
not_self vaddr low = ground arith

-- A page that lies below the page tables and whose page table exists is set with code 0, and then
-- read back: the page part of the frame and the twelve flag bits; it is mapped exactly if the
-- flags say so. Every other entry of every page table, and all else, stands as it was.
pub get_page-set_page :
    (m : Memory) (vaddr frame flags : ℕ)
    → vaddr < 0xFFC00000
    → HasTable m vaddr
    → (m' : Memory) × (set_page m vaddr frame flags ≡ (0, m'))
      × (get_page m' vaddr ≡ some (frame_of frame, flags_of flags))
      × (page_is_mapped m' vaddr ≡ present (flags_of flags))
      × (m' ≡ record m { entry = m'.entry })
      × ((t p : ℕ)
          → m'.entry t p ≡ (
              if t == pde_num vaddr && p == pte_num vaddr
              then frame_of frame + flags_of flags
              else m.entry t p))
get_page-set_page m vaddr frame flags low h =
    let t = pde_num vaddr in
    let p = pte_num vaddr in
    let e = frame_of frame + flags_of flags in
    let m' = write_entry m t p e in
    let out = not_self vaddr low in
    let parts = join_parts frame flags in
    let h' : HasTable m' vaddr = HasTable-write_entry m t p e vaddr out h in
    let same : read_entry m' t p ≡ e = read_self m t p e out in
    (
      m',
      set_page-run m vaddr frame flags h,
      get_page-run m' vaddr h' ∙ ground (arith, same, parts.0, parts.1),
      page_is_mapped-run m' vaddr h' ∙ ap present same ∙ present_join frame flags,
      write_entry-others m t p e out,
      entry-write_entry m t p e out,
    )

get_page-alike :
    (m m' : Memory) (vaddr : ℕ)
    → m'.ptable (pde_num vaddr) ≡ m.ptable (pde_num vaddr)
    → read_entry m' (pde_num vaddr) (pte_num vaddr) ≡ read_entry m (pde_num vaddr) (pte_num vaddr)
    → get_page m' vaddr ≡ get_page m vaddr
unfolding get_page
get_page-alike m m' vaddr tables entries = simp (tables, entries)

page_is_mapped-alike :
    (m m' : Memory) (vaddr : ℕ)
    → m'.ptable (pde_num vaddr) ≡ m.ptable (pde_num vaddr)
    → read_entry m' (pde_num vaddr) (pte_num vaddr) ≡ read_entry m (pde_num vaddr) (pte_num vaddr)
    → page_is_mapped m' vaddr ≡ page_is_mapped m vaddr
unfolding page_is_mapped
page_is_mapped-alike m m' vaddr tables entries = simp (tables, entries)

reads_alike :
    (m m' : Memory) (vaddr : ℕ)
    → m'.ptable ≡ m.ptable
    → read_entry m' (pde_num vaddr) (pte_num vaddr) ≡ read_entry m (pde_num vaddr) (pte_num vaddr)
    → (get_page m' vaddr ≡ get_page m vaddr) × (page_is_mapped m' vaddr ≡ page_is_mapped m vaddr)
reads_alike m m' vaddr tables entries =
    let t = ap (λ (f : ℕ → ℕ). f (pde_num vaddr)) tables in
    (get_page-alike m m' vaddr t entries, page_is_mapped-alike m m' vaddr t entries)

read_other :
    (m : Memory) (vaddr vaddr' e : ℕ)
    → (pde_num vaddr == self_table) ≡ false
    → vaddr / page_size ≢ vaddr' / page_size
    → read_entry (write_entry m (pde_num vaddr) (pte_num vaddr) e) (pde_num vaddr') (pte_num vaddr')
      ≡ read_entry m (pde_num vaddr') (pte_num vaddr')
read_other m vaddr vaddr' e out ne =
    read-write_entry m (pde_num vaddr) (pte_num vaddr) e (pde_num vaddr') (pte_num vaddr') out
    ∙ ground arith

set_page-cases :
    (m : Memory) (vaddr frame flags : ℕ)
    → ((set_page m vaddr frame flags).1 ≡ m)
      ⊎ ((set_page m vaddr frame flags).1
          ≡ write_entry m (pde_num vaddr) (pte_num vaddr) (frame_of frame + flags_of flags))
unfolding set_page
set_page-cases m vaddr frame flags = ground arith

-- Setting a page leaves what is read for every other page as it was.
pub get_page-set_page_ne :
    (m : Memory) (vaddr frame flags vaddr' : ℕ)
    → vaddr < 0xFFC00000
    → vaddr / page_size ≢ vaddr' / page_size
    → let m' = (set_page m vaddr frame flags).1 in
      (get_page m' vaddr' ≡ get_page m vaddr')
      × (page_is_mapped m' vaddr' ≡ page_is_mapped m vaddr')
get_page-set_page_ne m vaddr frame flags vaddr' low ne = elim (set_page-cases m vaddr frame flags) [
  | inl e ↦ (ap (λ k. get_page k vaddr') e, ap (λ k. page_is_mapped k vaddr') e)
  | inr e ↦
      let t = pde_num vaddr in
      let p = pte_num vaddr in
      let x = frame_of frame + flags_of flags in
      let out = not_self vaddr low in
      let same =
        reads_alike m (write_entry m t p x) vaddr' (ptable-write_entry m t p x out)
          (read_other m vaddr vaddr' x out ne) in
      (ap (λ k. get_page k vaddr') e ∙ same.0, ap (λ k. page_is_mapped k vaddr') e ∙ same.1)
]
