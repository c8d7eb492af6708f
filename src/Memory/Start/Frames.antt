-- ===== src/Memory/Start/Frames.antt =====
-- Which frames of the memory map become free frames.
use mathlib.Core.Path.{subst}
use elco_os.Base.{
  ℕ, zero, suc, ◌+◌, ◌-◌, ◌*◌, ◌/◌, ◌%◌, ◌^◌, ◌≡◌, ◌≢◌, ◌≤◌, ◌<◌, ◌↔◌, refl, sym, ap, ◌∙◌, true,
  false, some, List, [], ◌∷◌, arith, ◌∈◌, ◌==◌, ltb, ==_iff, eq-cases, inl, inr, ◌⊎◌, ◌++◌, ◌-◌,
  leb, Bool-cases, has-append, has, ◌||◌,
}
use elco_os.Memory.Paging.{Memory, page_size}
use elco_os.Memory.FrameStack.{pstack_push}
use elco_os.Memory.Start.{
  MemEntry, page_align, page_floor, frame_rounds, frame_loop, push_entry, push_entries,
}

-- the frames in the order in which they are pushed
abbrev pub push_all : Memory → List ℕ → Memory
push_all m [] = m
push_all m (f ∷ fs) = push_all (pstack_push m f).1 fs

-- `n` frames from `f` on
abbrev pub frames_from : (n f : ℕ) → List ℕ
frames_from zero f = []
frames_from (suc n) f = f ∷ frames_from n (f + page_size)

frame_loop-all :
    (fuel n : ℕ) (m : Memory) (f : ℕ)
    → n < fuel
    → f + n * page_size < 2 ^ 32
    → frame_loop fuel m f (f + n * page_size) ≡ some (push_all m (frames_from n f))
unfolding frame_loop
frame_loop-all zero n m f lt word = absurd (omega arith)
frame_loop-all (suc fuel) zero m f lt word = ground arith
frame_loop-all (suc fuel) (suc n) m f lt word =
    let step : (f + page_size) % 2 ^ 32 ≡ f + page_size = omega arith in
    let end : f + page_size + n * page_size ≡ f + suc n * page_size = omega arith in
    let go : ltb f (f + suc n * page_size) ≡ true = ground arith in
    let ih =
      frame_loop-all fuel n (pstack_push m f).1 (f + page_size) (omega arith) (omega arith) in
    rw go (
      rw step (
        subst
          (λ e.
            frame_loop fuel (pstack_push m f).1 (f + page_size) e
            ≡ some (push_all (pstack_push m f).1 (frames_from n (f + page_size))))
          end ih))

frames_from_iff :
    (n f g : ℕ)
    → f % page_size ≡ 0
    → (g ∈ frames_from n f) ↔ ((g % page_size ≡ 0) × (f ≤ g) × (g + page_size ≤ f + n * page_size))
frames_from_iff zero f g al = (λ i. absurd (ground arith), λ (al', lo, hi). absurd (omega arith))
frames_from_iff (suc n) f g al =
    let (into, back) = frames_from_iff n (f + page_size) g (omega arith) in
    elim (eq-cases g f) [
      | inl same ↦
          let at : g ≡ f = (==_iff g f).0 same in
          (λ i. (ap (λ x. x % page_size) at ∙ al, omega arith, omega arith), λ r. ground arith)
      | inr ne ↦
          let away : g ≢ f = ground arith in
          (
            λ i. (let (al', lo, hi) = into (ground arith) in (al', omega arith, omega arith)),
            λ (al', lo, hi). (let i = back (al', omega arith, omega arith) in ground arith),
          )
    ]

push_all-append :
    (m : Memory) (xs ys : List ℕ) → push_all m (xs ++ ys) ≡ push_all (push_all m xs) ys
push_all-append m [] ys = refl
push_all-append m (x ∷ xs) ys = push_all-append (pstack_push m x).1 xs ys

frame_loop-done :
    (fuel : ℕ) (m : Memory) (f end : ℕ) → end ≤ f → frame_loop (suc fuel) m f end ≡ some m
unfolding frame_loop
frame_loop-done fuel m f end le = let stop : ltb f end ≡ false = ground arith in rw stop refl

-- the frame `g` lies in the entry as a whole
abbrev pub Within : MemEntry → ℕ → Type 0
Within e g = (g % 4096 ≡ 0) × (e.address ≤ g) × (g + 4096 ≤ e.address + e.size)

-- the entry ends below 4 GB and does not begin in the last page
abbrev pub Fits : MemEntry → Type 0
Fits e = (e.address ≤ 2 ^ 32 - 4096) × (e.address + e.size < 2 ^ 32)

-- Rounding leaves no page, or `n` of them.
rounded :
    (e : MemEntry)
    → Fits e
    → (page_floor ((e.address + e.size) % 2 ^ 32) ≤ page_align e.address)
      ⊎ ((n : ℕ) × (n < 2 ^ 20)
          × (page_floor ((e.address + e.size) % 2 ^ 32) ≡ page_align e.address + n * page_size))
rounded e (low, high) =
    let first = page_align e.address in
    let end = page_floor ((e.address + e.size) % 2 ^ 32) in
    elim (Bool-cases (leb end first)) [
      | inl none_left ↦ inl (ground arith)
      | inr some_left ↦
          let lt : first < end = ground arith in
          inr ((end - first) / 4096, omega arith, omega arith)
    ]

free_entry-Frames :
    (m : Memory) (e : MemEntry)
    → e.kind ≡ 1
    → Fits e
    → (fs : List ℕ) × (push_entry m e ≡ some (push_all m fs)) × ((g : ℕ) → (g ∈ fs) ↔ Within e g)
unfolding push_entry
free_entry-Frames m e free (low, high) =
    let first = page_align e.address in
    let end = page_floor ((e.address + e.size) % 2 ^ 32) in
    let yes : (e.kind == 1) ≡ true = ground arith in
    elim (rounded e (low, high)) [
      | inl le ↦ (
        [],
        (rw yes (frame_loop-done (2 ^ 20) m first end le)),
        λ g. (λ i. absurd (ground arith), λ (al, lo, hi). absurd (omega arith)),
      )
      | inr (n, lt, at) ↦ (
        frames_from n first,
        (rw yes (
            subst (λ e. frame_loop frame_rounds m first e ≡ some (push_all m (frames_from n first)))
              (sym at) (frame_loop-all frame_rounds n m first (omega arith) (omega arith)))),
        λ g.
            (let (into, back) = frames_from_iff n first g (omega arith) in
              (
                λ i. (let (al, lo, hi) = into i in (al, omega arith, omega arith)),
                λ (al, lo, hi). back (al, omega arith, omega arith),
              )),
      )
    ]

abbrev pub AllFit : List MemEntry → Type 0
AllFit [] = Unit {0}
AllFit (e ∷ es) = Fits e × AllFit es

-- the frame lies in a free entry of the map as a whole
abbrev pub Offered : List MemEntry → ℕ → Type 0
Offered [] g = true ≡ false
Offered (e ∷ es) g = ((e.kind ≡ 1) × Within e g) ⊎ Offered es g

-- one entry, of any type
entry-Frames :
    (m : Memory) (e : MemEntry)
    → Fits e
    → (fs : List ℕ) × (push_entry m e ≡ some (push_all m fs))
      × ((g : ℕ) → (g ∈ fs) ↔ ((e.kind ≡ 1) × Within e g))
unfolding push_entry
entry-Frames m e fits = elim (eq-cases e.kind 1) [
  | inl free ↦
      let yes : e.kind ≡ 1 = (==_iff e.kind 1).0 free in
      let (fs, run, iff) = free_entry-Frames m e yes fits in
      (fs, run, λ g. (λ i. (yes, (iff g).0 i), λ (k, w). (iff g).1 w))
  | inr other ↦
      ([], rw other refl, λ g. (λ i. absurd (ground arith), λ (k, w). absurd (ground arith)))
]

append_iff :
    {P Q : Type 0} (g : ℕ) (fs gs : List ℕ) → (g ∈ fs) ↔ P → (g ∈ gs) ↔ Q → (g ∈ fs ++ gs) ↔ (P ⊎ Q)
append_iff g fs gs (into, back) (into', back') = (
  λ i. elim (Bool-cases (has g fs)) [
    | inl first ↦ inl (into first)
    | inr not_first ↦
        (let both : (has g fs || has g gs) ≡ true = sym (has-append g fs gs) ∙ i in
          inr (into' (ground arith)))
  ],
  λ s. elim s [
    | inl p ↦ has-append g fs gs ∙ (let j : has g fs ≡ true = back p in ground arith)
    | inr q ↦ has-append g fs gs ∙ (let j : has g gs ≡ true = back' q in ground arith)
  ],
)

-- memory_init puts frames on the stack of free frames, and each loop ends: the frames are exactly
-- those that lie as a whole in a free entry of the memory map. No entry reaches 4 GB or begins in
-- its last page.
pub push_entries-Frames :
    (m : Memory) (es : List MemEntry)
    → AllFit es
    → (fs : List ℕ) × (push_entries m es ≡ some (push_all m fs))
      × ((g : ℕ) → (g ∈ fs) ↔ Offered es g)
unfolding push_entries
push_entries-Frames m [] fit =
    ([], refl, λ g. (λ i. absurd (ground arith), λ o. absurd (ground arith)))
push_entries-Frames m (e ∷ es) (fit, fits) =
    let (fs, run, iff) = entry-Frames m e fit in
    let (gs, runs, iffs) = push_entries-Frames (push_all m fs) es fits in
    (
      fs ++ gs,
      rw run (rw runs (rw (push_all-append m fs gs) refl)),
      λ g. append_iff g fs gs (iff g) (iffs g),
    )
