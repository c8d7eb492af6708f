-- ===== src/BootMap/Regions.antt =====
-- The regions of the memory map.
use mathlib.Core.Path.{subst}
use elco_os.Base.{
  ℕ, zero, suc, ◌+◌, ◌-◌, ◌%◌, ◌^◌, ◌≡◌, ◌≢◌, ◌≤◌, ◌<◌, inl, inr, refl, sym, ◌∙◌, Bool, true, false,
  ◌&&◌, not, some, List, [], ◌∷◌, ◌++◌, length, length-append, last_or, arith, if◌then◌else◌, ◌==◌,
  leb, Bool-cases,
}
use elco_os.Memory.Start.{MemEntry}
use elco_os.BootMap.{
  MmapEntry, ChangePoint, Sweep, max_mmap_size, is_start, drop_last, replace_by, leave, overruling,
  close, update_map, sweep_change, sweep,
}

-- Regions, the last one first: each one has bytes and a type, ends at the limit or before it, and the
-- ones before it end where it begins or before that.
abbrev pub Stacked : (limit : ℕ) → List MemEntry → Type 0
Stacked limit [] = Unit {0}
Stacked limit (r ∷ rs) =
    (0 < r.size) × (r.kind ≢ 0) × (r.address + r.size ≤ limit) × Stacked r.address rs

pub Stacked-mono : (a b : ℕ) (rs : List MemEntry) → a ≤ b → Stacked a rs → Stacked b rs
Stacked-mono a b [] le h = tt
Stacked-mono a b (r ∷ rs) le (pos, k, e, h) = (pos, k, omega arith, h)

-- The state of the last loop at the address `a`: the regions end before the open one, or before `a`.
pub record Swept (a : ℕ) (s : Sweep) : Type 0 where
  pub opened : s.last_addr ≤ a
  pub regions : Stacked (if s.last_type == 0 then a else s.last_addr) s.mmap

close-Stacked : (a b : ℕ) (s : Sweep) → Swept a s → a ≤ b → b < 2 ^ 32 → Stacked b (close b s)
close-Stacked a b s h le lt = elim (Bool-cases (s.last_type == 0)) [
  | inl e ↦ rw e (
      Stacked-mono a b s.mmap le
        (subst (λ t. Stacked (if t then a else s.last_addr) s.mmap) e h.regions))
  | inr e ↦
      let before = subst (λ t. Stacked (if t then a else s.last_addr) s.mmap) e h.regions in
      let size : (b + 2 ^ 32 - s.last_addr) % 2 ^ 32 ≡ b - s.last_addr = omega (arith, h.opened) in
      rw e (
        rw size (elim (Bool-cases (b - s.last_addr == 0)) [
          | inl f ↦ rw f (Stacked-mono s.last_addr b s.mmap (omega (arith, h.opened)) before)
          | inr f ↦ rw f (ground arith, ground arith, omega (arith, h.opened), before)
        ]))
]

Swept-mono : (a b : ℕ) (s : Sweep) → Swept a s → a ≤ b → Swept b s
Swept-mono a b s h le = record {
  opened = omega (arith, h.opened);
  regions = elim (Bool-cases (s.last_type == 0)) [
    | inl e ↦ rw e (
        Stacked-mono a b s.mmap le
          (subst (λ t. Stacked (if t then a else s.last_addr) s.mmap) e h.regions))
    | inr e ↦ rw e (subst (λ t. Stacked (if t then a else s.last_addr) s.mmap) e h.regions)
  ];
}

-- the regions, whether one is open or not
Swept-Stacked : (a : ℕ) (s : Sweep) → Swept a s → Stacked a s.mmap
Swept-Stacked a s h = elim (Bool-cases (s.last_type == 0)) [
  | inl e ↦ subst (λ t. Stacked (if t then a else s.last_addr) s.mmap) e h.regions
  | inr e ↦
      Stacked-mono s.last_addr a s.mmap h.opened
        (subst (λ t. Stacked (if t then a else s.last_addr) s.mmap) e h.regions)
]

-- Where the loop goes on, its state is right at the address; where it breaks, the regions are.
abbrev Goes : (b : ℕ) → Sweep × Bool → Type 0
Goes b r = Stacked b r.0.mmap × (r.1 ≡ true → Swept b r.0)

Swept-Goes : (b : ℕ) (s : Sweep) → Swept b s → Goes b (s, true)
Swept-Goes b s h = (Swept-Stacked b s h, λ go. h)

update_map-Goes :
    (a b cur : ℕ) (s : Sweep) → Swept a s → a ≤ b → b < 2 ^ 32 → Goes b (update_map b cur s)
unfolding update_map
update_map-Goes a b cur s h le lt =
    let mmap = close b s in
    let regions = close-Stacked a b s h le lt in
    elim (Bool-cases (cur == s.last_type)) [
      | inl e ↦ rw e (Swept-Goes b s (Swept-mono a b s h le))
      | inr e ↦
          rw e
            (elim (Bool-cases
              (not (length mmap == length s.mmap) && leb max_mmap_size (length mmap))) [
                | inl f ↦ rw f (regions, λ go. absurd (ground (arith, go)))
                | inr f ↦ rw f (elim (Bool-cases (cur == 0)) [
                  | inl g ↦ rw g (
                      Swept-Goes b (record s { mmap = mmap; last_type = 0 })
                        (record { opened = omega (arith, h.opened); regions = regions }))
                  | inr g ↦ rw g (
                      Swept-Goes b (record s { mmap = mmap; last_addr = b; last_type = cur })
                        (record { opened = omega arith; regions = rw g regions }))
                ])
              ])
    ]

-- addresses of 32 bits, none below the one before it
abbrev pub Rising : (a : ℕ) → List ChangePoint → Type 0
Rising a [] = Unit {0}
Rising a (c ∷ cs) = (a ≤ c.addr) × (c.addr < 2 ^ 32) × Rising c.addr cs

module _ (at : ℕ → MmapEntry) where
  -- With `n` entries open, an end comes only where an entry is open.
  abbrev pub Balanced : (n : ℕ) → List ChangePoint → Type 0
  Balanced n [] = Unit {0}
  Balanced zero (c ∷ cs) = (is_start at c ≡ true) × Balanced 1 cs
  Balanced (suc n) (c ∷ cs) = Balanced (if is_start at c then suc (suc n) else n) cs

  length-drop_last : (x : ℕ) (xs : List ℕ) → length (drop_last (x ∷ xs)) ≡ length xs
  length-drop_last x [] = refl
  length-drop_last x (y ∷ ys) = omega (arith, length-drop_last y ys)

  length-replace_by : (e last : ℕ) (xs : List ℕ) → length (replace_by e last xs) ≡ length xs
  length-replace_by e last [] = refl
  length-replace_by e last (x ∷ xs) = ground (arith, length-replace_by e last xs)

  leave-length :
      (e x : ℕ) (xs : List ℕ) → (o : List ℕ) × (leave e (x ∷ xs) ≡ some o) × (length o ≡ length xs)
  leave-length e x xs =
      let last = last_or x xs in
      (
        drop_last (replace_by e last (x ∷ xs)),
        refl,
        elim (Bool-cases (x == e)) [
          | inl f ↦ rw f (length-drop_last last xs)
          | inr f ↦ rw f (length-drop_last x (replace_by e last xs) ∙ length-replace_by e last xs)
        ],
      )

  update_map-overlap : (b cur : ℕ) (s : Sweep) → (update_map b cur s).0.overlap ≡ s.overlap
  unfolding update_map
  update_map-overlap b cur s = ground arith

  Balanced-start :
      (n : ℕ) (c : ChangePoint) (cs : List ChangePoint)
      → is_start at c ≡ true
      → Balanced n (c ∷ cs)
      → Balanced (suc n) cs
  Balanced-start zero c cs e h = h.1
  Balanced-start (suc n) c cs e h = subst (λ b. Balanced (if b then suc (suc n) else n) cs) e h

  -- the list of open entries after a change
  step_overlap :
      (c : ChangePoint) (cs : List ChangePoint) (open_entries : List ℕ)
      → Balanced (length open_entries) (c ∷ cs)
      → (o : List ℕ) × ((if is_start at c
            then some (open_entries ++ c.entry ∷ [])
            else leave c.entry open_entries)
          ≡ some o)
        × Balanced (length o) cs
  step_overlap c cs open_entries h = elim (Bool-cases (is_start at c)) [
    | inl e ↦ (
      open_entries ++ c.entry ∷ [],
      rw e refl,
      subst (λ n. Balanced n cs) (omega (arith, length-append open_entries (c.entry ∷ [])))
          (Balanced-start (length open_entries) c cs e h),
    )
    | inr e ↦ ending open_entries e h
  ]
    where
      ending :
          (xs : List ℕ)
          → is_start at c ≡ false
          → Balanced (length xs) (c ∷ cs)
          → (o : List ℕ) × ((if is_start at c then some (xs ++ c.entry ∷ []) else leave c.entry xs)
              ≡ some o)
            × Balanced (length o) cs
      ending [] e h = absurd (ground (arith, e, h.0))
      ending (x ∷ xs) e h =
          let (o, run, len) = leave-length c.entry x xs in
          (
            o,
            rw e run,
            subst (λ n. Balanced n cs) (sym len)
                (subst (λ b. Balanced (if b then suc (suc (length xs)) else length xs) cs) e h),
          )

  sweep_change-Goes :
      (a : ℕ) (c : ChangePoint) (cs : List ChangePoint) (s : Sweep)
      → Swept a s
      → a ≤ c.addr
      → c.addr < 2 ^ 32
      → Balanced (length s.overlap) (c ∷ cs)
      → (r : Sweep × Bool) × (sweep_change at c s ≡ some r)
        × Goes c.addr r
        × Balanced (length r.0.overlap) cs
  unfolding sweep_change
  sweep_change-Goes a c cs s h le lt b =
      let (o, run, b') = step_overlap c cs s.overlap b in
      let s1 = record s { overlap = o } in
      let h1 : Swept a s1 = record { opened = h.opened; regions = h.regions } in
      (
        update_map c.addr (overruling at o) s1,
        rw run refl,
        update_map-Goes a c.addr (overruling at o) s1 h1 le lt,
        rw (update_map-overlap c.addr (overruling at o) s1) b',
      )

  -- The last loop of get_mmap, over changes in rising order of which no end comes without an open entry,
  -- gives a map of regions that have bytes and a type, in order, and of which no two overlap.
  pub sweep-Stacked :
      (a : ℕ) (cs : List ChangePoint) (s : Sweep)
      → Swept a s
      → a ≤ 2 ^ 32
      → Rising a cs
      → Balanced (length s.overlap) cs
      → (s' : Sweep) × (sweep at cs s ≡ some s') × Stacked (2 ^ 32) s'.mmap
  unfolding sweep
  sweep-Stacked a [] s h le up b =
      (s, refl, Stacked-mono a (2 ^ 32) s.mmap le (Swept-Stacked a s h))
  sweep-Stacked a (c ∷ cs) s h le (lo, lt, up) b =
      let (r, run, (regions, next), b') = sweep_change-Goes a c cs s h lo lt b in
      elim (Bool-cases r.1) [
        | inl e ↦
            let (s', rest, done) = sweep-Stacked c.addr cs r.0 (next e) (omega (arith, lt)) up b' in
            (s', rw run (rw e rest), done)
        | inr e ↦ (
          r.0,
          rw run (rw e refl),
          Stacked-mono c.addr (2 ^ 32) r.0.mmap (omega (arith, lt)) regions,
        )
      ]
