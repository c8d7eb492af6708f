-- ===== src/Kmalloc/Layout/Allocate.antt =====
-- Allocation from the designated victim and from the top chunk.
use mathlib.Core.Path.{subst}
use elco_os.Base.{
  ℕ, ◌+◌, ◌-◌, ◌%◌, ◌^◌, ◌≡◌, ◌≢◌, ◌≤◌, ◌<◌, ◌⊎◌, inl, inr, refl, sym, Bool, true, false, List, [],
  ◌∷◌, ◌++◌, arith, ltb, Bool-cases,
}
use elco_os.Kmalloc.Chunk.{Arena, sub32, next_chunk, set_header, set_cinuse, set_pinuse}
use elco_os.Kmalloc.Bins.{split_off, mark_inuse}
use elco_os.Kmalloc.Top.{allocate_dv, cut_top}
use elco_os.Kmalloc.Layout.{Block, Tagged, Tagged-replace, total, keeps, used_after}
use elco_os.Kmalloc.Layout.Split.{cut-at, use-before}

allocate_dv-run_whole :
    (a : Arena) (n : ℕ)
    → a.d_victim ≢ 0
    → n ≤ a.d_victim_size
    → a.d_victim_size < n + 16
    → allocate_dv a n
      ≡ (a.d_victim + 8, record (mark_inuse a a.d_victim) { d_victim = 0; d_victim_size = 0 })
unfolding allocate_dv
allocate_dv-run_whole a n nz fits small = ground arith

allocate_dv-run_split :
    (a : Arena) (n : ℕ)
    → a.d_victim ≢ 0
    → n + 16 ≤ a.d_victim_size
    → allocate_dv a n ≡ (
      a.d_victim + 8,
      record (split_off a a.d_victim n (a.d_victim_size - n)) {
        d_victim = a.d_victim + n;
        d_victim_size = a.d_victim_size - n;
      },
    )
unfolding allocate_dv
allocate_dv-run_split a n nz fits = ground arith

-- What an allocation of `n` bytes from the designated victim of `v` bytes at `d` gives: the payload,
-- and the victim in use or cut, with the blocks before and behind it as they were.
abbrev pub FromVictim :
    (before : Bool) (c d n v : ℕ) (xs ys : List Block) (end : ℕ) → ℕ × Arena → Type 0
FromVictim before c d n v xs ys end (payload, a) =
    (payload ≡ d + 8)
    × (((v < n + 16)
          × (a.d_victim ≡ 0)
          × (a.d_victim_size ≡ 0)
          × Tagged a before c (xs ++ (v, true) ∷ ys) end)
        ⊎ ((n + 16 ≤ v)
            × (a.d_victim ≡ d + n)
            × (a.d_victim_size ≡ v - n)
            × Tagged a before c (xs ++ (n, true) ∷ (v - n, false) ∷ ys) end))

-- Allocation from the designated victim, which is a free block of the heap behind one in use: if 16
-- bytes or more remain they are the new victim, else the block is given as it is and there is no
-- victim. No other block changes.
pub allocate_dv-FromVictim :
    (a : Arena) (before : Bool) (c n : ℕ) (xs ys : List Block) (end : ℕ)
    → Tagged a before c (xs ++ (a.d_victim_size, false) ∷ ys) end
    → used_after before xs ≡ true
    → a.d_victim ≡ c + total xs
    → a.d_victim ≢ 0
    → n % 8 ≡ 0
    → 8 ≤ n
    → n ≤ a.d_victim_size
    → FromVictim before c a.d_victim n a.d_victim_size xs ys end (allocate_dv a n)
allocate_dv-FromVictim a before c n xs ys end t used at nz al pos fits =
    elim (Bool-cases (ltb a.d_victim_size (n + 16))) [
      | inl small ↦ rw (allocate_dv-run_whole a n nz fits (ground arith)) (
        refl,
        inl (
          ground arith,
          refl,
          refl,
          (let whole =
                subst
                  (λ d. Tagged (mark_inuse a d) before c (xs ++ (a.d_victim_size, true) ∷ ys) end)
                  (sym at) (use-before a before c a.d_victim_size xs ys end t used) in
              keeps (mark_inuse a a.d_victim)
                (record (mark_inuse a a.d_victim) { d_victim = 0; d_victim_size = 0 }) before c
                (xs ++ (a.d_victim_size, true) ∷ ys) end refl refl whole),
        ),
      )
      | inr large ↦ rw (allocate_dv-run_split a n nz (ground arith)) (
        refl,
        inr (
          ground arith,
          refl,
          refl,
          keeps (split_off a a.d_victim n (a.d_victim_size - n))
              (record (split_off a a.d_victim n (a.d_victim_size - n)) {
                d_victim = a.d_victim + n;
                d_victim_size = a.d_victim_size - n;
              })
              before c (xs ++ (n, true) ∷ (a.d_victim_size - n, false) ∷ ys) end refl refl
              (cut-at a before c a.d_victim n a.d_victim_size xs ys end t used at al pos
                (ground arith)),
        ),
      )
    ]

-- the heap after the top chunk at `top` was given with `n` bytes
abbrev exhausted : Arena → (top n : ℕ) → Arena
exhausted a top n = record (set_header (set_header a top (set_cinuse (set_pinuse n))) (top + n) 0) {
  top_chunk = top + n;
  top_chunk_size = 0;
}

cut_top-run_whole :
    (a : Arena) (n : ℕ)
    → n % 8 ≡ 0
    → a.top_chunk_size < 2 ^ 32
    → n ≤ a.top_chunk_size
    → a.top_chunk_size < n + 16
    → cut_top a n ≡ (a.top_chunk + 8, exhausted a a.top_chunk n)
unfolding cut_top
cut_top-run_whole a n al word fits small =
    let a1 = set_header a a.top_chunk (set_cinuse (set_pinuse n)) in
    let far : next_chunk a1 a.top_chunk ≡ a.top_chunk + n = ground arith in
    let test : ltb (sub32 a.top_chunk_size n) 16 ≡ true = ground arith in rw test (rw far refl)

-- the heap after `n` bytes were cut off its top chunk
abbrev pub cut_off : Arena → (n : ℕ) → Arena
cut_off a n = record (split_off a a.top_chunk n (a.top_chunk_size - n)) {
  top_chunk = a.top_chunk + n;
  top_chunk_size = a.top_chunk_size - n;
}

pub cut_off-Tagged :
    (a : Arena) (before : Bool) (c n : ℕ) (xs : List Block) (end : ℕ)
    → Tagged a before c (xs ++ (a.top_chunk_size, false) ∷ []) end
    → used_after before xs ≡ true
    → a.top_chunk ≡ c + total xs
    → n % 8 ≡ 0
    → 8 ≤ n
    → n + 16 ≤ a.top_chunk_size
    → Tagged (cut_off a n) before c (xs ++ (n, true) ∷ (a.top_chunk_size - n, false) ∷ []) end
cut_off-Tagged a before c n xs end t used at al pos fits =
    keeps (split_off a a.top_chunk n (a.top_chunk_size - n)) (cut_off a n) before c
      (xs ++ (n, true) ∷ (a.top_chunk_size - n, false) ∷ []) end refl refl
      (cut-at a before c a.top_chunk n a.top_chunk_size xs [] end t used at al pos fits)

pub cut_top-run_split :
    (a : Arena) (n : ℕ)
    → a.top_chunk_size < 2 ^ 32
    → n + 16 ≤ a.top_chunk_size
    → cut_top a n ≡ (a.top_chunk + 8, cut_off a n)
unfolding cut_top
cut_top-run_split a n word fits =
    let rest : sub32 a.top_chunk_size n ≡ a.top_chunk_size - n = ground arith in
    let test : ltb (a.top_chunk_size - n) 16 ≡ false = ground arith in rw rest (rw test refl)

exhausted-Tagged :
    (a : Arena) (before : Bool) (c n t : ℕ) (xs : List Block) (end : ℕ)
    → Tagged a before c (xs ++ (t, false) ∷ []) end
    → used_after before xs ≡ true
    → n % 8 ≡ 0
    → 8 ≤ n
    → Tagged (exhausted a (c + total xs) n) before c (xs ++ (n, true) ∷ []) (c + total xs + n)
exhausted-Tagged a before c n t xs end tags used al pos =
    Tagged-replace a (exhausted a (c + total xs) n) before c xs ((t, false) ∷ []) ((n, true) ∷ [])
      end (c + total xs + n) tags (λ x lo hi. ground arith) (λ x lo hi. refl)
      (rw used (ground arith, al, pos, λ free. absurd (ground arith), refl))

-- What an allocation of `n` bytes from the top chunk of `t` bytes at `top` gives.
abbrev pub FromTop :
    (before : Bool) (c top n t : ℕ) (xs : List Block) (end : ℕ) → ℕ × Arena → Type 0
FromTop before c top n t xs end (payload, a) =
    (payload ≡ top + 8)
    × (a.top_chunk ≡ top + n)
    × (((t < n + 16) × (a.top_chunk_size ≡ 0) × Tagged a before c (xs ++ (n, true) ∷ []) (top + n))
        ⊎ ((n + 16 ≤ t)
            × (a.top_chunk_size ≡ t - n)
            × Tagged a before c (xs ++ (n, true) ∷ (t - n, false) ∷ []) end))

-- Allocation from the top chunk, which is the last block of the heap, free and behind a block in
-- use: if 16 bytes or more remain they are the new top chunk, else the heap ends behind the new
-- block with a top chunk of no bytes. No other block changes.
pub cut_top-FromTop :
    (a : Arena) (before : Bool) (c n : ℕ) (xs : List Block) (end : ℕ)
    → Tagged a before c (xs ++ (a.top_chunk_size, false) ∷ []) end
    → used_after before xs ≡ true
    → a.top_chunk ≡ c + total xs
    → a.top_chunk_size < 2 ^ 32
    → n % 8 ≡ 0
    → 8 ≤ n
    → n ≤ a.top_chunk_size
    → FromTop before c a.top_chunk n a.top_chunk_size xs end (cut_top a n)
cut_top-FromTop a before c n xs end t used at word al pos fits =
    elim (Bool-cases (ltb a.top_chunk_size (n + 16))) [
      | inl small ↦ rw (cut_top-run_whole a n al word fits (ground arith)) (
        refl,
        refl,
        inl (
          ground arith,
          refl,
          subst (λ d. Tagged (exhausted a d n) before c (xs ++ (n, true) ∷ []) (d + n)) (sym at)
              (exhausted-Tagged a before c n a.top_chunk_size xs end t used al pos),
        ),
      )
      | inr large ↦ rw (cut_top-run_split a n word (ground arith)) (
        refl,
        refl,
        inr (
          ground arith,
          refl,
          cut_off-Tagged a before c n xs end t used at al pos (ground arith),
        ),
      )
    ]
