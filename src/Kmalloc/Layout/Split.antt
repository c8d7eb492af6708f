-- ===== src/Kmalloc/Layout/Split.antt =====
-- Allocation from a free block, the designated victim and the top chunk.
use mathlib.Core.Path.{subst}
use elco_os.Base.{
  ℕ, ◌+◌, ◌-◌, ◌%◌, ◌≡◌, ◌≢◌, ◌≤◌, ◌<◌, refl, sym, ◌∙◌, Bool, true, false, List, [], ◌∷◌, ◌++◌,
  arith,
}
use elco_os.Kmalloc.Chunk.{Arena, next_chunk, set_header, set_cinuse, set_pinuse}
use elco_os.Kmalloc.Bins.{split_off, mark_inuse}
use elco_os.Kmalloc.Layout.{
  Block, Tagged, Tagged-frame, Tagged-from, Tagged-replace, tag, total, used_after,
}

split_off-places :
    (a : Arena) (c n rest : ℕ)
    → n % 8 ≡ 0
    → rest % 8 ≡ 0
    → 8 ≤ n
    → ((split_off a c n rest).header c ≡ tag n true true)
      × ((split_off a c n rest).header (c + n) ≡ tag rest false true)
      × ((split_off a c n rest).prev_foot (c + n + rest) ≡ rest)
      × ((x : ℕ) → x ≢ c → x ≢ c + n → (split_off a c n rest).header x ≡ a.header x)
      × ((x : ℕ) → x ≢ c + n + rest → (split_off a c n rest).prev_foot x ≡ a.prev_foot x)
unfolding split_off
split_off-places a c n rest al al' pos =
    let a2 = set_header (set_header a c (set_cinuse (set_pinuse n))) (c + n) (set_pinuse rest) in
    let far : next_chunk a2 (c + n) ≡ c + n + rest = ground arith in
    rw far
      (ground arith, ground arith, ground arith, λ x ne ne'. ground arith, λ x ne. ground arith)

-- A free block is cut: its first part is in use, the rest is a free block.
pub split_off-Tagged :
    (a : Arena) (c n rest : ℕ) (ys : List Block) (end : ℕ)
    → Tagged a true c ((n + rest, false) ∷ ys) end
    → n % 8 ≡ 0
    → rest % 8 ≡ 0
    → 8 ≤ n
    → 8 ≤ rest
    → Tagged (split_off a c n rest) true c ((n, true) ∷ (rest, false) ∷ ys) end
split_off-Tagged a c n rest ys end (e, al, s, g, t) al_n al_rest pos pos' =
    let (h0, h1, f, hs, fs) = split_off-places a c n rest al_n al_rest pos in
    let behind : Tagged a false (c + n + rest) ys end =
      subst (λ x. Tagged a false x ys end) (omega arith) t in
    (
      h0,
      al_n,
      pos,
      λ free. absurd (ground arith),
      (
        h1,
        al_rest,
        pos',
        λ free. f,
        Tagged-frame a (split_off a c n rest) false (c + n + rest) ys end behind
            (λ x lo hi. hs x (omega arith) (omega arith)) (λ x lo hi. fs x (omega arith)),
      ),
    )

mark_inuse-places :
    (a : Arena) (c size : ℕ)
    → a.header c ≡ tag size false true
    → size % 8 ≡ 0
    → 8 ≤ size
    → ((mark_inuse a c).header c ≡ tag size true true)
      × ((mark_inuse a c).header (c + size) ≡ set_pinuse (a.header (c + size)))
      × ((x : ℕ) → x ≢ c → x ≢ c + size → (mark_inuse a c).header x ≡ a.header x)
      × ((x : ℕ) → (mark_inuse a c).prev_foot x ≡ a.prev_foot x)
unfolding mark_inuse
mark_inuse-places a c size e al pos =
    let a1 = set_header a c (set_cinuse (a.header c)) in
    let far : next_chunk a1 c ≡ c + size = ground arith in
    rw far (ground arith, ground arith, λ x ne ne'. ground arith, λ x. refl)

-- The blocks behind a block that is put to use, with PINUSE set in the first one.
set_pinuse-Tagged :
    (a a' : Arena) (c : ℕ) (ys : List Block) (end : ℕ)
    → Tagged a false c ys end
    → a'.header c ≡ set_pinuse (a.header c)
    → ((x : ℕ) → c < x → a'.header x ≡ a.header x)
    → ((x : ℕ) → a'.prev_foot x ≡ a.prev_foot x)
    → Tagged a' true c ys end
set_pinuse-Tagged a a' c [] end t h hs fs = t
set_pinuse-Tagged a a' c ((size, used) ∷ ys) end (e, al, s, g, t) h hs fs = (
  ground arith,
  al,
  s,
  λ free. fs (c + size) ∙ g free,
  Tagged-frame a a' used (c + size) ys end t (λ x lo hi. hs x (omega arith)) (λ x lo hi. fs x),
)

-- A free block is put to use as it is; the block behind it learns of that.
pub mark_inuse-Tagged :
    (a : Arena) (c size : ℕ) (ys : List Block) (end : ℕ)
    → Tagged a true c ((size, false) ∷ ys) end
    → Tagged (mark_inuse a c) true c ((size, true) ∷ ys) end
mark_inuse-Tagged a c size ys end (e, al, s, g, t) =
    let (h0, h1, hs, fs) = mark_inuse-places a c size e al s in
    (
      h0,
      al,
      s,
      λ free. absurd (ground arith),
      set_pinuse-Tagged a (mark_inuse a c) (c + size) ys end t h1
          (λ x lo. hs x (omega arith) (omega arith)) fs,
    )

-- The blocks before some place stay when the blocks from there on are cut or put to use.
cut-before :
    (a : Arena) (before : Bool) (c n rest : ℕ) (xs ys : List Block) (end : ℕ)
    → Tagged a before c (xs ++ (n + rest, false) ∷ ys) end
    → used_after before xs ≡ true
    → n % 8 ≡ 0
    → rest % 8 ≡ 0
    → 8 ≤ n
    → 8 ≤ rest
    → Tagged (split_off a (c + total xs) n rest) before c (xs ++ (n, true) ∷ (rest, false) ∷ ys) end
cut-before a before c n rest xs ys end t used al al' pos pos' =
    let here = Tagged-from a before c xs ((n + rest, false) ∷ ys) end t in
    let new =
      split_off-Tagged a (c + total xs) n rest ys end
        (subst (λ u. Tagged a u (c + total xs) ((n + rest, false) ∷ ys) end) used here) al al' pos
        pos' in
    let (h0, h1, f, hs, fs) = split_off-places a (c + total xs) n rest al al' pos in
    Tagged-replace a (split_off a (c + total xs) n rest) before c xs ((n + rest, false) ∷ ys)
      ((n, true) ∷ (rest, false) ∷ ys) end end t (λ x lo hi. hs x (omega arith) (omega arith))
      (λ x lo hi. fs x (omega arith))
      (subst
        (λ u.
          Tagged (split_off a (c + total xs) n rest) u (c + total xs)
            ((n, true) ∷ (rest, false) ∷ ys) end)
        (sym used) new)

pub use-before :
    (a : Arena) (before : Bool) (c size : ℕ) (xs ys : List Block) (end : ℕ)
    → Tagged a before c (xs ++ (size, false) ∷ ys) end
    → used_after before xs ≡ true
    → Tagged (mark_inuse a (c + total xs)) before c (xs ++ (size, true) ∷ ys) end
use-before a before c size xs ys end t used =
    let here =
      subst (λ u. Tagged a u (c + total xs) ((size, false) ∷ ys) end) used
        (Tagged-from a before c xs ((size, false) ∷ ys) end t) in
    let (h0, h1, hs, fs) = mark_inuse-places a (c + total xs) size here.0 here.1 here.2 in
    Tagged-replace a (mark_inuse a (c + total xs)) before c xs ((size, false) ∷ ys)
      ((size, true) ∷ ys) end end t (λ x lo hi. hs x (omega arith) (omega arith)) (λ x lo hi. fs x)
      (subst (λ u. Tagged (mark_inuse a (c + total xs)) u (c + total xs) ((size, true) ∷ ys) end)
        (sym used) (mark_inuse-Tagged a (c + total xs) size ys end here))

rest_aligned : (n v : ℕ) → n % 8 ≡ 0 → v % 8 ≡ 0 → n ≤ v → (v - n) % 8 ≡ 0
rest_aligned n v al al' fits = omega arith

-- the free block at `d` is cut, and 16 bytes or more of it remain
pub cut-at :
    (a : Arena) (before : Bool) (c d n v : ℕ) (xs ys : List Block) (end : ℕ)
    → Tagged a before c (xs ++ (v, false) ∷ ys) end
    → used_after before xs ≡ true
    → d ≡ c + total xs
    → n % 8 ≡ 0
    → 8 ≤ n
    → n + 16 ≤ v
    → Tagged (split_off a d n (v - n)) before c (xs ++ (n, true) ∷ (v - n, false) ∷ ys) end
cut-at a before c d n v xs ys end t used at al pos fits =
    let here = Tagged-from a before c xs ((v, false) ∷ ys) end t in
    let parts : v ≡ n + (v - n) = omega arith in
    let t' = subst (λ v. Tagged a before c (xs ++ (v, false) ∷ ys) end) parts t in
    subst
      (λ d. Tagged (split_off a d n (v - n)) before c (xs ++ (n, true) ∷ (v - n, false) ∷ ys) end)
      (sym at)
      (cut-before a before c n (v - n) xs ys end t' used al
        (rest_aligned n v al here.1 (omega arith)) pos (omega arith))
