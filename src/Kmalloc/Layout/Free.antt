-- ===== src/Kmalloc/Layout/Free.antt =====
-- kfree of a block between blocks in use.
use elco_os.Base.{
  ℕ, ◌+◌, ◌-◌, ◌/◌, ◌%◌, ◌≡◌, ◌≢◌, ◌≤◌, ◌<◌, ◌⊎◌, inl, inr, refl, ◌∙◌, Bool, true, false, some,
  List, ◌∷◌, ◌++◌, ◌∉◌, arith, if◌then◌else◌, ◌==◌, ltb, Bool-cases, ==_iff,
}
use elco_os.Kmalloc.Chunk.{
  Arena, get_chunk_size, is_inuse, prev_inuse, is_init, address_ok, set_header, set_prev_foot,
  set_pinuse, clear_pinuse,
}
use elco_os.Kmalloc.Dllist.Ring.{Ring}
use elco_os.Kmalloc.Bins.{calc_tbin}
use elco_os.Kmalloc.Merge.{settle_free, free_before_used, merge_free_chunks}
use elco_os.Kmalloc.Api.{kfree, free_up_to}
use elco_os.Kmalloc.Layout.{
  Block, Tagged, Tagged-frame, Tagged-from, Tagged-replace, Tagged-total, tag_lem, total,
  used_after, keeps,
}
use elco_os.Kmalloc.Layout.Bin.{
  SameTags, if-SameTags, bin_chunk-SameTags, bin_chunk-small, bin_chunk-large,
}

-- the tags of the free block `c` and of the block in use behind it
abbrev freed : Arena → (c size : ℕ) → Arena
freed a c size =
    let a1 = set_prev_foot (set_header a c (set_pinuse size)) (c + size) size in
    set_header a1 (c + size) (clear_pinuse (a1.header (c + size)))

free_before_used-SameTags :
    (a : Arena) (c size : ℕ) → SameTags (freed a c size) (free_before_used a c size (c + size))
unfolding free_before_used settle_free
free_before_used-SameTags a c size =
    if-SameTags (freed a c size) _ _ (c == a.d_victim) (refl, refl, refl)
      (bin_chunk-SameTags (freed a c size) c)

freed-Tagged :
    (a : Arena) (before : Bool) (c size next_size : ℕ) (xs ys : List Block) (end : ℕ)
    → Tagged a before c (xs ++ (size, true) ∷ (next_size, true) ∷ ys) end
    → used_after before xs ≡ true
    → Tagged
        (freed a (c + total xs) size)
        before
        c
        (xs ++ (size, false) ∷ (next_size, true) ∷ ys)
        end
freed-Tagged a before c size next_size xs ys end t used =
    let d = c + total xs in
    let (e, al, pos, g, (e', al', pos', g', t')) =
      Tagged-from a before c xs ((size, true) ∷ (next_size, true) ∷ ys) end t in
    Tagged-replace a (freed a d size) before c xs ((size, true) ∷ (next_size, true) ∷ ys)
      ((size, false) ∷ (next_size, true) ∷ ys) end end t (λ x lo hi. ground arith)
      (λ x lo hi. ground arith)
      (rw used (
        ground arith,
        al,
        pos,
        λ free. ground arith,
        (
          ground arith,
          al',
          pos',
          λ free. absurd (ground arith),
          Tagged-frame a (freed a d size) true (d + size + next_size) ys end t'
              (λ x lo hi. ground arith) (λ x lo hi. ground arith),
        ),
      ))

pub kfree-run :
    (a : Arena) (c size : ℕ)
    → is_init a ≡ true
    → address_ok a c ≡ true
    → address_ok a (c + size) ≡ true
    → get_chunk_size a c ≡ size
    → is_inuse a c ≡ true
    → prev_inuse a c ≡ true
    → kfree a (c + 8) ≡ merge_free_chunks a c size (c + size)
unfolding kfree free_up_to
kfree-run a c size init ok ok' e used before =
    let here : c + 8 - 8 ≡ c = omega arith in
    let nz : (c + 8 == 0) ≡ false = ground arith in
    rw nz (rw here (rw init (rw ok (rw used (rw before (rw e (rw ok' refl)))))))

-- Where the freed chunk is kept: it is the designated victim, or the first one of its small bin, before
-- those that were there, or it is large, its tree bin is marked, and it is the root of that bin if the
-- bin was empty.
abbrev pub Settled : (a a' : Arena) → (chunk size : ℕ) → List ℕ → Type 0
Settled a a' chunk size zs =
    ((chunk ≡ a.d_victim) × (a'.d_victim ≡ chunk) × (a'.d_victim_size ≡ size))
    ⊎ ((chunk ≢ a.d_victim)
        × (((size < 256)
              × (a'.sbinmap (size / 8) ≡ true)
              × Ring a'.links (a'.sbin (size / 8)) (chunk ∷ zs))
            ⊎ ((256 ≤ size)
                × (a'.tbinmap (calc_tbin size) ≡ true)
                × (a'.tbin (calc_tbin size)
                    ≡ (if a.tbin (calc_tbin size) == 0 then chunk else a.tbin (calc_tbin size))))))

free_before_used-Settled :
    (a : Arena) (c size : ℕ) (zs : List ℕ)
    → size % 8 ≡ 0
    → 8 ≤ size
    → c ≢ 0
    → (size < 256 → Ring a.links (a.sbin (size / 8)) zs)
    → c ∉ zs
    → Settled a (free_before_used a c size (c + size)) c size zs
unfolding free_before_used settle_free
free_before_used-Settled a c size zs al pos nz ring out = elim (Bool-cases (c == a.d_victim)) [
  | inl victim ↦ rw victim (inl ((==_iff c a.d_victim).0 victim, ground arith, refl))
  | inr other ↦
      let sized : get_chunk_size (freed a c size) c ≡ size = ground arith in
      rw other (
        inr (
          ground arith,
          elim (Bool-cases (ltb size 256)) [
            | inl small ↦
                let lt : size < 256 = ground arith in
                let (bit, circle) =
                  bin_chunk-small (freed a c size) c size zs sized lt (ring lt) nz out in
                inl (lt, bit, circle)
            | inr large ↦
                let ge : 256 ≤ size = ground arith in
                let (bit, root) = bin_chunk-large (freed a c size) c size sized ge nz in
                inr (ge, bit, root)
          ],
        ))
]

-- what kfree does with a block between two blocks in use
pub kfree-free_before_used :
    (a : Arena) (before : Bool) (c size next_size : ℕ) (xs ys : List Block) (end : ℕ)
    → Tagged a before c (xs ++ (size, true) ∷ (next_size, true) ∷ ys) end
    → used_after before xs ≡ true
    → is_init a ≡ true
    → a.heap_start ≤ c
    → end ≤ a.heap_start + a.heap_size
    → let d = c + total xs in
      let a' = free_before_used a d size (d + size) in
      (kfree a (d + 8) ≡ some a')
      × Tagged a' before c (xs ++ (size, false) ∷ (next_size, true) ∷ ys) end
      × (is_init a' ≡ true)
      × (size % 8 ≡ 0)
      × (8 ≤ size)
      × (d ≢ 0)
unfolding merge_free_chunks
kfree-free_before_used a before c size next_size xs ys end t used init lo hi =
    let d = c + total xs in
    let (e, al, pos, g, (e', al', pos', g', t')) =
      Tagged-from a before c xs ((size, true) ∷ (next_size, true) ∷ ys) end t in
    let far = Tagged-total a true (d + size + next_size) ys end t' in
    let (s, u, b) = tag_lem a d size true (used_after before xs) e al in
    let (s', u', b') = tag_lem a (d + size) next_size true true e' al' in
    let run = kfree-run a d size init (ground arith) (ground arith) s u (b ∙ used) in
    let (h, f, same) = free_before_used-SameTags a d size in
    (
      run ∙ rw u' refl,
      keeps (freed a d size) (free_before_used a d size (d + size)) before c
          (xs ++ (size, false) ∷ (next_size, true) ∷ ys) end h f
          (freed-Tagged a before c size next_size xs ys end t used),
      same ∙ init,
      al,
      pos,
      ground arith,
    )

-- kfree of a block between two blocks in use returns, and frees that block: no other block changes.
-- The chunk is then the designated victim, if it was that, or the first one of its small bin, which
-- held the chunks `zs`; for a chunk of 256 bytes or more its tree bin is marked in the map, and the
-- chunk is the root of that bin if the bin was empty, which else keeps its root.
pub kfree-freed :
    (a : Arena) (before : Bool) (c size next_size : ℕ) (xs ys : List Block) (end : ℕ) (zs : List ℕ)
    → Tagged a before c (xs ++ (size, true) ∷ (next_size, true) ∷ ys) end
    → used_after before xs ≡ true
    → (size < 256 → Ring a.links (a.sbin (size / 8)) zs)
    → c + total xs ∉ zs
    → is_init a ≡ true
    → a.heap_start ≤ c
    → end ≤ a.heap_start + a.heap_size
    → (a' : Arena) × (kfree a (c + total xs + 8) ≡ some a')
      × Tagged a' before c (xs ++ (size, false) ∷ (next_size, true) ∷ ys) end
      × Settled a a' (c + total xs) size zs
kfree-freed a before c size next_size xs ys end zs t used ring out init lo hi =
    let d = c + total xs in
    let (run, tags, init', al, pos, nz) =
      kfree-free_before_used a before c size next_size xs ys end t used init lo hi in
    (
      free_before_used a d size (d + size),
      run,
      tags,
      free_before_used-Settled a d size zs al pos nz ring out,
    )
