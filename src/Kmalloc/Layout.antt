-- ===== src/Kmalloc/Layout.antt =====
-- The boundary tags of kmalloc.h: the heap as a sequence of blocks.
pub mod Split
pub mod Allocate
pub mod Bin
pub mod Free
pub mod Twice
pub mod Shrink
pub mod Join
pub mod RoundTrip
pub mod Fresh
pub mod SmallBin
use mathlib.Core.Path.{subst}
use elco_os.Base.{
  ℕ, zero, suc, ◌+◌, ◌-◌, ◌/◌, ◌%◌, ◌^◌, ◌≡◌, ◌≢◌, ◌≤◌, ◌<◌, refl, sym, ap, ◌∙◌, Bool, true, false,
  List, [], ◌∷◌, ◌++◌, arith, if◌then◌else◌, ◌==◌, upd,
}
use elco_os.Kmalloc.Chunk.{Arena, get_chunk_size, is_inuse, prev_inuse}

-- the size of a block, and whether it is in use
abbrev pub Block : Type 0
Block = ℕ × Bool

-- the header of a block, and of one behind a block in use or a free one
abbrev pub tag : (size : ℕ) → (used before : Bool) → ℕ
tag size used before = size + (if used then 2 else 0) + (if before then 1 else 0)

-- From `c` to `end` there are these blocks, one after the other. `before` tells whether the block
-- before the first one is in use. A free block has its size also behind it.
abbrev pub Tagged : Arena → (before : Bool) → (c : ℕ) → List Block → (end : ℕ) → Type 0
Tagged a before c [] end = c ≡ end
Tagged a before c ((size, used) ∷ bs) end =
    (a.header c ≡ tag size used before)
    × (size % 8 ≡ 0)
    × (8 ≤ size)
    × (used ≡ false → a.prev_foot (c + size) ≡ size)
    × Tagged a used (c + size) bs end

abbrev pub total : List Block → ℕ
total [] = 0
total ((size, used) ∷ bs) = size + total bs

-- whether the last block is in use
abbrev pub used_after : Bool → List Block → Bool
used_after before [] = before
used_after before ((size, used) ∷ bs) = used_after used bs

-- what a tag says
pub tag_lem :
    (a : Arena) (c size : ℕ) (used before : Bool)
    → a.header c ≡ tag size used before
    → size % 8 ≡ 0
    → (get_chunk_size a c ≡ size) × (is_inuse a c ≡ used) × (prev_inuse a c ≡ before)
tag_lem a c size used before e aligned = ground arith

pub Tagged-total :
    (a : Arena) (before : Bool) (c : ℕ) (bs : List Block) (end : ℕ)
    → Tagged a before c bs end
    → end ≡ c + total bs
Tagged-total a before c [] end t = ground arith
Tagged-total a before c ((size, used) ∷ bs) end (h, al, s, f, t) =
    let rest = Tagged-total a used (c + size) bs end t in omega arith

-- Tags elsewhere do not matter.
pub Tagged-frame :
    (a a' : Arena) (before : Bool) (c : ℕ) (bs : List Block) (end : ℕ)
    → Tagged a before c bs end
    → ((x : ℕ) → c ≤ x → x < end → a'.header x ≡ a.header x)
    → ((x : ℕ) → c < x → x ≤ end → a'.prev_foot x ≡ a.prev_foot x)
    → Tagged a' before c bs end
Tagged-frame a a' before c [] end t h f = t
Tagged-frame a a' before c ((size, used) ∷ bs) end (e, al, s, g, t) h f =
    let far = Tagged-total a used (c + size) bs end t in
    (
      h c (omega arith) (omega arith) ∙ e,
      al,
      s,
      λ free. f (c + size) (omega arith) (omega arith) ∙ g free,
      Tagged-frame a a' used (c + size) bs end t (λ x lo hi. h x (omega arith) hi)
          (λ x lo hi. f x (omega arith) hi),
    )

-- The tags are in the headers and feet alone.
pub keeps :
    (a a' : Arena) (before : Bool) (c : ℕ) (bs : List Block) (end : ℕ)
    → a'.header ≡ a.header
    → a'.prev_foot ≡ a.prev_foot
    → Tagged a before c bs end
    → Tagged a' before c bs end
keeps a a' before c bs end h f t =
    Tagged-frame a a' before c bs end t (λ x lo hi. ap (λ g. g x) h) (λ x lo hi. ap (λ g. g x) f)

shift : (c s n : ℕ) → c + (s + n) ≡ c + s + n
shift c s n = omega arith

-- The blocks from some place on are replaced.
pub Tagged-replace :
    (a a' : Arena) (before : Bool) (c : ℕ) (xs ys zs : List Block) (end end' : ℕ)
    → Tagged a before c (xs ++ ys) end
    → ((x : ℕ) → c ≤ x → x < c + total xs → a'.header x ≡ a.header x)
    → ((x : ℕ) → c < x → x ≤ c + total xs → a'.prev_foot x ≡ a.prev_foot x)
    → Tagged a' (used_after before xs) (c + total xs) zs end'
    → Tagged a' before c (xs ++ zs) end'
Tagged-replace a a' before c [] ys zs end end' t h f r =
    subst (λ x. Tagged a' before x zs end') (omega arith) r
Tagged-replace a a' before c ((size, used) ∷ xs) ys zs end end' (e, al, s, g, t) h f r = (
  h c (omega arith) (omega arith) ∙ e,
  al,
  s,
  λ free. f (c + size) (omega arith) (omega arith) ∙ g free,
  Tagged-replace a a' used (c + size) xs ys zs end end' t
      (λ x lo hi. h x (omega arith) (omega arith)) (λ x lo hi. f x (omega arith) (omega arith))
      (subst (λ x. Tagged a' (used_after used xs) x zs end') (shift c size (total xs)) r),
)

-- The blocks from some place on.
pub Tagged-from :
    (a : Arena) (before : Bool) (c : ℕ) (xs ys : List Block) (end : ℕ)
    → Tagged a before c (xs ++ ys) end
    → Tagged a (used_after before xs) (c + total xs) ys end
Tagged-from a before c [] ys end t = subst (λ x. Tagged a before x ys end) (omega arith) t
Tagged-from a before c ((size, used) ∷ xs) ys end (e, al, s, g, t) =
    subst (λ x. Tagged a (used_after used xs) x ys end) (sym (shift c size (total xs)))
      (Tagged-from a used (c + size) xs ys end t)
