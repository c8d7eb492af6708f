-- ===== src/Kstring/Memory.antt =====
-- The functions on blocks of memory: kmemchr.c, kmemcmp.c, kmemcpy.c, kmemmove.c and kmemset.c.
pub mod Copy
use elco_os.Base.{
  ℕ, zero, suc, ◌+◌, ◌-◌, ◌%◌, ◌^◌, Bool, true, false, Option, none, some, if◌then◌else◌, ◌==◌, ltb,
  upd,
}

abbrev pub Bytes : Type 0
Bytes = ℕ → ℕ

unfoldable pub kmemchr : Bytes → (s c n : ℕ) → Option ℕ
kmemchr m s c zero = none
kmemchr m s c (suc n) = let rest = kmemchr m (s + 1) c n in if m s == c % 256 then some s else rest

-- the difference of two bytes, as the pattern of an int
abbrev pub int_diff : ℕ → ℕ → ℕ
int_diff a b = (a + 2 ^ 32 - b) % 2 ^ 32

unfoldable pub kmemcmp : Bytes → (s1 s2 n : ℕ) → ℕ
kmemcmp m s1 s2 zero = 0
kmemcmp m s1 s2 (suc n) =
    let rest = kmemcmp m (s1 + 1) (s2 + 1) n in
    let r = int_diff (m s1) (m s2) in if r == 0 then rest else r

-- `while (n--) *d++ = *s++;`
unfoldable pub copy_up : ℕ → Bytes → (d s : ℕ) → Bytes
copy_up zero m d s = m
copy_up (suc n) m d s = copy_up n (upd m d (m s)) (d + 1) (s + 1)

-- `while (n--) *d-- = *s--;`
unfoldable pub copy_down : ℕ → Bytes → (d s : ℕ) → Bytes
copy_down zero m d s = m
copy_down (suc n) m d s = copy_down n (upd m d (m s)) (d - 1) (s - 1)

unfoldable pub kmemcpy : Bytes → (s1 s2 n : ℕ) → Bytes
kmemcpy m s1 s2 n = copy_up n m s1 s2

unfoldable pub kmemmove : Bytes → (s1 s2 n : ℕ) → Bytes
kmemmove m s1 s2 n =
    if ltb s1 s2 then copy_up n m s1 s2 else copy_down n m (s1 + n - 1) (s2 + n - 1)

unfoldable pub kmemset : Bytes → (s c n : ℕ) → Bytes
kmemset m s c zero = m
kmemset m s c (suc n) = kmemset (upd m s (c % 256)) (s + 1) c n
