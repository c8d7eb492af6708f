-- ===== src/Kstring/Text.antt =====
-- The functions on strings. A loop that ends at the null character runs on fuel, `none` where the
-- fuel is used up; a string of n characters is left in n + 1 rounds. A loop that a count bounds is
-- recursion on that count. A char is signed on i386: a byte from 128 on is a negative number.
pub mod Length
pub mod Build
pub mod Order
use elco_os.Base.{
  ℕ, zero, suc, ◌+◌, ◌-◌, ◌%◌, Bool, true, false, ◌&&◌, ◌||◌, not, Option, none, some, ◌>>=◌,
  if◌then◌else◌, ◌==◌, ltb, upd,
}
use elco_os.Kstring.Memory.{Bytes, int_diff}

-- `while (*p != '\0') p++;`
unfoldable pub end_of : ℕ → Bytes → ℕ → Option ℕ
end_of zero m p = none
end_of (suc fuel) m p = let rest = end_of fuel m (p + 1) in if m p == 0 then some p else rest

unfoldable pub kstrlen : ℕ → Bytes → (s : ℕ) → Option ℕ
kstrlen fuel m s = do p ← end_of fuel m s; some (p - s)

-- `while (*s != '\0') *d++ = *s++; *d = '\0';`
unfoldable pub copy_string : ℕ → Bytes → (d s : ℕ) → Option Bytes
copy_string zero m d s = none
copy_string (suc fuel) m d s =
    let rest = copy_string fuel (upd m d (m s)) (d + 1) (s + 1) in
    if m s == 0 then some (upd m d 0) else rest

unfoldable pub kstrcpy : ℕ → Bytes → (s1 s2 : ℕ) → Option Bytes
kstrcpy fuel m s1 s2 = copy_string fuel m s1 s2

unfoldable pub kstrcat : ℕ → Bytes → (s1 s2 : ℕ) → Option Bytes
kstrcat fuel m s1 s2 = do d ← end_of fuel m s1; copy_string fuel m d s2

-- `while (*s != '\0' && (n-- > 1)) *d++ = *s++; *d = '\0';`
unfoldable pub copy_below : ℕ → Bytes → (d s : ℕ) → Bytes
copy_below zero m d s = upd m d 0
copy_below (suc n) m d s =
    let rest = copy_below n (upd m d (m s)) (d + 1) (s + 1) in
    if not (m s == 0) && ltb 1 (suc n) then rest else upd m d 0

unfoldable pub kstrncat : ℕ → Bytes → (s1 s2 n : ℕ) → Option Bytes
kstrncat fuel m s1 s2 n = do d ← end_of fuel m s1; some (copy_below n m d s2)

-- `while (n-- > 1) *d++ = '\0';`
unfoldable pub pad : ℕ → Bytes → (d : ℕ) → Bytes
pad zero m d = m
pad (suc n) m d = let rest = pad n (upd m d 0) (d + 1) in if ltb 1 (suc n) then rest else m

unfoldable pub kstrncpy : Bytes → (s1 s2 n : ℕ) → Bytes
kstrncpy m d s zero = pad 0 m d
kstrncpy m d s (suc n) =
    let rest = kstrncpy (upd m d (m s)) (d + 1) (s + 1) n in
    if m s == 0 then pad (suc n) (upd m d (m s)) (d + 1) else rest

unfoldable pub kstrcmp : ℕ → Bytes → (s1 s2 : ℕ) → Option ℕ
kstrcmp zero m a b = none
kstrcmp (suc fuel) m a b =
    let rest = kstrcmp fuel m (a + 1) (b + 1) in
    if not (m a == 0) && (m a == m b) then rest else some (int_diff (m a) (m b))

unfoldable pub kstrncmp : Bytes → (s1 s2 n : ℕ) → ℕ
kstrncmp m a b zero = 0
kstrncmp m a b (suc n) =
    let rest = kstrncmp m (a + 1) (b + 1) n in
    if not (m a == 0) && (m a == m b) then rest else int_diff (m a) (m b)

-- a char compared with an unsigned char: the byte is extended with its sign
abbrev pub same_char : (byte v : ℕ) → Bool
same_char byte v = (byte == v) && ltb byte 128

-- the loop of kstrchr, and what it stops at
unfoldable pub seek : ℕ → Bytes → (s v : ℕ) → Option ℕ
seek zero m s v = none
seek (suc fuel) m s v =
    let rest = seek fuel m (s + 1) v in
    if not (m s == 0) && not (same_char (m s) v) then rest else some s

-- `some none` is NULL.
unfoldable pub kstrchr : ℕ → Bytes → (s c : ℕ) → Option (Option ℕ)
kstrchr fuel m s c = do
  p ← seek fuel m s (c % 256)
  some (if not (m p == 0) || (c % 256 == 0) then some p else none)

-- the loop of kstrrchr: where it ends, and the last match
unfoldable pub seek_last : ℕ → Bytes → (s v : ℕ) → Option ℕ → Option (ℕ × Option ℕ)
seek_last zero m s v found = none
seek_last (suc fuel) m s v found =
    let rest = seek_last fuel m (s + 1) v (if same_char (m s) v then some s else found) in
    if m s == 0 then some (s, found) else rest

unfoldable pub kstrrchr : ℕ → Bytes → (s c : ℕ) → Option (Option ℕ)
kstrrchr fuel m s c = do
  (p, found) ← seek_last fuel m s (c % 256) none
  some (if c % 256 == 0 then some p else found)
