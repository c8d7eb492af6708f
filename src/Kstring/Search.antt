-- ===== src/Kstring/Search.antt =====
-- The functions that look for the characters of one string in another: kstrspn.c, kstrcspn.c,
-- kstrpbrk.c, kstrstr.c and kstrtok.c. The outer loops run on `fuel`, the inner ones on `inner`.
pub mod Segment
use elco_os.Base.{
  ℕ, zero, suc, ◌+◌, Bool, true, false, ◌&&◌, not, Option, none, some, ◌>>=◌, if◌then◌else◌, ◌==◌,
  upd,
}
use elco_os.Kstring.Memory.{Bytes}

-- the inner loop over s2: whether it has the character
unfoldable pub in_set : ℕ → Bytes → (k char : ℕ) → Option Bool
in_set zero m k char = none
in_set (suc fuel) m k char =
    let rest = in_set fuel m (k + 1) char in
    if m k == 0 then some false else if m k == char then some true else rest

-- the loop that both kstrspn and kstrcspn have: they go on while the character is in the set, or
-- while it is not
unfoldable pub span : ℕ → (inner : ℕ) → Bytes → (goes_on : Bool) → (s1 s2 result : ℕ) → Option ℕ
span zero inner m goes_on s1 s2 result = none
span (suc fuel) inner m goes_on s1 s2 result =
    let rest = span fuel inner m goes_on (s1 + 1) s2 (result + 1) in
    let found = in_set inner m s2 (m s1) in
    if m s1 == 0
    then some result
    else (found >>= λ hit.
        if hit
        then (if goes_on then rest else some result)
        else (if goes_on then some result else rest))

unfoldable pub kstrspn : (fuel inner : ℕ) → Bytes → (s1 s2 : ℕ) → Option ℕ
kstrspn fuel inner m s1 s2 = span fuel inner m true s1 s2 0

unfoldable pub kstrcspn : (fuel inner : ℕ) → Bytes → (s1 s2 : ℕ) → Option ℕ
kstrcspn fuel inner m s1 s2 = span fuel inner m false s1 s2 0

-- `some none` is NULL.
unfoldable pub kstrpbrk : ℕ → (inner : ℕ) → Bytes → (s1 s2 : ℕ) → Option (Option ℕ)
kstrpbrk zero inner m s1 s2 = none
kstrpbrk (suc fuel) inner m s1 s2 =
    let rest = kstrpbrk fuel inner m (s1 + 1) s2 in
    let found = in_set inner m s2 (m s1) in
    if m s1 == 0 then some none else (found >>= λ hit. if hit then some (some s1) else rest)

-- the inner loop of kstrstr: whether it reaches the end of s2
unfoldable pub starts_with : ℕ → Bytes → (s n : ℕ) → Option Bool
starts_with zero m s n = none
starts_with (suc fuel) m s n =
    let rest = starts_with fuel m (s + 1) (n + 1) in
    if not (m s == 0) && not (m n == 0) && (m s == m n) then rest else some (m n == 0)

unfoldable pub find_string : ℕ → (inner : ℕ) → Bytes → (s s2 : ℕ) → Option (Option ℕ)
find_string zero inner m s s2 = none
find_string (suc fuel) inner m s s2 =
    let rest = find_string fuel inner m (s + 1) s2 in
    let found = starts_with inner m s s2 in
    if m s == 0 then some none else (found >>= λ hit. if hit then some (some s) else rest)

unfoldable pub kstrstr : (fuel inner : ℕ) → Bytes → (s1 s2 : ℕ) → Option (Option ℕ)
kstrstr fuel inner m s1 s2 = if m s2 == 0 then some (some s1) else find_string fuel inner m s1 s2

-- the state of kstrtok: its static pointer, and the memory
abbrev pub Tokens : Type 0
Tokens = Option ℕ × Bytes

-- kstrtok from the position `p`
unfoldable pub next_token : (fuel inner : ℕ) → Bytes → (p s2 : ℕ) → Option (Option ℕ × Tokens)
next_token fuel inner m p s2 = do
  skipped ← kstrspn fuel inner m p s2
  let s1 = p + skipped
  length ← kstrcspn fuel inner m s1 s2
  let stop = s1 + length
  if s1 == stop
      then some (none, (none, m))
      else if m stop == 0
      then some (some s1, (none, m))
      else some (some s1, (some (stop + 1), upd m stop 0))

-- The result is the token and the state; `none` in place of an address is NULL.
unfoldable pub kstrtok :
    (fuel inner : ℕ) → Tokens → (s1 : Option ℕ) → (s2 : ℕ) → Option (Option ℕ × Tokens)
kstrtok fuel inner (p, m) (some s1) s2 = next_token fuel inner m s1 s2
kstrtok fuel inner (some p, m) none s2 = next_token fuel inner m p s2
kstrtok fuel inner (none, m) none s2 = some (none, (none, m))
