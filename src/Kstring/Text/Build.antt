-- ===== src/Kstring/Text/Build.antt =====
-- What the functions that build strings leave in the memory.
use elco_os.Base.{
  ℕ, zero, suc, ◌+◌, ◌-◌, ◌≡◌, ◌≤◌, ◌<◌, ◌⊎◌, inl, inr, refl, ap, ◌∙◌, true, false, ◌&&◌, not, some,
  arith, if◌then◌else◌, ◌==◌, leb, ltb, upd, eq-cases, Bool-cases,
}
use elco_os.Kstring.Memory.{Bytes}
use elco_os.Kstring.Memory.Copy.{copied, same_byte, first_copied}
use elco_os.Kstring.Text.{copy_string, kstrcpy, kstrcat, copy_below, kstrncat, pad, kstrncpy}
use elco_os.Kstring.Text.Length.{
  IsString, IsString-tail, IsString-head, IsString-zero, end_of-IsString,
}

-- a byte written beside the string leaves it a string
IsString-upd :
    (m : Bytes) (s n d v : ℕ) → (d < s) ⊎ (s + n < d) → IsString m s n → IsString (upd m d v) s n
IsString-upd m s n d v apart t = record {
  ends = ground (arith, t.ends);
  chars = λ i hi. ground (arith, t.chars i hi);
}

copy_string-copied :
    (fuel : ℕ) (m : Bytes) (d s n : ℕ)
    → IsString m s n
    → (d + n < s) ⊎ (s + n < d)
    → n < fuel
    → (m' : Bytes) × (copy_string fuel m d s ≡ some m') × ((a : ℕ) → m' a ≡ copied m d s (suc n) a)
unfolding copy_string
copy_string-copied zero m d s n t apart f = absurd (omega arith)
copy_string-copied (suc fuel) m d s zero t apart f =
    let nul = IsString-zero m s t in
    (
      upd m d 0,
      rw nul refl,
      λ a. elim (eq-cases a d) [
        | inl e ↦ ground (arith, nul, same_byte m (s + (a - d)) s)
        | inr ne ↦ ground arith
      ],
    )
copy_string-copied (suc fuel) m d s (suc n) t apart f =
    let m1 = upd m d (m s) in
    let (m', run, bytes) =
      copy_string-copied fuel m1 (d + 1) (s + 1) n
        (IsString-upd m (s + 1) n d (m s) (ground arith) (IsString-tail m s n t)) (ground arith)
        (omega arith) in
    (m', rw (IsString-head m s n t) run, λ a. bytes a ∙ first_copied m d s (suc n) a (ground arith))

-- A copy of a string that does not overlap its target leaves the string with its null character
-- in the target, and every other byte as it was.
pub kstrcpy-copied :
    (fuel : ℕ) (m : Bytes) (s1 s2 n : ℕ)
    → IsString m s2 n
    → (s1 + n < s2) ⊎ (s2 + n < s1)
    → n < fuel
    → (m' : Bytes) × (kstrcpy fuel m s1 s2 ≡ some m') × ((a : ℕ) → m' a ≡ copied m s1 s2 (suc n) a)
unfolding kstrcpy
kstrcpy-copied fuel m s1 s2 n t apart f = copy_string-copied fuel m s1 s2 n t apart f

-- Appending a string of n characters to one of k, where the room for the result does not overlap
-- the second, leaves the first k characters, then the second string with its null character, and
-- every other byte as it was.
pub kstrcat-copied :
    (fuel : ℕ) (m : Bytes) (s1 k s2 n : ℕ)
    → IsString m s1 k
    → IsString m s2 n
    → (s1 + k + n < s2) ⊎ (s2 + n < s1)
    → k < fuel
    → n < fuel
    → (m' : Bytes) × (kstrcat fuel m s1 s2 ≡ some m')
      × ((a : ℕ) → m' a ≡ copied m (s1 + k) s2 (suc n) a)
unfolding kstrcat
kstrcat-copied fuel m s1 k s2 n t u apart fk fn =
    let (m', run, bytes) = copy_string-copied fuel m (s1 + k) s2 n u (ground arith) fn in
    (m', rw (end_of-IsString fuel m s1 k t fk) run, bytes)

abbrev pub least : ℕ → ℕ → ℕ
least a b = if ltb a b then a else b

-- the memory with `c` bytes copied and a null character behind them
abbrev pub ended : Bytes → (d s c a : ℕ) → ℕ
ended m d s c a = if a == d + c then 0 else copied m d s c a

first_ended :
    (m : Bytes) (d s c a : ℕ)
    → (d ≤ s) ⊎ (s + suc c ≤ d)
    → ended (upd m d (m s)) (d + 1) (s + 1) c a ≡ ended m d s (suc c) a
first_ended m d s c a apart = ground (arith, first_copied m d s c a apart)

copy_below-zero : (m : Bytes) (d s : ℕ) → copy_below 0 m d s ≡ upd m d 0
unfolding copy_below
copy_below-zero m d s = refl

copy_below-stop :
    (n : ℕ) (m : Bytes) (d s : ℕ)
    → (not (m s == 0) && ltb 1 (suc n)) ≡ false
    → copy_below (suc n) m d s ≡ upd m d 0
unfolding copy_below
copy_below-stop n m d s e = rw e refl

copy_below-step :
    (n : ℕ) (m : Bytes) (d s : ℕ)
    → (not (m s == 0) && ltb 1 (suc n)) ≡ true
    → copy_below (suc n) m d s ≡ copy_below n (upd m d (m s)) (d + 1) (s + 1)
unfolding copy_below
copy_below-step n m d s e = rw e refl

at_byte : (m m' : Bytes) (a : ℕ) → m ≡ m' → m a ≡ m' a
at_byte m m' a e = ap (λ (f : Bytes). f a) e

copy_below-ended :
    (n : ℕ) (m : Bytes) (d s len a : ℕ)
    → IsString m s len
    → (d + len < s) ⊎ (s + len < d)
    → copy_below n m d s a ≡ ended m d s (least len (n - 1)) a
copy_below-ended zero m d s len a t apart = at_byte _ _ a (copy_below-zero m d s) ∙ ground arith
copy_below-ended (suc n) m d s zero a t apart =
    at_byte _ _ a (copy_below-stop n m d s (ground (arith, IsString-zero m s t))) ∙ ground arith
copy_below-ended (suc n) m d s (suc len) a t apart = elim (eq-cases n 0) [
  | inl e ↦ at_byte _ _ a (copy_below-stop n m d s (ground arith)) ∙ ground arith
  | inr ne ↦
      at_byte _ _ a (copy_below-step n m d s (ground (arith, IsString-head m s len t)))
      ∙ copy_below-ended n (upd m d (m s)) (d + 1) (s + 1) len a
          (IsString-upd m (s + 1) len d (m s) (ground arith) (IsString-tail m s len t))
          (ground arith)
      ∙ first_ended m d s (least len (n - 1)) a (ground arith)
      ∙ ap (λ (c : ℕ). ended m d s c a) {x = suc (least len (n - 1))}
          {y = least (suc len) (suc n - 1)} (ground arith)
]

-- kstrncat with a count of n appends the first n - 1 characters of the second string, all if it
-- has fewer (none for n = 0), and a null character behind them; every other byte is as it was.
pub kstrncat-ended :
    (fuel : ℕ) (m : Bytes) (s1 k s2 len n : ℕ)
    → IsString m s1 k
    → IsString m s2 len
    → (s1 + k + len < s2) ⊎ (s2 + len < s1)
    → k < fuel
    → (m' : Bytes) × (kstrncat fuel m s1 s2 n ≡ some m')
      × ((a : ℕ) → m' a ≡ ended m (s1 + k) s2 (least len (n - 1)) a)
unfolding kstrncat
kstrncat-ended fuel m s1 k s2 len n t u apart f = (
  copy_below n m (s1 + k) s2,
  rw (end_of-IsString fuel m s1 k t f) refl,
  λ a. copy_below-ended n m (s1 + k) s2 len a u (ground arith),
)

pad-stop : (n : ℕ) (m : Bytes) (d : ℕ) → ltb 1 n ≡ false → pad n m d ≡ m
unfolding pad
pad-stop zero m d e = refl
pad-stop (suc n) m d e = rw e refl

pad-step :
    (n : ℕ) (m : Bytes) (d : ℕ) → ltb 1 (suc n) ≡ true → pad (suc n) m d ≡ pad n (upd m d 0) (d + 1)
unfolding pad
pad-step n m d e = rw e refl

-- the bytes at and behind `d` are 0
abbrev zeros : Bytes → (d n a : ℕ) → ℕ
zeros m d n a = if leb d a && ltb a (d + n) then 0 else m a

first_zeros : (m : Bytes) (d n a : ℕ) → zeros (upd m d 0) (d + 1) n a ≡ zeros m d (suc n) a
first_zeros m d n a = ground arith

pad-zeros : (n : ℕ) (m : Bytes) (d a : ℕ) → pad n m d a ≡ zeros m d (n - 1) a
pad-zeros zero m d a = at_byte _ _ a (pad-stop 0 m d refl) ∙ ground arith
pad-zeros (suc n) m d a = elim (Bool-cases (ltb 1 (suc n))) [
  | inl e ↦
      at_byte _ _ a (pad-step n m d e)
      ∙ pad-zeros n (upd m d 0) (d + 1) a
      ∙ first_zeros m d (n - 1) a
      ∙ ap (λ (c : ℕ). zeros m d c a) {x = suc (n - 1)} {y = suc n - 1} (ground arith)
  | inr e ↦ at_byte _ _ a (pad-stop (suc n) m d e) ∙ ground arith
]

-- the byte at `a` after `n` bytes from `s` were copied, with zeros from its null character on
abbrev pub padded : Bytes → (d s len n a : ℕ) → ℕ
padded m d s len n a =
    if leb d a && ltb a (d + n) then (if ltb (a - d) len then m (s + (a - d)) else 0) else m a

kstrncpy-zero : (m : Bytes) (d s : ℕ) → kstrncpy m d s 0 ≡ pad 0 m d
unfolding kstrncpy
kstrncpy-zero m d s = refl

kstrncpy-end :
    (m : Bytes) (d s n : ℕ) → m s ≡ 0 → kstrncpy m d s (suc n) ≡ pad (suc n) (upd m d 0) (d + 1)
unfolding kstrncpy
kstrncpy-end m d s n e = rw e refl

kstrncpy-next :
    (m : Bytes) (d s n : ℕ)
    → (m s == 0) ≡ false
    → kstrncpy m d s (suc n) ≡ kstrncpy (upd m d (m s)) (d + 1) (s + 1) n
unfolding kstrncpy
kstrncpy-next m d s n e = rw e refl

first_padded :
    (m : Bytes) (d s len n a : ℕ)
    → (d ≤ s) ⊎ (s + suc len ≤ d)
    → padded (upd m d (m s)) (d + 1) (s + 1) len n a ≡ padded m d s (suc len) (suc n) a
first_padded m d s len n a apart = elim (eq-cases a d) [
  | inl e ↦ ground (arith, same_byte m (s + (a - d)) s)
  | inr ne ↦ ground (arith, same_byte m (s + 1 + (a - (d + 1))) (s + (a - d)))
]

zeros-padded :
    (m : Bytes) (d s n a : ℕ) → zeros (upd m d 0) (d + 1) (suc n - 1) a ≡ padded m d s 0 (suc n) a
zeros-padded m d s n a = ground arith

-- kstrncpy writes n bytes: the characters of the string, and zeros if it has fewer than n; every
-- other byte is as it was.
pub kstrncpy-padded :
    (n : ℕ) (m : Bytes) (d s len a : ℕ)
    → IsString m s len
    → (d + n ≤ s) ⊎ (s + len < d)
    → kstrncpy m d s n a ≡ padded m d s len n a
kstrncpy-padded zero m d s len a t apart =
    at_byte _ _ a (kstrncpy-zero m d s ∙ pad-stop 0 m d refl) ∙ ground arith
kstrncpy-padded (suc n) m d s zero a t apart =
    at_byte _ _ a (kstrncpy-end m d s n (IsString-zero m s t))
    ∙ pad-zeros (suc n) (upd m d 0) (d + 1) a
    ∙ zeros-padded m d s n a
kstrncpy-padded (suc n) m d s (suc len) a t apart =
    at_byte _ _ a (kstrncpy-next m d s n (IsString-head m s len t))
    ∙ kstrncpy-padded n (upd m d (m s)) (d + 1) (s + 1) len a
        (IsString-upd m (s + 1) len d (m s) (ground arith) (IsString-tail m s len t)) (ground arith)
    ∙ first_padded m d s len n a (ground arith)
