-- ===== src/Kstdio/Expand/Convert.antt =====
-- One conversion of kprintf against its text.
use mathlib.Core.Path.{subst}
use elco_os.Base.{
  ℕ, zero, suc, ◌+◌, ◌-◌, ◌%◌, ◌^◌, ◌≡◌, ◌≢◌, ◌<◌, inl, inr, refl, sym, ap, ◌∙◌, true, false,
  Option, none, some, ◌>>=◌, List, [], ◌∷◌, length, arith, if◌then◌else◌, ◌==◌, ltb, leb,
  Bool-cases,
}
use elco_os.Kstring.Memory.{Bytes}
use elco_os.Kstring.Text.{kstrlen}
use elco_os.Kstring.Text.Length.{IsString, kstrlen-IsString}
use elco_os.Kstdio.{Label, Printed, print, i_print, put, put_number, put_signed, widen, convert}
use elco_os.Kstdio.Expand.{
  Argument, word, string, signed_text, with_rest, conversion, Holds, Passed, Appends, Appends-trans,
  put-Appends,
}

Holds-IsString : (m : Bytes) (p : ℕ) (cs : List ℕ) → Holds m p cs → IsString m p (length cs)
Holds-IsString m p [] h = record {
  ends = ap m {x = p + 0} {y = p} (omega arith) ∙ h;
  chars = λ i lt. absurd (omega arith);
}
Holds-IsString m p (c ∷ cs) (e, nz, h) =
    let t = Holds-IsString m (p + 1) cs h in
    record {
      ends = ap m {x = p + suc (length cs)} {y = p + 1 + length cs} (omega arith) ∙ t.ends;
      chars = λ i lt. chars_from m p c (length cs) i e nz t.chars lt;
    }
  where
    chars_from :
        (m : Bytes) (p c n i : ℕ)
        → m p ≡ c
        → c ≢ 0
        → ((j : ℕ) → j < n → m (p + 1 + j) ≢ 0)
        → i < suc n
        → m (p + i) ≢ 0
    chars_from m p c n zero e nz all lt z = nz (sym e ∙ ap m {x = p} {y = p + 0} (omega arith) ∙ z)
    chars_from m p c n (suc i) e nz all lt z =
        all i (omega arith) (ap m {x = p + 1 + i} {y = p + suc i} (omega arith) ∙ z)

print-Holds : (m : Bytes) (p : ℕ) (cs : List ℕ) → Holds m p cs → print m p (length cs) ≡ cs
unfolding print
print-Holds m p [] h = refl
print-Holds m p (c ∷ cs) (e, nz, h) = rw e (ap (◌∷◌ c) (print-Holds m (p + 1) cs h))

kstrlen-Holds :
    (fuel : ℕ) (m : Bytes) (p : ℕ) (cs : List ℕ)
    → Holds m p cs
    → length cs < fuel
    → kstrlen fuel m p ≡ some (length cs)
kstrlen-Holds fuel m p cs h room =
    kstrlen-IsString fuel m p (length cs) (Holds-IsString m p cs h) room

-- a number that i_print prints
put_number-Appends :
    (o : Printed) (val base : ℕ) (t : List ℕ)
    → i_print val base ≡ some t
    → (o' : Printed) × (put_number o val base ≡ some o') × Appends o t o'
put_number-Appends o val base t e = (put o t (length t), rw e refl, put-Appends o t)

-- a bind that gives a value
pub bind_some :
    {A B : Type 0} (x : Option A) (f : A → Option B) {b : B}
    → (x >>= f) ≡ some b
    → (a : A) × (x ≡ some a) × (f a ≡ some b)
bind_some (some a) f e = (a, refl, e)
bind_some none f e = absurd (ground arith)

abbrev magnitude : ℕ → ℕ
magnitude i = if i == 2 ^ 31 then 2 ^ 64 - 2 ^ 31 else 2 ^ 32 - i

widen-magnitude :
    (i : ℕ) → i < 2 ^ 32 → ltb i (2 ^ 31) ≡ false → widen ((2 ^ 32 - i) % 2 ^ 32) ≡ magnitude i
widen-magnitude i word_size large = ground arith

put_negative-Appends :
    (o : Printed) (i : ℕ) (t : List ℕ)
    → (i_print (magnitude i) 10 >>= λ s. some (b'-' ∷ s)) ≡ some t
    → (o' : Printed) × (put_number (put o (b'-' ∷ []) 1) (magnitude i) 10 ≡ some o')
      × Appends o t o'
put_negative-Appends o i t e =
    let (s, run, same) = bind_some (i_print (magnitude i) 10) (λ s. some (b'-' ∷ s)) e in
    let o1 = put o (b'-' ∷ []) 1 in
    let (o', run', a) = put_number-Appends o1 (magnitude i) 10 s run in
    let both = Appends-trans o o1 o' (b'-' ∷ []) s (put-Appends o (b'-' ∷ [])) a in
    let eq : b'-' ∷ s ≡ t = cc in (o', run', subst (λ u. Appends o u o') eq both)

put_signed-Appends :
    (o : Printed) (i : ℕ) (t : List ℕ)
    → i < 2 ^ 32
    → signed_text i ≡ some t
    → (o' : Printed) × (put_signed o i ≡ some o') × Appends o t o'
unfolding put_signed signed_text
put_signed-Appends o i t word_size e = elim (Bool-cases (ltb i (2 ^ 31))) [
  | inl small ↦
      let neg : leb (2 ^ 31) i ≡ false = ground arith in
      rw neg (rw small (put_number-Appends o i 10 t (rw small at e)))
  | inr large ↦
      let neg : leb (2 ^ 31) i ≡ true = ground arith in
      rw neg (rw (widen-magnitude i word_size large) (put_negative-Appends o i t (rw large at e)))
]

-- What convert gives where the conversion stands for `t` and leaves the arguments `rest`.
abbrev Converted :
    (limit : ℕ) → Bytes → Printed → List ℕ → List Argument → Option (Printed × List ℕ) → Type 0
Converted limit m o t rest r =
    (o' : Printed) × (words : List ℕ) × (r ≡ some (o', words))
    × Passed limit m words rest
    × Appends o t o'

converted :
    (limit : ℕ) (m : Bytes) (o o' : Printed) (words : List ℕ) (u t : List ℕ)
    (args rest : List Argument) (r : Option (Printed × List ℕ))
    → r ≡ some (o', words)
    → Passed limit m words args
    → Appends o u o'
    → ◌≡◌ {A = Option (List ℕ × List Argument)} (some (u, args)) (some (t, rest))
    → Converted limit m o t rest r
converted limit m o o' words u t args rest r run p a e =
    let text_eq : u ≡ t = cc in
    let args_eq : args ≡ rest = cc in
    (
      o',
      words,
      run,
      subst (λ l. Passed limit m words l) args_eq p,
      subst (λ l. Appends o l o') text_eq a,
    )

-- the conversion of a number
number-Converted :
    (limit : ℕ) (m : Bytes) (o : Printed) (words : List ℕ) (t : List ℕ) (args rest : List Argument)
    (val base : ℕ)
    → Passed limit m words args
    → with_rest args (i_print val base) ≡ some (t, rest)
    → Converted limit m o t rest (put_number o val base >>= λ o'. some (o', words))
number-Converted limit m o words t args rest val base p e =
    let (u, run, same) = bind_some (i_print val base) (λ u. some (u, args)) e in
    let (o', put_run, a) = put_number-Appends o val base u run in
    converted limit m o o' words u t args rest (put_number o val base >>= λ o'. some (o', words))
      (rw put_run refl) p a same

signed-Converted :
    (limit : ℕ) (m : Bytes) (o : Printed) (words : List ℕ) (t : List ℕ) (args rest : List Argument)
    (i : ℕ)
    → i < 2 ^ 32
    → Passed limit m words args
    → with_rest args (signed_text i) ≡ some (t, rest)
    → Converted limit m o t rest (put_signed o i >>= λ o'. some (o', words))
signed-Converted limit m o words t args rest i size p e =
    let (u, run, same) = bind_some (signed_text i) (λ u. some (u, args)) e in
    let (o', put_run, a) = put_signed-Appends o i u size run in
    converted limit m o o' words u t args rest (put_signed o i >>= λ o'. some (o', words))
      (rw put_run refl) p a same

-- one conversion, from an argument that is passed
pub convert-Appends :
    (limit : ℕ) (m : Bytes) (k : Label) (d : ℕ) (words : List ℕ) (args rest : List Argument)
    (o : Printed) (t : List ℕ)
    → Passed limit m words args
    → conversion k d args ≡ some (t, rest)
    → Converted limit m o t rest (convert limit m k d words o)
unfolding convert conversion
convert-Appends limit m Label.percent d words args rest o t p e =
    converted limit m o (put o (d ∷ []) 1) words (d ∷ []) t args rest
      (some (put o (d ∷ []) 1, words)) refl p (put-Appends o (d ∷ [])) e
convert-Appends limit m Label.other d words args rest o t p e =
    let o1 = put o (b'%' ∷ []) 1 in
    let o2 = put o1 (d ∷ []) 1 in
    converted limit m o o2 words (b'%' ∷ d ∷ []) t args rest (some (o2, words)) refl p
      (Appends-trans o o1 o2 (b'%' ∷ []) (d ∷ []) (put-Appends o (b'%' ∷ []))
        (put-Appends o1 (d ∷ [])))
      e
convert-Appends limit m Label.char d (w ∷ ws) (word a ∷ args) rest o t (q, size, p) e = rw q (
    converted limit m o (put o (a % 256 ∷ []) 1) ws (a % 256 ∷ []) t args rest
      (some (put o (a % 256 ∷ []) 1, ws)) refl p (put-Appends o (a % 256 ∷ [])) e)
convert-Appends limit m Label.text d (w ∷ ws) (string u ∷ args) rest o t (h, room, p) e =
    rw (kstrlen-Holds limit m w u h room) (
      rw (print-Holds m w u h) (
        converted limit m o (put o u (length u)) ws u t args rest (some (put o u (length u), ws))
          refl p (put-Appends o u) e))
convert-Appends limit m Label.signed d (w ∷ ws) (word a ∷ args) rest o t (q, size, p) e =
    rw q (signed-Converted limit m o ws t args rest a (rw q at size) p e)
convert-Appends limit m Label.unsigned d (w ∷ ws) (word a ∷ args) rest o t (q, size, p) e =
    rw q (number-Converted limit m o ws t args rest a 10 p e)
convert-Appends limit m Label.hex d (w ∷ ws) (word a ∷ args) rest o t (q, size, p) e =
    rw q (number-Converted limit m o ws t args rest a 16 p e)
convert-Appends limit m Label.octal d (w ∷ ws) (word a ∷ args) rest o t (q, size, p) e =
    rw q (number-Converted limit m o ws t args rest a 8 p e)
convert-Appends limit m k d words args rest o t p e = absurd (ground arith)
