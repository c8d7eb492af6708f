-- ===== src/Kstdio/Expand/Chars.antt =====
-- The text that a format of chars stands for consists of chars.
use elco_os.Base.{ℕ, ◌<◌, inl, inr, List, [], ◌∷◌, ◌++◌, arith}
use elco_os.Kstdio.Digits.{Digits}
use elco_os.Kstdio.Expand.{Argument, word, string}
use elco_os.Kstdio.Expand.Meaning.{Converts, Expands, ends, dropped, plain, converted}

-- every char is a byte
abbrev pub Chars : List ℕ → Type 0
Chars [] = Unit {0}
Chars (c ∷ cs) = (c < 256) × Chars cs

-- so is every char of a string among the arguments
abbrev pub StringChars : List Argument → Type 0
StringChars [] = Unit {0}
StringChars (word w ∷ args) = StringChars args
StringChars (string t ∷ args) = Chars t × StringChars args

Chars-append : (s t : List ℕ) → Chars s → Chars t → Chars (s ++ t)
Chars-append [] t a b = b
Chars-append (c ∷ s) t (lt, a) b = (lt, Chars-append s t a b)

Digits-Chars : (base : ℕ) (s : List ℕ) → Digits base s → Chars s
Digits-Chars base [] d = tt
Digits-Chars base (c ∷ s) (inl is, lt, d) = (omega arith, Digits-Chars base s d)
Digits-Chars base (c ∷ s) (inr is, lt, d) = (omega arith, Digits-Chars base s d)

Converts-Chars :
    {d : ℕ} {args rest : List Argument} {t : List ℕ}
    → Converts d args t rest
    → d < 256
    → StringChars args
    → Chars t × StringChars rest
Converts-Chars (Converts.percent args e) lt a = ((omega arith, tt), a)
Converts-Chars (Converts.unknown args e) lt a = ((omega arith, (lt, tt)), a)
Converts-Chars (Converts.char w args e) lt a = ((omega arith, tt), a)
Converts-Chars (Converts.text t args e) lt a = a
Converts-Chars (Converts.positive w s args e small n) lt a = (Digits-Chars 10 s n.digits, a)
Converts-Chars (Converts.negative w s args e large n) lt a =
    ((omega arith, Digits-Chars 10 s n.digits), a)
Converts-Chars (Converts.least w s args e is n) lt a =
    ((omega arith, Digits-Chars 10 s n.digits), a)
Converts-Chars (Converts.unsigned w s args e n) lt a = (Digits-Chars 10 s n.digits, a)
Converts-Chars (Converts.hex w s args e n) lt a = (Digits-Chars 16 s n.digits, a)
Converts-Chars (Converts.octal w s args e n) lt a = (Digits-Chars 8 s n.digits, a)

pub Expands-Chars :
    {cs : List ℕ} {args : List Argument} {t : List ℕ}
    → Expands cs args t
    → Chars cs
    → StringChars args
    → Chars t
Expands-Chars (ends args) b a = tt
Expands-Chars (dropped c args e) b a = tt
Expands-Chars (plain c cs args u ne x) (lt, b) a = (lt, Expands-Chars x b a)
Expands-Chars (converted c d cs args rest t u e v x) (lc, (ld, b)) a =
    let (first, left) = Converts-Chars v ld a in Chars-append t u first (Expands-Chars x b left)
