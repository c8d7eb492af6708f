-- ===== src/Kstdio/Digits.antt =====
-- The digits that i_convert writes.
use mathlib.Core.Path.{subst}
use native.Mathlib.Nat.{zero-mul, zero-add, pow-succ', div-add-mod', mod-lt}
use elco_os.Base.{
  ℕ, zero, suc, ◌+◌, ◌-◌, ◌*◌, ◌/◌, ◌%◌, ◌^◌, ◌≡◌, ◌≢◌, ◌≤◌, ◌<◌, ◌⊎◌, inl, inr, refl, sym, ap, ◌∙◌,
  true, false, some, List, [], ◌∷◌, ◌++◌, length, length-append, arith, if◌then◌else◌, ◌==◌, ltb,
  Bool-cases, ==_iff,
}
use elco_os.Kstdio.{i_convert, i_print, digit_char}

-- the digit that a character stands for
abbrev pub digit_of : ℕ → ℕ
digit_of c = if ltb c b'a' then c - b'0' else c - b'a' + 10

-- the number that the characters stand for, read from the left
abbrev pub number : (base acc : ℕ) → List ℕ → ℕ
number base acc [] = acc
number base acc (c ∷ cs) = number base (acc * base + digit_of c) cs

pub number-snoc :
    (base acc c : ℕ) (cs : List ℕ)
    → number base acc (cs ++ c ∷ []) ≡ number base acc cs * base + digit_of c
number-snoc base acc c [] = refl
number-snoc base acc c (d ∷ cs) = number-snoc base (acc * base + digit_of d) c cs

digit_of-digit_char : (d : ℕ) → d < 36 → digit_of (digit_char d) ≡ d
digit_of-digit_char d lt = ground arith

-- '0' to '9', 'a' to 'z'
abbrev pub IsDigit : ℕ → Type 0
IsDigit c = ((48 ≤ c) × (c ≤ 57)) ⊎ ((97 ≤ c) × (c ≤ 122))

digit_char-IsDigit : (d : ℕ) → d < 36 → IsDigit (digit_char d)
digit_char-IsDigit d lt = elim (Bool-cases (ltb 9 d)) [
  | inl letter ↦ inr (ground arith, ground arith)
  | inr small ↦ inl (ground arith, ground arith)
]

-- every character is a digit of the base
abbrev pub Digits : (base : ℕ) → List ℕ → Type 0
Digits base [] = Unit {0}
Digits base (c ∷ cs) = IsDigit c × (digit_of c < base) × Digits base cs

-- The first digit is 0 only where it is the only one.
abbrev pub Leads : List ℕ → Type 0
Leads [] = true ≡ false
Leads (c ∷ []) = Unit {0}
Leads (c ∷ d ∷ cs) = digit_of c ≢ 0

-- The characters are the shortest numeral of `val`, of at most `n` digits.
pub record Numeral (base val n : ℕ) (cs : List ℕ) : Type 0 where
  pub reads : number base 0 cs ≡ val
  pub digits : Digits base cs
  pub leads : Leads cs
  pub short : length cs ≤ n

pub number-one : (base c : ℕ) → number base 0 (c ∷ []) ≡ digit_of c
number-one base c = ap (λ z. z + digit_of c) (zero-mul base) ∙ zero-add (digit_of c)

one-Numeral :
    (base val n : ℕ) → base ≤ 36 → val < base → 0 < n → Numeral base val n (digit_char val ∷ [])
one-Numeral base val n few lt room = record {
  reads = number-one base (digit_char val) ∙ digit_of-digit_char val (omega arith);
  digits =
      (digit_char-IsDigit val (omega arith), rw (digit_of-digit_char val (omega arith)) lt, tt);
  leads = tt;
  short = omega arith;
}

Digits-snoc :
    (base c : ℕ) (cs : List ℕ)
    → Digits base cs
    → IsDigit c
    → digit_of c < base
    → Digits base (cs ++ c ∷ [])
Digits-snoc base c [] d is lt = (is, lt, tt)
Digits-snoc base c (x ∷ xs) (dx, lx, d) is lt = (dx, lx, Digits-snoc base c xs d is lt)

pub Leads-snoc :
    (base val c : ℕ) (cs : List ℕ)
    → Leads cs
    → number base 0 cs ≡ val
    → val ≢ 0
    → Leads (cs ++ c ∷ [])
Leads-snoc base val c [] l e nz = tt
Leads-snoc base val c (x ∷ []) l e nz = λ z. nz (sym e ∙ number-one base x ∙ z)
Leads-snoc base val c (x ∷ y ∷ ys) l e nz = l

snoc-Numeral :
    (base val n : ℕ) (cs : List ℕ)
    → Numeral base (val / base) n cs
    → val / base ≢ 0
    → 2 ≤ base
    → base ≤ 36
    → Numeral base val (suc n) (cs ++ digit_char (val % base) ∷ [])
snoc-Numeral base val n cs u nz b few =
    let d = val % base in
    let lt : d < base = mod-lt val (omega arith) in
    let value = digit_of-digit_char d (omega arith) in
    record {
      reads = number-snoc base 0 (digit_char d) cs ∙ rw u.reads (rw value (div-add-mod' val base));
      digits =
          Digits-snoc base (digit_char d) cs u.digits (digit_char-IsDigit d (omega arith))
            (rw value lt);
      leads = Leads-snoc base (val / base) (digit_char d) cs u.leads u.reads nz;
      short = omega (arith, length-append cs (digit_char d ∷ []), u.short);
    }

quotient_small : (base val n : ℕ) → 2 ≤ base → val < 2 ^ suc n → val / base < 2 ^ n
quotient_small base val n b lt = grind (arith, div-add-mod' val base, pow-succ' 2 n)

-- the last digit
small_value :
    (base val : ℕ) → 2 ≤ base → (val / base == 0) ≡ true → (val < base) × (val % base ≡ val)
small_value base val b last =
    let e : val / base ≡ 0 = (==_iff (val / base) 0).0 last in
    let whole : val % base ≡ val =
      sym (zero-add (val % base))
      ∙ ap (λ z. z + val % base) (sym (zero-mul base))
      ∙ ap (λ q. q * base + val % base) (sym e)
      ∙ div-add-mod' val base in
    (subst (λ v. v < base) whole (mod-lt val (omega arith)), whole)

last-Numeral :
    (fuel val base digits : ℕ)
    → 2 ≤ base
    → base ≤ 36
    → (val / base == 0) ≡ true
    → digits ≤ 1
    → (s : List ℕ) × (i_convert (suc fuel) val base digits ≡ some s) × Numeral base val (suc fuel) s
unfolding i_convert
last-Numeral fuel val base digits b most last few =
    let (lt, whole) = small_value base val b last in
    let no_more : ltb 1 digits ≡ false = ground arith in
    (
      digit_char val ∷ [],
      rw last (rw no_more (rw whole refl)),
      one-Numeral base val (suc fuel) most lt (omega arith),
    )

i_convert-Numeral :
    (fuel val base digits : ℕ)
    → 2 ≤ base
    → base ≤ 36
    → val < 2 ^ fuel
    → 0 < fuel
    → digits ≤ 1
    → (s : List ℕ) × (i_convert fuel val base digits ≡ some s) × Numeral base val fuel s
unfolding i_convert
i_convert-Numeral zero val base digits b most lt pos few = absurd (omega arith)
i_convert-Numeral (suc zero) val base digits b most lt pos few =
    last-Numeral zero val base digits b most (grind (arith, quotient_small base val 0 b)) few
i_convert-Numeral (suc (suc fuel)) val base digits b most lt pos few =
    elim (Bool-cases (val / base == 0)) [
      | inl last ↦ last-Numeral (suc fuel) val base digits b most last few
      | inr more ↦
          let (s, run, u) =
            i_convert-Numeral (suc fuel) (val / base) base (digits - 1) b most
              (quotient_small base val (suc fuel) b lt) (omega arith) (omega arith) in
          (
            s ++ digit_char (val % base) ∷ [],
            rw more (rw run refl),
            snoc-Numeral base val (suc fuel) s u (ground arith) b most,
          )
    ]

-- i_print writes the shortest numeral of its value, of 64 bits, in its base, from 2 to 36, with the
-- digits '0' to '9' and 'a' to 'z', in at most 64 characters: the buffer of 65 bytes is large enough.
pub i_print-Numeral :
    (val base : ℕ)
    → val < 2 ^ 64
    → 2 ≤ base
    → base ≤ 36
    → (s : List ℕ) × (i_print val base ≡ some s) × Numeral base val 64 s
unfolding i_print
i_print-Numeral val base lt b most =
    i_convert-Numeral 64 val base 1 b most lt (omega arith) (omega arith)
