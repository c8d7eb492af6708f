-- ===== src/Kstdio/Expand/Sound.antt =====
-- The text that expand computes follows the rules of Kstdio/Expand/Meaning.antt, and there is one where
-- the arguments fit the format.
use mathlib.Core.Path.{subst}
use elco_os.Base.{
  ℕ, ◌-◌, ◌%◌, ◌^◌, ◌≡◌, ◌≤◌, ◌<◌, ◌⊎◌, inl, inr, refl, sym, Option, some, ◌>>=◌, List, [], ◌∷◌,
  ◌++◌, arith, ◌==◌, ltb, Bool-cases, ==_iff, ◌∉◌, true, false, if◌then◌else◌,
}
use elco_os.Kstring.Memory.{Bytes}
use elco_os.Kstdio.{Label, label, i_print}
use elco_os.Kstdio.Digits.{Numeral, i_print-Numeral}
use elco_os.Kstdio.Expand.{
  Argument, word, string, signed_text, with_rest, conversion, expand, Passed,
}
use elco_os.Kstdio.Expand.Convert.{bind_some}
use elco_os.Kstdio.Expand.Meaning.{
  conversions, Converts, Expands, ends, dropped, plain, converted, Fits, takes,
}

-- the words among the arguments have 32 bits
abbrev pub Words : List Argument → Type 0
Words [] = Unit {0}
Words (word w ∷ args) = (w < 2 ^ 32) × Words args
Words (string t ∷ args) = Words args

pub Passed-Words :
    (limit : ℕ) (m : Bytes) (words : List ℕ) (args : List Argument)
    → Passed limit m words args
    → Words args
Passed-Words limit m [] [] p = tt
Passed-Words limit m (w ∷ ws) (word a ∷ args) (e, lt, p) =
    (subst (λ x. x < 2 ^ 32) e lt, Passed-Words limit m ws args p)
Passed-Words limit m (w ∷ ws) (string t ∷ args) (h, lt, p) = Passed-Words limit m ws args p
Passed-Words limit m [] (a ∷ args) p = absurd (ground arith)
Passed-Words limit m (w ∷ ws) [] p = absurd (ground arith)

-- the characters of a label
abbrev Reads : ℕ → Label → Type 0
Reads d Label.char = d ≡ b'c'
Reads d Label.text = d ≡ b's'
Reads d Label.signed = (d ≡ b'd') ⊎ (d ≡ b'i')
Reads d Label.unsigned = d ≡ b'u'
Reads d Label.hex = (d ≡ b'x') ⊎ (d ≡ b'p')
Reads d Label.octal = d ≡ b'o'
Reads d Label.percent = d ≡ b'%'
Reads d Label.other = d ∉ conversions

label-Reads : (d : ℕ) (k : Label) → label d ≡ k → Reads d k
unfolding label
label-Reads d Label.char e = ground arith
label-Reads d Label.text e = ground arith
label-Reads d Label.signed e = ground arith
label-Reads d Label.unsigned e = ground arith
label-Reads d Label.hex e = ground arith
label-Reads d Label.octal e = ground arith
label-Reads d Label.percent e = ground arith
label-Reads d Label.other e = ground arith

-- the text and the arguments that are left, up to equality
moved :
    (d : ℕ) (args args' rest : List Argument) (u t : List ℕ)
    → Converts d args u args'
    → Words args'
    → ◌≡◌ {A = Option (List ℕ × List Argument)} (some (u, args')) (some (t, rest))
    → Converts d args t rest × Words rest
moved d args args' rest u t v w e =
    let text_eq : u ≡ t = cc in
    let args_eq : args' ≡ rest = cc in
    (
      subst (λ l. Converts d args t l) args_eq (subst (λ l. Converts d args l args') text_eq v),
      subst Words args_eq w,
    )

printed-Numeral :
    (base w : ℕ) (t : List ℕ)
    → w < 2 ^ 64
    → 2 ≤ base
    → base ≤ 36
    → i_print w base ≡ some t
    → Numeral base w 64 t
printed-Numeral base w t lt few many e =
    let (s, run, num) = i_print-Numeral w base lt few many in
    let same : s ≡ t = cc in subst (λ l. Numeral base w 64 l) same num

-- a conversion that prints a number in a base
number-Converts :
    (d base w : ℕ) (args rest : List Argument) (t : List ℕ)
    → w < 2 ^ 32
    → 2 ≤ base
    → base ≤ 36
    → ((s : List ℕ) → Numeral base w 64 s → Converts d (word w ∷ args) s args)
    → Words args
    → with_rest args (i_print w base) ≡ some (t, rest)
    → Converts d (word w ∷ args) t rest × Words rest
number-Converts d base w args rest t lt few many rule ws e =
    let (s, run, same) = bind_some (i_print w base) (λ u. some (u, args)) e in
    moved d (word w ∷ args) args rest s t
      (rule s (printed-Numeral base w s (omega arith) few many run)) ws same

signed_text-Converts :
    (d w : ℕ) (args : List Argument) (t : List ℕ)
    → (d ≡ b'd') ⊎ (d ≡ b'i')
    → w < 2 ^ 32
    → signed_text w ≡ some t
    → Converts d (word w ∷ args) t args
unfolding signed_text
signed_text-Converts d w args t at lt e = elim (Bool-cases (ltb w (2 ^ 31))) [
  | inl small ↦
      Converts.positive w t args at (ground arith)
        (printed-Numeral 10 w t (omega arith) (omega arith) (omega arith) (rw small at e))
  | inr large ↦ elim (Bool-cases (w == 2 ^ 31)) [
    | inl lowest ↦
        let (s, run, same) =
          bind_some (i_print (2 ^ 64 - 2 ^ 31) 10) (λ s. some (b'-' ∷ s))
            (rw lowest at (rw large at e)) in
        let text_eq : b'-' ∷ s ≡ t = cc in
        subst (λ l. Converts d (word w ∷ args) l args) text_eq
          (Converts.least w s args at (ground arith)
            (printed-Numeral 10 (2 ^ 64 - 2 ^ 31) s (omega arith) (omega arith) (omega arith) run))
    | inr other ↦
        let (s, run, same) =
          bind_some (i_print (2 ^ 32 - w) 10) (λ s. some (b'-' ∷ s))
            (rw other at (rw large at e)) in
        let text_eq : b'-' ∷ s ≡ t = cc in
        subst (λ l. Converts d (word w ∷ args) l args) text_eq
          (Converts.negative w s args at (ground arith)
            (printed-Numeral 10 (2 ^ 32 - w) s (omega arith) (omega arith) (omega arith) run))
  ]
]

conversion-Converts :
    (k : Label) (d : ℕ) (args rest : List Argument) (t : List ℕ)
    → Reads d k
    → Words args
    → conversion k d args ≡ some (t, rest)
    → Converts d args t rest × Words rest
unfolding conversion
conversion-Converts Label.percent d args rest t r ws e =
    moved d args args rest (d ∷ []) t
      (subst (λ c. Converts d args (c ∷ []) args) (sym r) (Converts.percent args r)) ws e
conversion-Converts Label.other d args rest t r ws e =
    moved d args args rest (b'%' ∷ d ∷ []) t (Converts.unknown args r) ws e
conversion-Converts Label.char d (word w ∷ args) rest t r (lt, ws) e =
    moved d (word w ∷ args) args rest (w % 256 ∷ []) t (Converts.char w args r) ws e
conversion-Converts Label.text d (string u ∷ args) rest t r ws e =
    moved d (string u ∷ args) args rest u t (Converts.text u args r) ws e
conversion-Converts Label.signed d (word w ∷ args) rest t r (lt, ws) e =
    let (s, run, same) = bind_some (signed_text w) (λ u. some (u, args)) e in
    moved d (word w ∷ args) args rest s t (signed_text-Converts d w args s r lt run) ws same
conversion-Converts Label.unsigned d (word w ∷ args) rest t r (lt, ws) e =
    number-Converts d 10 w args rest t lt (omega arith) (omega arith)
      (λ s n. Converts.unsigned w s args r n) ws e
conversion-Converts Label.hex d (word w ∷ args) rest t r (lt, ws) e =
    number-Converts d 16 w args rest t lt (omega arith) (omega arith)
      (λ s n. Converts.hex w s args r n) ws e
conversion-Converts Label.octal d (word w ∷ args) rest t r (lt, ws) e =
    number-Converts d 8 w args rest t lt (omega arith) (omega arith)
      (λ s n. Converts.octal w s args r n) ws e
conversion-Converts k d args rest t r ws e = absurd (ground arith)

-- The text that expand computes is one that the format stands for.
pub expand-Expands :
    (cs : List ℕ) (args : List Argument) (t : List ℕ)
    → Words args
    → expand cs args ≡ some t
    → Expands cs args t
unfolding expand
expand-Expands [] args t ws e =
    let same : [] ≡ t = cc in subst (λ l. Expands [] args l) same (ends args)
expand-Expands (c ∷ []) args t ws e = elim (Bool-cases (c == b'%')) [
  | inl sign ↦
      let same : [] ≡ t = ground arith in
      subst (λ l. Expands (c ∷ []) args l) same (dropped c args ((==_iff c b'%').0 sign))
  | inr other ↦
      let same : c ∷ [] ≡ t = ground arith in
      subst (λ l. Expands (c ∷ []) args l) same (plain c [] args [] (ground arith) (ends args))
]
expand-Expands (c ∷ d ∷ cs) args t ws e = elim (Bool-cases (c == b'%')) [
  | inl sign ↦
      let (r, conv, e') =
        bind_some (conversion (label d) d args) (λ r. expand cs r.1 >>= λ u. some (r.0 ++ u))
          (rw sign at e) in
      let (u, run, e'') = bind_some (expand cs r.1) (λ u. some (r.0 ++ u)) e' in
      let (rule, left) =
        conversion-Converts (label d) d args r.1 r.0 (label-Reads d (label d) refl) ws conv in
      let same : r.0 ++ u ≡ t = cc in
      subst (λ l. Expands (c ∷ d ∷ cs) args l) same
        (converted c d cs args r.1 r.0 u ((==_iff c b'%').0 sign) rule
          (expand-Expands cs r.1 u left run))
  | inr other ↦
      let (u, run, e') = bind_some (expand (d ∷ cs) args) (λ u. some (c ∷ u)) (rw other at e) in
      let same : c ∷ u ≡ t = cc in
      subst (λ l. Expands (c ∷ d ∷ cs) args l) same
        (plain c (d ∷ cs) args u (ground arith) (expand-Expands (d ∷ cs) args u ws run))
]

-- i_print always gives a text
printed_text :
    (base w : ℕ) → w < 2 ^ 64 → 2 ≤ base → base ≤ 36 → (s : List ℕ) × (i_print w base ≡ some s)
printed_text base w lt few many = let (s, run, num) = i_print-Numeral w base lt few many in (s, run)

signed_text-total : (w : ℕ) → w < 2 ^ 32 → (s : List ℕ) × (signed_text w ≡ some s)
unfolding signed_text
signed_text-total w lt = elim (Bool-cases (ltb w (2 ^ 31))) [
  | inl small ↦ rw small (printed_text 10 w (omega arith) (omega arith) (omega arith))
  | inr large ↦
      let (s, run) =
        printed_text 10 (if w == 2 ^ 31 then 2 ^ 64 - 2 ^ 31 else 2 ^ 32 - w) (ground arith)
          (omega arith) (omega arith) in
      rw large (rw run (b'-' ∷ s, refl))
]

number-total :
    (base w : ℕ) (args : List Argument)
    → w < 2 ^ 32
    → 2 ≤ base
    → base ≤ 36
    → (s : List ℕ) × (with_rest args (i_print w base) ≡ some (s, args))
number-total base w args lt few many =
    let (s, run) = printed_text base w (omega arith) few many in (s, rw run refl)

-- Where a conversion has its argument, it has a text.
conversion-total :
    (k : Label) (d : ℕ) (args rest : List Argument)
    → Reads d k
    → Words args
    → takes d args ≡ some rest
    → (t : List ℕ) × (conversion k d args ≡ some (t, rest))
unfolding conversion
conversion-total Label.percent d args rest r ws e = (d ∷ [], ground arith)
conversion-total Label.other d args rest r ws e = (b'%' ∷ d ∷ [], ground arith)
conversion-total Label.char d (word w ∷ args) rest r ws e = (w % 256 ∷ [], ground arith)
conversion-total Label.text d (string u ∷ args) rest r ws e = (u, ground arith)
conversion-total Label.signed d (word w ∷ args) rest r (lt, ws) e =
    let (s, run) = signed_text-total w lt in
    let left : args ≡ rest = ground arith in (s, rw run (rw left refl))
conversion-total Label.unsigned d (word w ∷ args) rest r (lt, ws) e =
    let left : args ≡ rest = ground arith in
    rw (← left) (number-total 10 w args lt (omega arith) (omega arith))
conversion-total Label.hex d (word w ∷ args) rest r (lt, ws) e =
    let left : args ≡ rest = ground arith in
    rw (← left) (number-total 16 w args lt (omega arith) (omega arith))
conversion-total Label.octal d (word w ∷ args) rest r (lt, ws) e =
    let left : args ≡ rest = ground arith in
    rw (← left) (number-total 8 w args lt (omega arith) (omega arith))
conversion-total k d args rest r ws e = absurd (ground arith)

-- Where the arguments fit the format, it has a text.
pub expand-total :
    (cs : List ℕ) (args : List Argument)
    → Words args
    → Fits cs args
    → (t : List ℕ) × (expand cs args ≡ some t)
unfolding expand
expand-total [] args ws f = ([], refl)
expand-total (c ∷ []) args ws f = elim (Bool-cases (c == b'%')) [
  | inl sign ↦ rw sign ([], refl)
  | inr other ↦ rw other (c ∷ [], refl)
]
expand-total (c ∷ d ∷ cs) args ws (inl (ne, f)) =
    let (u, run) = expand-total (d ∷ cs) args ws f in
    let other : (c == b'%') ≡ false = ground arith in (c ∷ u, rw other (rw run refl))
expand-total (c ∷ d ∷ cs) args ws (inr (e, rest, took, f)) =
    let (t, run) = conversion-total (label d) d args rest (label-Reads d (label d) refl) ws took in
    let (rule, left) =
      conversion-Converts (label d) d args rest t (label-Reads d (label d) refl) ws run in
    let (u, run') = expand-total cs rest left f in
    let sign : (c == b'%') ≡ true = ground arith in (t ++ u, rw sign (rw run (rw run' refl)))
