-- ===== src/Kstdio/Expand/Loop.antt =====
-- kprintf against the text of its format.
use mathlib.Core.Path.{subst}
use elco_os.Base.{
  ℕ, zero, suc, ◌+◌, ◌%◌, ◌^◌, ◌≡◌, ◌≢◌, ◌<◌, inl, inr, refl, sym, ap, ◌∙◌, false, some, List, [],
  ◌∷◌, ◌++◌, length, length-append, arith, ◌==◌, Bool-cases, ==_iff,
}
use elco_os.Kstring.Memory.{Bytes}
use elco_os.Kstdio.{Printed, print, put, text_run, kprintf_loop, kprintf}
use elco_os.Kstdio.Expand.{Argument, expand, Holds, Passed, Appends, Appends-trans, put-Appends}
use elco_os.Kstdio.Expand.Meaning.{Expands, Fits}
use elco_os.Kstdio.Expand.Sound.{Passed-Words, expand-total, expand-Expands}
use elco_os.Kstdio.Expand.Text.{
  Starts, Plain, text_run-Split, expand-Plain, Prints, Shorter, Appends-word, Appends-none,
  percent_end, percent_step,
}

percent_first : (c : ℕ) (cs after : List ℕ) → c ∷ cs ≡ after → Starts after → c ≡ b'%'
percent_first c cs after e start = subst Starts (sym e) start

text_from :
    (fuel limit : ℕ) (m : Bytes) (format : ℕ) (words : List ℕ) (args : List Argument) (c : ℕ)
    (cs before after : List ℕ) (o : Printed) (t : List ℕ)
    → Shorter fuel limit m
    → m format ≡ c
    → c ≢ 0
    → c ≢ b'%'
    → c ∷ cs ≡ before ++ after
    → Plain before
    → Starts after
    → Holds m (format + length before) after
    → text_run limit m format 0 ≡ some (length before)
    → print m format (length before) ≡ before
    → Passed limit m words args
    → expand (before ++ after) args ≡ some t
    → length cs < fuel
    → suc (length cs) < limit
    → Prints (suc fuel) limit m format words o t
unfolding kprintf_loop
text_from fuel limit m format words args c cs [] after o t ih e nz ne whole pl start held run shown
      p ex lt lt' =
    absurd (ne (percent_first c cs after whole start))
text_from fuel limit m format words args c cs (x ∷ xs) after o t ih e nz ne whole pl start held run
      shown p ex lt lt' =
    let before = x ∷ xs in
    let (u, rest_run, same) = expand-Plain before after args t pl ex in
    let sizes : suc (length cs) ≡ suc (length xs) + length after =
      ap length whole ∙ length-append before after in
    let o1 = put o before (length before) in
    let a1 = put-Appends o before in
    let (o2, run2, a2) =
      ih (format + length before) words args after o1 u held p rest_run (omega arith) (omega arith)
        (Appends-word o o1 before a1) in
    let not_end : (c == 0) ≡ false = ground arith in
    let not_percent : (c == b'%') ≡ false = ground arith in
    (
      o2,
      rw e (rw not_end (rw not_percent (rw run (rw shown run2)))),
      subst (λ l. Appends o l o2) same (Appends-trans o o1 o2 before u a1 a2),
    )

text_step :
    (fuel limit : ℕ) (m : Bytes) (format : ℕ) (words : List ℕ) (args : List Argument) (c : ℕ)
    (cs : List ℕ) (o : Printed) (t : List ℕ)
    → Shorter fuel limit m
    → Holds m format (c ∷ cs)
    → c ≢ b'%'
    → Passed limit m words args
    → expand (c ∷ cs) args ≡ some t
    → length cs < fuel
    → suc (length cs) < limit
    → Prints (suc fuel) limit m format words o t
text_step fuel limit m format words args c cs o t ih h ne p ex lt lt' =
    let u =
      text_run-Split limit m format 0 (c ∷ cs)
        (subst (λ q. Holds m q (c ∷ cs)) {x = format} {y = format + 0} (omega arith) h) lt' in
    text_from fuel limit m format words args c cs u.before u.after o t ih h.0 h.1 ne u.whole u.plain
      u.starts
      (subst (λ q. Holds m q u.after) {x = format + 0 + length u.before}
        {y = format + length u.before} (omega arith) u.held)
      (u.run ∙ ap some {x = 0 + length u.before} {y = length u.before} (omega arith))
      (ap (λ q. print m q (length u.before)) {x = format} {y = format + 0} (omega arith) ∙ u.shown)
      p (subst (λ l. expand l args ≡ some t) u.whole ex) lt lt'

kprintf_loop-Prints : (fuel limit : ℕ) (m : Bytes) → Shorter fuel limit m
unfolding expand kprintf_loop
kprintf_loop-Prints zero limit m format words args cs o t h p e lt lt' size = absurd (omega arith)
kprintf_loop-Prints (suc fuel) limit m format words args [] o t h p e lt lt' size =
    let none_left : [] ≡ t = cc in
    (o, rw h refl, subst (λ l. Appends o l o) none_left (Appends-none o size))
kprintf_loop-Prints (suc zero) limit m format words args (c ∷ cs) o t h p e lt lt' size =
    absurd (omega arith)
kprintf_loop-Prints (suc (suc fuel)) limit m format words args (c ∷ []) o t h p e lt lt' size =
    elim (Bool-cases (c == b'%')) [
      | inl percent ↦
          let at : c ≡ b'%' = (==_iff c b'%').0 percent in
          let none_left : [] ≡ t = ground arith in
          subst (λ l. Prints (suc (suc fuel)) limit m format words o l) none_left
            (percent_end fuel limit m format words o (h.0 ∙ at) h.2 size)
      | inr plain ↦
          text_step (suc fuel) limit m format words args c [] o t
            (kprintf_loop-Prints (suc fuel) limit m) h (ground arith) p e (omega arith)
            (omega arith)
    ]
kprintf_loop-Prints (suc (suc fuel)) limit m format words args (c ∷ d ∷ cs) o t h p e lt lt' size =
    elim (Bool-cases (c == b'%')) [
      | inl percent ↦
          let at : c ≡ b'%' = (==_iff c b'%').0 percent in
          percent_step (suc fuel) limit m format words args d cs o t
            (kprintf_loop-Prints (suc fuel) limit m) (h.0 ∙ at) h.2.0 h.2.1
            (subst (λ q. Holds m q cs) {x = format + 1 + 1} {y = format + 2} (omega arith) h.2.2) p
            (subst (λ b. expand (b ∷ d ∷ cs) args ≡ some t) at e) (omega arith) (omega arith)
      | inr plain ↦
          text_step (suc fuel) limit m format words args c (d ∷ cs) o t
            (kprintf_loop-Prints (suc fuel) limit m) h (ground arith) p e (omega arith)
            (omega arith)
    ]

same_print :
    (o : Printed) (t : List ℕ) (n : ℕ)
    → o.out ≡ t
    → o.written ≡ n
    → o ≡ record { out = t; written = n }
same_print o t n p q = ground arith

-- kprintf prints a text that the format stands for with its arguments by the rules of `Expands`, and
-- returns the number of the characters printed, modulo 2^32. Each conversion of the format has an
-- argument of its kind; the format and the strings have fewer than `limit` characters, and with that
-- fuel the loops end.
pub kprintf-Expands :
    (limit : ℕ) (m : Bytes) (format : ℕ) (words : List ℕ) (args : List Argument) (cs : List ℕ)
    → Holds m format cs
    → Passed limit m words args
    → length cs < limit
    → Fits cs args
    → (t : List ℕ) × (kprintf limit m format words
        ≡ some (record { out = t; written = length t % 2 ^ 32 }))
      × Expands cs args t
unfolding kprintf
kprintf-Expands limit m format words args cs h p lt fits =
    let ws = Passed-Words limit m words args p in
    let (t, e) = expand-total cs args ws fits in
    let (o, run, a) =
      kprintf_loop-Prints limit limit m format words args cs (record { out = []; written = 0 }) t h
        p e lt lt (omega arith) in
    (
      t,
      run ∙ ap some (same_print o t (length t % 2 ^ 32) a.printed (a.counted ∙ omega arith)),
      expand-Expands cs args t ws e,
    )
