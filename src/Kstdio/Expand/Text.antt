-- ===== src/Kstdio/Expand/Text.antt =====
-- The plain text of a format.
use mathlib.Core.Path.{subst}
use mathlib.Core.List.{append-nil}
use elco_os.Base.{
  ℕ, zero, suc, ◌+◌, ◌^◌, ◌≡◌, ◌≢◌, ◌<◌, inl, inr, refl, sym, ap, ◌∙◌, true, false, ◌&&◌, not, some,
  ◌>>=◌, List, [], ◌∷◌, ◌++◌, length, arith, ◌==◌, Bool-cases, ==_iff,
}
use elco_os.Kstring.Memory.{Bytes}
use elco_os.Kstdio.{label, Printed, print, text_run, kprintf_loop}
use elco_os.Kstdio.Expand.{Argument, conversion, expand, Holds, Passed, Appends, Appends-trans}
use elco_os.Kstdio.Expand.Convert.{bind_some, convert-Appends}

-- the plain text at the beginning, and what follows: nothing, or a '%'
abbrev pub Starts : List ℕ → Type 0
Starts [] = Unit {0}
Starts (c ∷ cs) = c ≡ b'%'

abbrev pub Plain : List ℕ → Type 0
Plain [] = Unit {0}
Plain (c ∷ cs) = (c ≢ b'%') × Plain cs

-- how text_run splits what is left of the format
pub record Split (fuel : ℕ) (m : Bytes) (p amount : ℕ) (cs : List ℕ) : Type 0 where
  pub before : List ℕ
  pub after : List ℕ
  pub whole : cs ≡ before ++ after
  pub plain : Plain before
  pub starts : Starts after
  pub held : Holds m (p + amount + length before) after
  pub run : text_run fuel m p amount ≡ some (amount + length before)
  pub shown : print m (p + amount) (length before) ≡ before

stops-Split :
    (fuel : ℕ) (m : Bytes) (p amount : ℕ) (cs : List ℕ)
    → Holds m (p + amount) cs
    → Starts cs
    → (not (m (p + amount) == 0) && not (m (p + amount) == b'%')) ≡ false
    → Split (suc fuel) m p amount cs
unfolding text_run print
stops-Split fuel m p amount cs h start stop = record {
  before = [];
  after = cs;
  whole = refl;
  plain = tt;
  starts = start;
  held = subst (λ q. Holds m q cs) (omega arith) h;
  run = rw stop (ap some {x = amount} {y = amount + 0} (omega arith));
  shown = refl;
}

moves-Split :
    (fuel : ℕ) (m : Bytes) (p amount c : ℕ) (cs : List ℕ)
    → Split fuel m p (amount + 1) cs
    → m (p + amount) ≡ c
    → c ≢ b'%'
    → (not (m (p + amount) == 0) && not (m (p + amount) == b'%')) ≡ true
    → Split (suc fuel) m p amount (c ∷ cs)
unfolding text_run print
moves-Split fuel m p amount c cs u e plain go = record {
  before = c ∷ u.before;
  after = u.after;
  whole = ap (◌∷◌ c) u.whole;
  plain = (plain, u.plain);
  starts = u.starts;
  held =
      subst (λ q. Holds m q u.after) {x = p + (amount + 1) + length u.before} (omega arith) u.held;
  run = rw go (
      u.run
      ∙ ap some {x = amount + 1 + length u.before} {y = amount + suc (length u.before)}
          (omega arith));
  shown = rw e (
      ap (◌∷◌ c) (
        ap (λ q. print m q (length u.before)) {x = p + amount + 1} {y = p + (amount + 1)}
          (omega arith)
        ∙ u.shown));
}

pub text_run-Split :
    (fuel : ℕ) (m : Bytes) (p amount : ℕ) (cs : List ℕ)
    → Holds m (p + amount) cs
    → length cs < fuel
    → Split fuel m p amount cs
text_run-Split zero m p amount cs h lt = absurd (omega arith)
text_run-Split (suc fuel) m p amount [] h lt = stops-Split fuel m p amount [] h tt (ground arith)
text_run-Split (suc fuel) m p amount (c ∷ cs) (e, nz, h) lt = elim (Bool-cases (c == b'%')) [
  | inl percent ↦
      stops-Split fuel m p amount (c ∷ cs) (e, nz, h) ((==_iff c b'%').0 percent) (ground arith)
  | inr plain ↦
      let shifted =
        subst (λ q. Holds m q cs) {x = p + amount + 1} {y = p + (amount + 1)} (omega arith) h in
      let u = text_run-Split fuel m p (amount + 1) cs shifted (omega arith) in
      moves-Split fuel m p amount c cs u e (ground arith) (ground arith)
]

expand_step :
    (c : ℕ) (cs : List ℕ) (args : List Argument)
    → c ≢ b'%'
    → expand (c ∷ cs) args ≡ (expand cs args >>= λ u. some (c ∷ u))
unfolding expand
expand_step c [] args ne = let test : (c == b'%') ≡ false = ground arith in rw test refl
expand_step c (d ∷ cs) args ne = let test : (c == b'%') ≡ false = ground arith in rw test refl

-- Plain text stands for itself.
pub expand-Plain :
    (xs ys : List ℕ) (args : List Argument) (t : List ℕ)
    → Plain xs
    → expand (xs ++ ys) args ≡ some t
    → (u : List ℕ) × (expand ys args ≡ some u) × (xs ++ u ≡ t)
expand-Plain [] ys args t pl e = (t, e, refl)
expand-Plain (x ∷ xs) ys args t (ne, pl) e =
    let (u, run, same) =
      bind_some (expand (xs ++ ys) args) (λ u. some (x ∷ u))
        (sym (expand_step x (xs ++ ys) args ne) ∙ e) in
    let (v, run', same') = expand-Plain xs ys args u pl run in
    let head : x ∷ u ≡ t = cc in (v, run', ap (◌∷◌ x) same' ∙ head)

-- The loop over a format that holds `cs`.
abbrev pub Prints :
    (fuel limit : ℕ) → Bytes → (format : ℕ) → (words : List ℕ) → Printed → List ℕ → Type 0
Prints fuel limit m format words o t =
    (o' : Printed) × (kprintf_loop fuel limit m format words o ≡ some o') × Appends o t o'

-- The loop lemma, for all formats that are shorter.
abbrev pub Shorter : (fuel limit : ℕ) → Bytes → Type 0
Shorter fuel limit m =
    (format : ℕ) (words : List ℕ) (args : List Argument) (cs : List ℕ) (o : Printed) (t : List ℕ)
    → Holds m format cs
    → Passed limit m words args
    → expand cs args ≡ some t
    → length cs < fuel
    → length cs < limit
    → o.written < 2 ^ 32
    → Prints fuel limit m format words o t

pub Appends-word : (o o' : Printed) (t : List ℕ) → Appends o t o' → o'.written < 2 ^ 32
Appends-word o o' t a = omega (arith, a.counted)

pub Appends-none : (o : Printed) → o.written < 2 ^ 32 → Appends o [] o
Appends-none o size = record { printed = sym (append-nil o.out); counted = omega arith }

pub percent_end :
    (fuel limit : ℕ) (m : Bytes) (format : ℕ) (words : List ℕ) (o : Printed)
    → m format ≡ b'%'
    → m (format + 1) ≡ 0
    → o.written < 2 ^ 32
    → Prints (suc (suc fuel)) limit m format words o []
unfolding kprintf_loop
percent_end fuel limit m format words o e z size = (o, rw e (rw z refl), Appends-none o size)

pub percent_step :
    (fuel limit : ℕ) (m : Bytes) (format : ℕ) (words : List ℕ) (args : List Argument) (d : ℕ)
    (cs : List ℕ) (o : Printed) (t : List ℕ)
    → Shorter fuel limit m
    → m format ≡ b'%'
    → m (format + 1) ≡ d
    → d ≢ 0
    → Holds m (format + 2) cs
    → Passed limit m words args
    → expand (b'%' ∷ d ∷ cs) args ≡ some t
    → length cs < fuel
    → length cs < limit
    → Prints (suc fuel) limit m format words o t
unfolding kprintf_loop expand
percent_step fuel limit m format words args d cs o t ih e e' nz h p ex lt lt' =
    let (r, conv, ex') =
      bind_some (conversion (label d) d args) (λ r. expand cs r.1 >>= λ u. some (r.0 ++ u)) ex in
    let (u, rest_run, same) = bind_some (expand cs r.1) (λ u. some (r.0 ++ u)) ex' in
    let (o1, words1, run1, p1, a1) =
      convert-Appends limit m (label d) d words args r.1 o r.0 p conv in
    let (o2, run2, a2) =
      ih (format + 2) words1 r.1 cs o1 u h p1 rest_run lt lt' (Appends-word o o1 r.0 a1) in
    let test : (d == 0) ≡ false = ground arith in
    let joined : r.0 ++ u ≡ t = cc in
    (
      o2,
      rw e (rw e' (rw test (rw run1 run2))),
      subst (λ l. Appends o l o2) joined (Appends-trans o o1 o2 r.0 u a1 a2),
    )
