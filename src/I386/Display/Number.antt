-- ===== src/I386/Display/Number.antt =====
-- arch_display_number.
use mathlib.Core.Path.{subst}
use native.Mathlib.Nat.{pow-succ'}
use elco_os.Base.{
  ℕ, zero, suc, ◌+◌, ◌-◌, ◌*◌, ◌/◌, ◌%◌, ◌^◌, ◌≡◌, ◌≢◌, ◌≤◌, ◌<◌, ◌⊎◌, inl, inr, refl, ◌∙◌, true,
  false, ◌&&◌, some, List, [], ◌∷◌, ◌++◌, length, get_or, length-append, arith, if◌then◌else◌, ◌==◌,
  ltb, leb, Bool-cases, eq-cases,
}
use elco_os.I386.Display.{
  Display, make_vgaentry, display_putentryat, number_digits, show_digits, arch_display_number,
  int_rounds,
}
use elco_os.I386.Display.Cells.{
  entry_at, store_entry-KeepsRest, store_entry-entry_at, make_vgaentry-bound,
}
use elco_os.I386.Display.Terminal.{Within, Within-trans}
use elco_os.Kstdio.Digits.{number, digit_of, Leads, Leads-snoc, number-one, number-snoc}

quotient_short : (num fuel : ℕ) → num < 10 ^ suc fuel → num / 10 < 10 ^ fuel
quotient_short num fuel lt = omega (arith, lt, pow-succ' 10 fuel)

positive_fuel : (num fuel : ℕ) → num < 10 ^ suc fuel → (num / 10 == 0) ≡ false → 0 < fuel
positive_fuel num zero lt more = ground arith
positive_fuel num (suc fuel) lt more = omega arith

digit_of-digit : (d : ℕ) → d < 10 → digit_of (b'0' + d) ≡ d
digit_of-digit d lt = ground arith

-- characters from '0' to '9'
abbrev pub Decimal : List ℕ → Type 0
Decimal [] = Unit {0}
Decimal (c ∷ cs) = (48 ≤ c) × (c < 58) × Decimal cs

Decimal-snoc : (ds : List ℕ) (c : ℕ) → Decimal ds → 48 ≤ c → c < 58 → Decimal (ds ++ c ∷ [])
Decimal-snoc [] c h lo hi = (lo, hi, tt)
Decimal-snoc (d ∷ ds) c (a, b, h) lo hi = (a, b, Decimal-snoc ds c h lo hi)

number_digits-number :
    (fuel num : ℕ)
    → num < 10 ^ fuel
    → 0 < fuel
    → (ds : List ℕ) × (number_digits fuel num ≡ some ds)
      × (number 10 0 ds ≡ num)
      × (length ds ≤ fuel)
      × (0 < length ds)
      × Decimal ds
      × Leads ds
unfolding number_digits
number_digits-number zero num lt pos = absurd (omega arith)
number_digits-number (suc fuel) num lt pos =
    let c = 48 + num % 10 in
    let value = digit_of-digit (num % 10) (omega arith) in
    elim (Bool-cases (num / 10 == 0)) [
      | inl e ↦ (
        c ∷ [],
        rw e refl,
        number-one 10 c ∙ value ∙ ground arith,
        omega arith,
        omega arith,
        (omega arith, omega arith, tt),
        tt,
      )
      | inr e ↦
          let (ds, run, v, l, pos, dec, leads) =
            number_digits-number fuel (num / 10) (quotient_short num fuel lt)
              (positive_fuel num fuel lt e) in
          (
            ds ++ c ∷ [],
            rw e (rw run refl),
            number-snoc 10 0 c ds ∙ rw v (rw value (omega arith)),
            omega (arith, length-append ds (c ∷ [])),
            omega (arith, length-append ds (c ∷ [])),
            Decimal-snoc ds c dec (omega arith) (omega arith),
            Leads-snoc 10 (num / 10) c ds leads v (ground arith),
          )
    ]

-- from `d` to `d'`, the chars of the list were drawn from the index `from` on, as far as the screen goes
pub record Drawn (d d' : Display) (from : ℕ) (ds : List ℕ) : Type 0 where
  pub within : Within d d'
  pub same_row : d'.display_row ≡ d.display_row
  pub same_column : d'.display_column ≡ d.display_column
  pub same_color : d'.display_color ≡ d.display_color
  pub drawn :
      (i : ℕ)
      → i < 80 * 25
      → entry_at d.display_buffer i d'.memory ≡ (
          if leb from i && ltb i (from + length ds)
          then make_vgaentry (get_or ds (i - from) 0) d.display_color
          else entry_at d.display_buffer i d.memory)

Drawn-nil : (d : Display) (from : ℕ) → Drawn d d from []
Drawn-nil d from = record {
  within = record { same_buffer = refl; rest = λ a out. refl };
  same_row = refl;
  same_column = refl;
  same_color = refl;
  drawn = λ i lt. ground arith;
}

-- nothing is drawn behind the screen
Drawn-outside : (d : Display) (from : ℕ) (ds : List ℕ) → 80 * 25 ≤ from → Drawn d d from ds
Drawn-outside d from ds out = record {
  within = record { same_buffer = refl; rest = λ a o. refl };
  same_row = refl;
  same_column = refl;
  same_color = refl;
  drawn = λ i lt. ground arith;
}

one_char :
    (f : ℕ → ℕ) (c i index old : ℕ)
    → (if i == index then f c else old)
      ≡ (if leb index i && ltb i (index + 1) then f (get_or (c ∷ []) (i - index) 0) else old)
one_char f c i index old = elim (eq-cases i index) [
  | inl e ↦
      let here : i - index ≡ 0 = ground arith in
      let inside : (leb index i && ltb i (index + 1)) ≡ true = ground arith in
      rw e (rw inside (rw here refl))
  | inr e ↦
      let outside : (leb index i && ltb i (index + 1)) ≡ false = ground arith in
      rw e (rw outside refl)
]

display_putentryat-Drawn :
    (d : Display) (c x y : ℕ)
    → c < 256
    → d.display_color < 256
    → y * 80 + x < 80 * 25
    → Drawn d (display_putentryat c d.display_color x y d) (y * 80 + x) (c ∷ [])
unfolding display_putentryat
display_putentryat-Drawn d c x y lc lk li =
    let index : (y * 80 + x) % 2 ^ 32 ≡ y * 80 + x = omega arith in
    let v = make_vgaentry c d.display_color in
    record {
      within = record {
        same_buffer = refl;
        rest = rw index (store_entry-KeepsRest d.display_buffer (y * 80 + x) v d.memory li);
      };
      same_row = refl;
      same_column = refl;
      same_color = refl;
      drawn = λ i lt. rw index (
          store_entry-entry_at d.display_buffer (y * 80 + x) v i d.memory
            (make_vgaentry-bound c d.display_color lc lk)
          ∙ one_char (λ z. make_vgaentry z d.display_color) c i (y * 80 + x)
              (entry_at d.display_buffer i d.memory));
    }

-- the first char, then the others
shifted_char :
    (f : ℕ → ℕ) (c i from old : ℕ) (ds : List ℕ)
    → (if leb (from + 1) i && ltb i (from + 1 + length ds)
        then f (get_or ds (i - (from + 1)) 0)
        else (if i == from then f c else old))
      ≡ (if leb from i && ltb i (from + length (c ∷ ds))
          then f (get_or (c ∷ ds) (i - from) 0)
          else old)
shifted_char f c i from old ds = elim (Bool-cases (ltb from i)) [
  | inl e ↦ let later : i - from ≡ suc (i - (from + 1)) = ground arith in rw later (ground arith)
  | inr e ↦ let here : i - from ≡ 0 = ground arith in rw here (ground arith)
]

Drawn-cons :
    (d d1 d' : Display) (from c : ℕ) (cs : List ℕ)
    → Drawn d d1 from (c ∷ [])
    → Drawn d1 d' (from + 1) cs
    → Drawn d d' from (c ∷ cs)
Drawn-cons d d1 d' from c cs a b = record {
  within = Within-trans d d1 d' a.within b.within;
  same_row = b.same_row ∙ a.same_row;
  same_column = b.same_column ∙ a.same_column;
  same_color = b.same_color ∙ a.same_color;
  drawn = λ i lt.
      let f = λ (z : ℕ). make_vgaentry z d.display_color in
      let old = entry_at d.display_buffer i d.memory in
      let later =
        subst
          (λ z. entry_at z i d'.memory ≡ (
            if leb (from + 1) i && ltb i (from + 1 + length cs)
            then make_vgaentry (get_or cs (i - (from + 1)) 0) d1.display_color
            else entry_at z i d1.memory))
          a.within.same_buffer (b.drawn i lt) in
      later
      ∙ rw a.same_color
          (rw (a.drawn i lt) (rw (← one_char f c i from old) (shifted_char f c i from old cs)));
}

next_index : (a b : ℕ) → a + b + 1 ≡ a + (b + 1)
next_index a b = omega arith

show_digits-Drawn :
    (ds : List ℕ) (x y : ℕ) (d : Display)
    → Decimal ds
    → d.display_color < 256
    → x ≤ 80
    → y < 25
    → Drawn d (show_digits ds x y d) (y * 80 + x) ds
unfolding show_digits
show_digits-Drawn [] x y d dec lk lx ly = Drawn-nil d (y * 80 + x)
show_digits-Drawn (c ∷ cs) x y d dec lk lx ly = elim (Bool-cases (x == 80)) [
  | inl e ↦ rw e (elim (Bool-cases (y + 1 == 25)) [
    | inl f ↦ rw f (Drawn-outside d (y * 80 + x) (c ∷ cs) (ground arith))
    | inr f ↦
        let d1 = display_putentryat c d.display_color 0 (y + 1) d in
        let from : y * 80 + x ≡ (y + 1) * 80 + 0 = ground arith in
        let one = display_putentryat-Drawn d c 0 (y + 1) (omega arith) lk (ground arith) in
        let rest =
          show_digits-Drawn cs 1 (y + 1) d1 dec.2 (omega (arith, one.same_color)) (omega arith)
            (ground arith) in
        rw f (
          rw from
            (Drawn-cons d d1 _ ((y + 1) * 80 + 0) c cs one (rw (next_index ((y + 1) * 80) 0) rest)))
  ])
  | inr e ↦
      let d1 = display_putentryat c d.display_color x y d in
      let one = display_putentryat-Drawn d c x y (omega arith) lk (ground arith) in
      let rest =
        show_digits-Drawn cs (x + 1) y d1 dec.2 (omega (arith, one.same_color)) (ground arith) ly in
      rw e (Drawn-cons d d1 _ (y * 80 + x) c cs one (rw (next_index (y * 80) x) rest))
]

int_digits :
    (num : ℕ)
    → num < 2 ^ 31
    → (ds : List ℕ) × (number_digits int_rounds num ≡ some ds)
      × (number 10 0 ds ≡ num)
      × (length ds ≤ 10)
      × (0 < length ds)
      × Decimal ds
      × Leads ds
int_digits num lt = number_digits-number 10 num (omega arith) (omega arith)

-- the text of an int: its decimal digits without leading zeros, behind a '-' if it is negative
abbrev pub IntText : (num : ℕ) → List ℕ → Type 0
IntText num [] = true ≡ false
IntText num (c ∷ cs) =
    ((num < 2 ^ 31) × Decimal (c ∷ cs) × Leads (c ∷ cs) × (number 10 0 (c ∷ cs) ≡ num))
    ⊎ ((2 ^ 31 < num) × (c ≡ b'-') × Decimal cs × Leads cs × (number 10 0 cs ≡ 2 ^ 32 - num))

IntText-positive :
    (num : ℕ) (ds : List ℕ)
    → num < 2 ^ 31
    → Decimal ds
    → Leads ds
    → number 10 0 ds ≡ num
    → 0 < length ds
    → IntText num ds
IntText-positive num [] lt dec leads v pos = absurd (omega arith)
IntText-positive num (c ∷ cs) lt dec leads v pos = inl (lt, dec, leads, v)

-- arch_display_number, from a place on the screen on, draws the decimal text of an int, in the next row
-- where the row ends and as far as the screen goes, leaves the cursor where it is, and changes no byte
-- outside the screen: for every int but the least one, which has no negation. The buffer of ten
-- characters is large enough.
pub arch_display_number-Drawn :
    (num x y : ℕ) (d : Display)
    → num < 2 ^ 32
    → num ≢ 2 ^ 31
    → x < 80
    → y < 25
    → d.display_color < 256
    → (ds : List ℕ) × (d' : Display) × (arch_display_number num x y d ≡ some d')
      × IntText num ds
      × (length ds ≤ 11)
      × Drawn d d' (y * 80 + x) ds
unfolding arch_display_number
arch_display_number-Drawn num x y d lt ne lx ly lk =
    let left : leb 80 x ≡ false = ground arith in
    let above : leb 25 y ≡ false = ground arith in
    let fine : (num == 2 ^ 31) ≡ false = ground arith in
    elim (Bool-cases (ltb (2 ^ 31) num)) [
      | inl e ↦
          let signed = display_putentryat b'-' d.display_color x y d in
          let (ds, run, v, l, pos, dec, leads) = int_digits (2 ^ 32 - num) (ground arith) in
          let one = display_putentryat-Drawn d b'-' x y (omega arith) lk (omega arith) in
          let rest =
            show_digits-Drawn ds (x + 1) y signed dec (omega (arith, one.same_color)) (omega arith)
              ly in
          (
            b'-' ∷ ds,
            show_digits ds (x + 1) y signed,
            rw left (rw above (rw fine (rw e (rw run refl)))),
            inr (ground arith, refl, dec, leads, v),
            omega (arith, l),
            Drawn-cons d signed _ (y * 80 + x) b'-' ds one (rw (next_index (y * 80) x) rest),
          )
      | inr e ↦
          let (ds, run, v, l, pos, dec, leads) = int_digits num (ground arith) in
          (
            ds,
            show_digits ds x y d,
            rw left (rw above (rw fine (rw e (rw run refl)))),
            IntText-positive num ds (ground arith) dec leads v pos,
            omega (arith, l),
            show_digits-Drawn ds x y d dec lk (omega arith) ly,
          )
    ]
