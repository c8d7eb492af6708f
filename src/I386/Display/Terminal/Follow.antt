-- ===== src/I386/Display/Terminal/Follow.antt =====
-- arch_display_putc follows the terminal.
use mathlib.Core.Path.{subst}
use elco_os.Base.{
  ℕ, ◌+◌, ◌-◌, ◌*◌, ◌/◌, ◌%◌, ◌^◌, ◌≡◌, ◌≤◌, ◌<◌, inl, inr, refl, sym, ap, ◌∙◌, Bool, true, false,
  ◌&&◌, arith, if◌then◌else◌, ◌==◌, ltb, leb, Bool-cases, eq-cases,
}
use elco_os.I386.Display.{
  Display, make_vgaentry, display_putentryat, put_char, wrap_column, display_scroll, scroll_up,
  arch_display_putc,
}
use elco_os.I386.Display.Cells.{
  entry_at, store_entry-entry_at, store_entry-KeepsRest, make_vgaentry-bound, scroll_up-entry_at,
  scroll_up-KeepsRest,
}
use elco_os.I386.Display.Terminal.{
  Terminal, OnScreen, put_cell, blank, strike, wrap, roll, type_char, Shows, Within, Within-trans,
  Follows,
}

same_index :
    (y x y' x' : ℕ) → x < 80 → x' < 80 → (y' * 80 + x' == y * 80 + x) ≡ ((y' == y) && (x' == x))
same_index y x y' x' l l' = ground arith

display_putentryat-Follows :
    (d : Display) (t : Terminal) (c x y : ℕ)
    → Shows d t
    → c < 256
    → t.color < 256
    → x < 80
    → y < 25
    → Follows d
        (display_putentryat c d.display_color x y d)
        (record t { cells = put_cell y x (make_vgaentry c t.color) t.cells })
unfolding display_putentryat
display_putentryat-Follows d t c x y s lc lk lx ly =
    let index : (y * 80 + x) % 2 ^ 32 ≡ y * 80 + x = omega arith in
    let v = make_vgaentry c d.display_color in
    let v_lt : v < 2 ^ 16 = make_vgaentry-bound c d.display_color lc (omega (arith, s.color_is)) in
    (
      record {
        initialized = s.initialized;
        row_is = s.row_is;
        column_is = s.column_is;
        color_is = s.color_is;
        cell = λ y' x' l l'. rw index (
            store_entry-entry_at d.display_buffer (y * 80 + x) v (y' * 80 + x') d.memory v_lt
            ∙ rw (same_index y x y' x' lx l') (rw (s.cell y' x' l l') (rw s.color_is refl)));
      },
      record {
        same_buffer = refl;
        rest =
            rw index (store_entry-KeepsRest d.display_buffer (y * 80 + x) v d.memory (omega arith));
      },
    )

Within-refl : (d : Display) → Within d d
Within-refl d = record { same_buffer = refl; rest = λ a out. refl }

-- the cursor moves, and no cell changes
move-Follows :
    (d : Display) (t : Terminal) (r k r' k' : ℕ)
    → Shows d t
    → r ≡ r'
    → k ≡ k'
    → Follows d
        (record d { display_row = r; display_column = k })
        (record t { row = r'; column = k' })
move-Follows d t r k r' k' s er ek = (
  record {
    initialized = s.initialized;
    row_is = er;
    column_is = ek;
    color_is = s.color_is;
    cell = s.cell;
  },
  record { same_buffer = refl; rest = λ a out. refl },
)

Follows-trans :
    (d d1 d2 : Display) (t1 t2 : Terminal) → Follows d d1 t1 → Follows d1 d2 t2 → Follows d d2 t2
Follows-trans d d1 d2 t1 t2 (s, w) (s', w') = (s', Within-trans d d1 d2 w w')

-- the cursor after a backspace
back-Follows :
    (d : Display) (t : Terminal)
    → Shows d t
    → Follows d
        (if d.display_column == 0 then d else record d { display_column = d.display_column - 1 })
        (record t { column = t.column - 1 })
back-Follows d t s = elim (Bool-cases (d.display_column == 0)) [
  | inl e ↦ rw e (
      move-Follows d t d.display_row d.display_column t.row (t.column - 1) s s.row_is
        (ground (arith, s.column_is)))
  | inr e ↦ rw e (
      move-Follows d t d.display_row (d.display_column - 1) t.row (t.column - 1) s s.row_is
        (omega (arith, s.column_is)))
]

-- a character under the cursor
put_here-Follows :
    (d : Display) (t : Terminal) (c : ℕ)
    → Shows d t
    → OnScreen t
    → c < 256
    → Follows d
        (display_putentryat c d.display_color d.display_column d.display_row d)
        (record t { cells = put_cell t.row t.column (make_vgaentry c t.color) t.cells })
put_here-Follows d t c s on lc =
    let v = make_vgaentry c t.color in
    let d' = display_putentryat c d.display_color d.display_column d.display_row d in
    subst (λ x. Follows d d' (record t { cells = put_cell t.row x v t.cells })) s.column_is
      (subst (λ y. Follows d d' (record t { cells = put_cell y d.display_column v t.cells }))
        s.row_is
        (display_putentryat-Follows d t c d.display_column d.display_row s lc on.color_in
          (omega (arith, s.column_is, on.column_in)) (omega (arith, s.row_is, on.row_in))))

-- where strike leaves the cursor
strike_bounds :
    (c : ℕ) (t : Terminal)
    → OnScreen t
    → ((strike c t).row ≤ 25)
      × ((strike c t).column ≤ 80)
      × ((strike c t).color ≡ t.color)
      × (((strike c t).row ≡ 25) → (strike c t).column ≡ 0)
strike_bounds c t on = ground (arith, on.row_in, on.column_in)

put_char-Follows :
    (d : Display) (t : Terminal) (c : ℕ)
    → Shows d t
    → OnScreen t
    → c < 256
    → Follows d (put_char c d) (strike c t)
unfolding put_char
put_char-Follows d t c s on lc = elim (Bool-cases (c == 10)) [
  | inl e ↦ rw e (
      move-Follows d t ((d.display_row + 1) % 2 ^ 32) 0 (t.row + 1) 0 s
        (omega (arith, s.row_is, on.row_in)) refl)
  | inr e ↦ rw e (elim (Bool-cases (c == 13)) [
    | inl f ↦ rw f (move-Follows d t d.display_row 0 t.row 0 s s.row_is refl)
    | inr f ↦ rw f (elim (Bool-cases (c == 8)) [
      | inl g ↦ rw g (
          let back =
            if d.display_column == 0
            then d
            else record d { display_column = d.display_column - 1 } in
          let t1 = record t { column = t.column - 1 } in
          let on1 : OnScreen t1 = record {
            row_in = on.row_in;
            column_in = omega (arith, on.column_in);
            color_in = on.color_in;
          } in
          let b = back-Follows d t s in
          Follows-trans d back _ t1 _ b (put_here-Follows back t1 b' ' b.0 on1 (omega arith)))
      | inr g ↦ rw g (elim (Bool-cases (c == 9)) [
        | inl h ↦ rw h (
            move-Follows d t d.display_row ((d.display_column / 2 ^ 2 + 1) * 2 ^ 2 % 2 ^ 32) t.row
              ((t.column / 4 + 1) * 4) s s.row_is (omega (arith, s.column_is, on.column_in)))
        | inr h ↦ rw h (
            let shown = display_putentryat c d.display_color d.display_column d.display_row d in
            let t1 = record t {
              cells = put_cell t.row t.column (make_vgaentry c t.color) t.cells;
            } in
            let p = put_here-Follows d t c s on lc in
            Follows-trans d shown _ t1 _ p (
              move-Follows shown t1 shown.display_row ((d.display_column + 1) % 2 ^ 32) t.row
                (t.column + 1) p.0 p.0.row_is (omega (arith, s.column_is, on.column_in))))
      ])
    ])
  ])
]

wrap_column-Follows :
    (d : Display) (t : Terminal) → Shows d t → t.row ≤ 25 → Follows d (wrap_column d) (wrap t)
unfolding wrap_column
wrap_column-Follows d t s lr = elim (Bool-cases (leb 80 t.column)) [
  | inl e ↦
      let full : leb 80 d.display_column ≡ true = rw s.column_is e in
      rw e (
        rw full (
          move-Follows d t ((d.display_row + 1) % 2 ^ 32) (d.display_column - 80) (t.row + 1)
            (t.column - 80) s (omega (arith, s.row_is)) (omega (arith, s.column_is))))
  | inr e ↦
      let room : leb 80 d.display_column ≡ false = rw s.column_is e in
      rw e (rw room (s, Within-refl d))
]

-- a row after scroll_up is the row below it, or the blank one
rolled_cell :
    (d : Display) (t : Terminal) (y x : ℕ)
    → Shows d t
    → t.color < 256
    → y < 25
    → x < 80
    → entry_at d.display_buffer (y * 80 + x) (scroll_up d).memory
      ≡ (if y == 24 then blank t else t.cells (y + 1) x)
rolled_cell d t y x s lk ly lx =
    scroll_up-entry_at d (y * 80 + x) (omega (arith, s.color_is)) (omega arith)
    ∙ elim (eq-cases y 24) [
      | inl e ↦
          let last : ltb (y * 80 + x) (24 * 80) ≡ false = ground arith in
          rw last (rw e (ap (make_vgaentry b' ') s.color_is))
      | inr e ↦
          let upper : ltb (y * 80 + x) (24 * 80) ≡ true = ground arith in
          rw upper (
            rw e (
              ap (λ i. entry_at d.display_buffer i d.memory) {x = y * 80 + x + 80}
                {y = (y + 1) * 80 + x} (omega arith)
              ∙ s.cell (y + 1) x (ground arith) lx))
    ]

-- the rows after scroll_up, and what did not change
scroll_up-Follows :
    (d : Display) (t : Terminal)
    → Shows d t
    → t.color < 256
    → Follows d
        (scroll_up (record d { display_row = 24 }))
        (record t { row = 24; cells = λ y x. if y == 24 then blank t else t.cells (y + 1) x })
unfolding scroll_up
scroll_up-Follows d t s lk =
    let d1 = record d { display_row = 24 } in
    let s1 : Shows d1 (record t { row = 24 }) =
      (move-Follows d t 24 d.display_column 24 t.column s refl s.column_is).0 in
    (
      record {
        initialized = s.initialized;
        row_is = refl;
        column_is = s.column_is;
        color_is = s.color_is;
        cell = λ y x ly lx. rolled_cell d1 (record t { row = 24 }) y x s1 lk ly lx;
      },
      record { same_buffer = refl; rest = scroll_up-KeepsRest d1 },
    )

display_scroll-Follows :
    (d : Display) (t : Terminal)
    → Shows d t
    → t.color < 256
    → Follows d (display_scroll false d) (roll t)
unfolding display_scroll
display_scroll-Follows d t s lk = elim (Bool-cases (leb 25 t.row)) [
  | inl e ↦
      let below : ltb d.display_row 25 ≡ false = ground (arith, s.row_is) in
      rw e (rw below (scroll_up-Follows d t s lk))
  | inr e ↦
      let above : ltb d.display_row 25 ≡ true = ground (arith, s.row_is) in
      rw e (rw above (s, Within-refl d))
]

-- the bounds of the three steps
wrap_bounds :
    (u : Terminal)
    → u.row ≤ 25
    → u.column ≤ 80
    → (u.row ≡ 25 → u.column ≡ 0)
    → ((wrap u).row ≤ 25) × ((wrap u).column < 80) × ((wrap u).color ≡ u.color)
wrap_bounds u lr lc edge = ground (arith, edge)

roll-OnScreen : (u : Terminal) → u.row ≤ 25 → u.column < 80 → u.color < 256 → OnScreen (roll u)
roll-OnScreen u lr lc lk = elim (Bool-cases (leb 25 u.row)) [
  | inl e ↦ rw e (record { row_in = omega arith; column_in = lc; color_in = lk })
  | inr e ↦ rw e (record { row_in = ground arith; column_in = lc; color_in = lk })
]

type_char-OnScreen : (c : ℕ) (t : Terminal) → OnScreen t → OnScreen (type_char c t)
type_char-OnScreen c t on =
    let (lr, lc, k, edge) = strike_bounds c t on in
    let (wr, wc, wk) = wrap_bounds (strike c t) lr lc edge in
    roll-OnScreen (wrap (strike c t)) wr wc (subst (λ z. z < 256) (sym (wk ∙ k)) on.color_in)

if-true : (b : Bool) (d d' : Display) → b ≡ true → (if b then d else d') ≡ d
if-true b d d' e = rw e refl

running :
    (d : Display) (c : ℕ)
    → d.display_initialized ≡ true
    → arch_display_putc c d ≡ display_scroll false (wrap_column (put_char c d))
unfolding arch_display_putc
running d c e =
    if-true d.display_initialized (display_scroll false (wrap_column (put_char c d))) d e

-- arch_display_putc does to the display what type_char does to the terminal: newline, return, backspace
-- and tab move the cursor, every other char is shown, long rows go on below, and behind the last row
-- the screen moves up. The cursor stays on the screen, and no byte outside the screen changes. The
-- display is initialised, with the cursor on the screen.
pub arch_display_putc-Follows :
    (d : Display) (t : Terminal) (c : ℕ)
    → Shows d t
    → OnScreen t
    → c < 256
    → Follows d (arch_display_putc c d) (type_char c t) × OnScreen (type_char c t)
arch_display_putc-Follows d t c s on lc =
    let (lr, lcol, k, edge) = strike_bounds c t on in
    let (wr, wc, wk) = wrap_bounds (strike c t) lr lcol edge in
    let lk = subst (λ z. z < 256) (sym (wk ∙ k)) on.color_in in
    let p = put_char-Follows d t c s on lc in
    let w = wrap_column-Follows (put_char c d) (strike c t) p.0 lr in
    let r = display_scroll-Follows (wrap_column (put_char c d)) (wrap (strike c t)) w.0 lk in
    rw (running d c s.initialized) (
      Follows-trans d (put_char c d) _ (strike c t) _ p
          (Follows-trans (put_char c d) (wrap_column (put_char c d)) _ (wrap (strike c t)) _ w r),
      type_char-OnScreen c t on,
    )
