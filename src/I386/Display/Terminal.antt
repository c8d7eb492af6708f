-- ===== src/I386/Display/Terminal.antt =====
-- A terminal of 25 rows and 80 columns, without the memory that holds it, and the display against it.
pub mod Follow
use elco_os.Base.{
  ℕ, zero, suc, ◌+◌, ◌-◌, ◌*◌, ◌/◌, ◌%◌, ◌^◌, ◌≡◌, ◌≢◌, ◌≤◌, ◌<◌, refl, sym, ap, ◌∙◌, Bool, true,
  false, ◌&&◌, List, [], ◌∷◌, arith, if◌then◌else◌, ◌==◌, ltb, leb, upd,
}
use elco_os.Kstring.Memory.{Bytes}
use elco_os.I386.Display.{Display, make_vgaentry, arch_display_putc}
use elco_os.I386.Display.Cells.{entry_at, KeepsRest, KeepsRest-trans}

pub record Terminal : Type 0 where
  pub row : ℕ
  pub column : ℕ
  pub color : ℕ
  pub cells : (y x : ℕ) → ℕ

-- the cursor is on the screen, and the color is a byte
pub record OnScreen (t : Terminal) : Type 0 where
  pub row_in : t.row < 25
  pub column_in : t.column < 80
  pub color_in : t.color < 256

abbrev pub put_cell : (y x v : ℕ) → (ℕ → ℕ → ℕ) → ℕ → ℕ → ℕ
put_cell y x v g y' x' = if (y' == y) && (x' == x) then v else g y' x'

abbrev pub blank : Terminal → ℕ
blank t = make_vgaentry b' ' t.color

-- what a character does, before the cursor is brought back to the screen
abbrev pub strike : (c : ℕ) → Terminal → Terminal
strike c t =
    let back = t.column - 1 in
    if c == 10
    then record t { row = t.row + 1; column = 0 }
    else if c == 13
    then record t { column = 0 }
    else if c == 8
    then record t { column = back; cells = put_cell t.row back (blank t) t.cells }
    else if c == 9
    then record t { column = (t.column / 4 + 1) * 4 }
    else record t {
      column = t.column + 1;
      cells = put_cell t.row t.column (make_vgaentry c t.color) t.cells;
    }

-- behind the last column the next row begins
abbrev pub wrap : Terminal → Terminal
wrap t = if leb 80 t.column then record t { row = t.row + 1; column = t.column - 80 } else t

-- behind the last row every row moves up, and the last one is blank
abbrev pub roll : Terminal → Terminal
roll t =
    if leb 25 t.row
    then record t { row = 24; cells = λ y x. if y == 24 then blank t else t.cells (y + 1) x }
    else t

abbrev pub type_char : (c : ℕ) → Terminal → Terminal
type_char c t = roll (wrap (strike c t))

abbrev pub type_text : List ℕ → Terminal → Terminal
type_text [] t = t
type_text (c ∷ cs) t = type_text cs (type_char c t)

-- the display shows the terminal
pub record Shows (d : Display) (t : Terminal) : Type 0 where
  pub initialized : d.display_initialized ≡ true
  pub row_is : d.display_row ≡ t.row
  pub column_is : d.display_column ≡ t.column
  pub color_is : d.display_color ≡ t.color
  pub cell :
      (y x : ℕ) → y < 25 → x < 80 → entry_at d.display_buffer (y * 80 + x) d.memory ≡ t.cells y x

-- from `d` to `d'`, nothing outside the screen changed
pub record Within (d d' : Display) : Type 0 where
  pub same_buffer : d'.display_buffer ≡ d.display_buffer
  pub rest : KeepsRest d.display_buffer d.memory d'.memory

pub Within-trans : (d d1 d2 : Display) → Within d d1 → Within d1 d2 → Within d d2
Within-trans d d1 d2 v w = record {
  same_buffer = w.same_buffer ∙ v.same_buffer;
  rest = λ a out. w.rest a (rw v.same_buffer out) ∙ v.rest a out;
}

-- `d'` shows `t'`, and only the screen changed since `d`
abbrev pub Follows : (d d' : Display) (t' : Terminal) → Type 0
Follows d d' t' = Shows d' t' × Within d d'
