-- ===== src/I386/Display.antt =====
-- system/kernel/i386/display.c: the text display of 80 columns and 25 rows. An entry is two bytes of
-- memory at display_buffer, the low one first. A char is a byte, negative from 128 on.
pub mod Cells
pub mod Terminal
pub mod Console
pub mod Number
use Prim.Native.Nat.{bit_or}
use elco_os.Base.{
  ℕ, zero, suc, ◌+◌, ◌-◌, ◌*◌, ◌/◌, ◌%◌, ◌^◌, Bool, true, false, Option, none, some, ◌>>=◌, List,
  [], ◌∷◌, ◌++◌, if◌then◌else◌, ◌==◌, ltb, leb, upd,
}
use elco_os.Kstring.Memory.{Bytes, kmemmove}

abbrev pub vga_width : ℕ
vga_width = 80

abbrev pub vga_height : ℕ
vga_height = 25

abbrev pub vga_memory_vaddr : ℕ
vga_memory_vaddr = 0xC00B8000

-- the static variables, and the memory
pub record Display : Type 0 where
  pub display_row : ℕ
  pub display_column : ℕ
  pub display_color : ℕ
  pub display_buffer : ℕ
  pub display_initialized : Bool
  pub memory : Bytes

unfoldable pub make_color : (fg bg : ℕ) → ℕ
make_color fg bg = bit_or fg (bg * 2 ^ 4) % 2 ^ 8

-- `(uint16_t) c` of a negative char sets the upper byte, whatever the color.
unfoldable pub make_vgaentry : (c color : ℕ) → ℕ
make_vgaentry c color = if ltb c 128 then c + color * 2 ^ 8 else c + 0xff * 2 ^ 8

-- display_buffer[index] = entry
unfoldable pub store_entry : (buffer index entry : ℕ) → Bytes → Bytes
store_entry buffer index entry m =
    upd (upd m (buffer + 2 * index) (entry % 2 ^ 8)) (buffer + 2 * index + 1) (entry / 2 ^ 8)

unfoldable pub display_putentryat : (c color x y : ℕ) → Display → Display
display_putentryat c color x y d =
    let index = (y * vga_width + x) % 2 ^ 32 in
    record d { memory = store_entry d.display_buffer index (make_vgaentry c color) d.memory }

-- the loop over x: `n` entries from `index` on
unfoldable pub fill_entries : (n buffer index entry : ℕ) → Bytes → Bytes
fill_entries zero buffer index entry m = m
fill_entries (suc n) buffer index entry m =
    fill_entries n buffer (index + 1) entry (store_entry buffer index entry m)

-- the loop over y: `n` rows from `y` on
unfoldable pub fill_rows : (n buffer y entry : ℕ) → Bytes → Bytes
fill_rows zero buffer y entry m = m
fill_rows (suc n) buffer y entry m =
    fill_rows n buffer (y + 1) entry (fill_entries vga_width buffer (y * vga_width) entry m)

-- COLOR_LIGHT_GREY on COLOR_BLACK
abbrev pub first_color : ℕ
first_color = make_color 7 0

unfoldable pub arch_init_display : Display → Display
arch_init_display d = record {
  display_row = 0;
  display_column = 0;
  display_color = first_color;
  display_buffer = vga_memory_vaddr;
  display_initialized = true;
  memory = fill_rows vga_height vga_memory_vaddr 0 (make_vgaentry b' ' first_color) d.memory;
}

unfoldable pub arch_display_setcolor : (fg bg : ℕ) → Display → Display
arch_display_setcolor fg bg d = record d { display_color = make_color fg bg }

-- the lines of display_scroll behind the test: the rows move up, and the last one is blank
unfoldable pub scroll_up : Display → Display
scroll_up d =
    let m =
      kmemmove d.memory d.display_buffer (d.display_buffer + 2 * vga_width)
        ((vga_height - 1) * vga_width * 2) in
    record d {
      memory =
          fill_entries vga_width d.display_buffer ((vga_height - 1) * vga_width)
            (make_vgaentry b' ' d.display_color) m;
    }

unfoldable pub display_scroll : (force : Bool) → Display → Display
display_scroll force d =
    let forced = scroll_up (record d { display_row = (d.display_row + 2 ^ 32 - 1) % 2 ^ 32 }) in
    let needed = scroll_up (record d { display_row = vga_height - 1 }) in
    if ltb d.display_row vga_height then (if force then forced else d) else needed

-- the switch
unfoldable pub put_char : (c : ℕ) → Display → Display
put_char c d =
    let back =
      if d.display_column == 0 then d else record d { display_column = d.display_column - 1 } in
    let shown = display_putentryat c d.display_color d.display_column d.display_row d in
    if c == 10
    then record d { display_column = 0; display_row = (d.display_row + 1) % 2 ^ 32 }
    else if c == 13
    then record d { display_column = 0 }
    else if c == 8
    then display_putentryat b' ' back.display_color back.display_column back.display_row back
    else if c == 9
    then record d { display_column = (d.display_column / 2 ^ 2 + 1) * 2 ^ 2 % 2 ^ 32 }
    else record shown { display_column = (d.display_column + 1) % 2 ^ 32 }

-- `if (display_column >= VGA_WIDTH)`
unfoldable pub wrap_column : Display → Display
wrap_column d =
    if leb vga_width d.display_column
    then record d {
      display_column = d.display_column - vga_width;
      display_row = (d.display_row + 1) % 2 ^ 32;
    }
    else d

unfoldable pub arch_display_putc : (c : ℕ) → Display → Display
arch_display_putc c d =
    let d' = display_scroll false (wrap_column (put_char c d)) in
    if d.display_initialized then d' else d

-- the digits of arch_display_number, the first one first
unfoldable pub number_digits : ℕ → (num : ℕ) → Option (List ℕ)
number_digits zero num = none
number_digits (suc fuel) num =
    let rest = number_digits fuel (num / 10) in
    let digit = b'0' + num % 10 in
    if num / 10 == 0 then some (digit ∷ []) else (rest >>= λ ds. some (ds ++ digit ∷ []))

-- the last loop of arch_display_number
unfoldable pub show_digits : List ℕ → (x y : ℕ) → Display → Display
show_digits [] x y d = d
show_digits (c ∷ cs) x y d =
    let here = show_digits cs (x + 1) y (display_putentryat c d.display_color x y d) in
    let below = show_digits cs 1 (y + 1) (display_putentryat c d.display_color 0 (y + 1) d) in
    if x == vga_width then (if y + 1 == vga_height then d else below) else here

-- an int has at most ten digits
abbrev pub int_rounds : ℕ
int_rounds = 10

-- `num` is the pattern of an int; the least one has no negation, which gives `none`
unfoldable pub arch_display_number : (num x y : ℕ) → Display → Option Display
arch_display_number num x y d =
    let signed = display_putentryat b'-' d.display_color x y d in
    let positive = number_digits int_rounds num >>= λ ds. some (show_digits ds x y d) in
    let negated =
      number_digits int_rounds (2 ^ 32 - num) >>= λ ds. some (show_digits ds (x + 1) y signed) in
    if leb vga_width x
    then some d
    else if leb vga_height y
    then some d
    else if num == 2 ^ 31
    then none
    else if ltb (2 ^ 31) num
    then negated
    else positive
