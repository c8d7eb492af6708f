-- ===== src/I386/Display/Console.antt =====
-- The display from its start on, and as the place where kprintf prints: kputchar
-- (lib/libk/src/kstdio/kputchar.c) hands each char to arch_display_putc, its callback.
use elco_os.Base.{ℕ, ◌+◌, ◌*◌, ◌%◌, ◌^◌, ◌≡◌, ◌<◌, refl, ◌∙◌, some, List, [], ◌∷◌, arith, length}
use elco_os.Kstring.Memory.{Bytes}
use elco_os.Kstdio.{Printed, kprintf}
use elco_os.Kstdio.Expand.{Argument, Holds, Passed}
use elco_os.Kstdio.Expand.Meaning.{Expands, Fits}
use elco_os.Kstdio.Expand.Chars.{Chars, StringChars, Expands-Chars}
use elco_os.Kstdio.Expand.Loop.{kprintf-Expands}
use elco_os.I386.Display.{
  Display, make_vgaentry, first_color, vga_memory_vaddr, arch_init_display, arch_display_putc,
}
use elco_os.I386.Display.Cells.{
  KeepsRest, fill_rows-entry_at, fill_rows-KeepsRest, make_vgaentry-bound, make_color-bound,
}
use elco_os.I386.Display.Terminal.{
  Terminal, OnScreen, type_char, type_text, Shows, Within-trans, Follows,
}
use elco_os.I386.Display.Terminal.Follow.{arch_display_putc-Follows}

-- what kputchar does with the chars that are printed
unfoldable pub put_text : List ℕ → Display → Display
put_text [] d = d
put_text (c ∷ cs) d = put_text cs (arch_display_putc (c % 2 ^ 8) d)

-- the screen at the start
abbrev pub fresh : Terminal
fresh = record {
  row = 0;
  column = 0;
  color = first_color;
  cells = λ y x. make_vgaentry b' ' first_color;
}

-- arch_init_display shows a blank screen with the cursor in its corner, whatever the memory held, and
-- no byte outside the screen changes.
pub arch_init_display-Shows :
    (d : Display)
    → Shows (arch_init_display d) fresh
      × OnScreen fresh
      × KeepsRest vga_memory_vaddr d.memory (arch_init_display d).memory
unfolding arch_init_display
arch_init_display-Shows d =
    let v_lt = make_vgaentry-bound b' ' first_color (omega arith) (make_color-bound 7 0) in
    (
      record {
        initialized = refl;
        row_is = refl;
        column_is = refl;
        color_is = refl;
        cell = λ y x ly lx.
            fill_rows-entry_at 25 vga_memory_vaddr 0 (make_vgaentry b' ' first_color) (y * 80 + x)
              d.memory v_lt
            ∙ ground arith;
      },
      record { row_in = omega arith; column_in = omega arith; color_in = make_color-bound 7 0 },
      fill_rows-KeepsRest 25 vga_memory_vaddr 0 (make_vgaentry b' ' first_color) d.memory
          (omega arith),
    )

pub put_text-Follows :
    (cs : List ℕ) (d : Display) (t : Terminal)
    → Shows d t
    → OnScreen t
    → Chars cs
    → Follows d (put_text cs d) (type_text cs t) × OnScreen (type_text cs t)
unfolding put_text
put_text-Follows [] d t s on b = ((s, record { same_buffer = refl; rest = λ a out. refl }), on)
put_text-Follows (c ∷ cs) d t s on (lc, b) =
    let byte : c % 2 ^ 8 ≡ c = omega arith in
    let (f, on1) = arch_display_putc-Follows d t c s on lc in
    let (g, on2) = put_text-Follows cs (arch_display_putc c d) (type_char c t) f.0 on1 b in
    rw byte ((g.0, Within-trans d (arch_display_putc c d) _ f.1 g.1), on2)

-- A kprintf on an initialised display types, on the terminal that is shown, a text that its format
-- stands for with its arguments by the rules of `Expands`, and changes no byte outside the screen; the
-- cursor stays on the screen. The cursor is on the screen before, each conversion of the format has an
-- argument of its kind, the format and the strings consist of bytes, and they have fewer than `limit`
-- characters.
pub kprintf-Terminal :
    (limit : ℕ) (m : Bytes) (format : ℕ) (words : List ℕ) (args : List Argument) (cs : List ℕ)
    (d : Display) (t : Terminal)
    → Holds m format cs
    → Passed limit m words args
    → length cs < limit
    → Fits cs args
    → Chars cs
    → StringChars args
    → Shows d t
    → OnScreen t
    → (u : List ℕ) × (r : Printed) × (kprintf limit m format words ≡ some r)
      × Expands cs args u
      × Follows d (put_text r.out d) (type_text u t)
      × OnScreen (type_text u t)
kprintf-Terminal limit m format words args cs d t h p lt fits b a s on =
    let (u, run, rules) = kprintf-Expands limit m format words args cs h p lt fits in
    let (f, on1) = put_text-Follows u d t s on (Expands-Chars rules b a) in
    (u, record { out = u; written = length u % 2 ^ 32 }, run, rules, f, on1)
