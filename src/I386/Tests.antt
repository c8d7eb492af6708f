-- ===== src/I386/Tests.antt =====
-- The theorems on the display, the tables and the interrupts at an empty memory, with controllers that
-- hold what is written to them.
use elco_os.Base.{
  inl, inr, ℕ, ◌+◌, ◌*◌, ◌%◌, ◌≡◌, ◌≤◌, ◌<◌, refl, true, some, List, [], ◌∷◌, length, arith,
  if◌then◌else◌, ◌==◌,
}
use elco_os.Kstring.Memory.{Bytes}
use elco_os.Kstdio.{Printed, kprintf}
use elco_os.Kstdio.Expand.{word}
use elco_os.Kstdio.Expand.Meaning.{Expands}
use elco_os.I386.Descriptors.{GdtEntry, IdtEntry, TablePointer, Tables, Addresses, arch_init_tables}
use elco_os.I386.Descriptors.Encode.{gdt_bytes, idt_bytes, Segment}
use elco_os.I386.Descriptors.Init.{
  Linked, Vectors, vector_stub, Flat, segment_bytes, arch_init_tables-Vectors,
  arch_init_tables-Flat,
}
use elco_os.I386.Pic.{PortLog, pic_init, pic_clear_mask}
use elco_os.I386.Pic.Masks.{Latch, Started, masked, pic_init-masked}
use elco_os.I386.Interrupts.{Interrupts, irq_set_handler, irq_handler, arch_timer_init}
use elco_os.I386.Interrupts.Lines.{
  serve, Programmed, irq_set_handler-irq_handler, arch_timer_init-Programmed,
}
use elco_os.I386.Display.{Display, arch_display_putc, arch_display_number}
use elco_os.I386.Display.Terminal.{Terminal, OnScreen, type_char, type_text, Shows, Follows}
use elco_os.I386.Display.Terminal.Follow.{arch_display_putc-Follows}
use elco_os.I386.Display.Console.{put_text, kprintf-Terminal}
use elco_os.I386.Display.Number.{IntText, Drawn, arch_display_number-Drawn}

abbrev no_entry : GdtEntry
no_entry = record {
  limit_low = 0;
  base_low = 0;
  base_mid = 0;
  access = 0;
  limit_hight = 0;
  flags = 0;
  base_high = 0;
}

abbrev no_vector : IdtEntry
no_vector = record { offset_low = 0; selector = 0; zeroed = 0; type_atr = 0; offset_high = 0 }

abbrev no_table : TablePointer
no_table = record { last_byte = 0; start = 0 }

abbrev tables : Tables
tables = record {
  gdt = λ i. no_entry;
  idt = λ i. no_vector;
  gdt_p = no_table;
  idt_p = no_table;
  tss_ss0 = 0;
  tss_esp0 = 0;
}

abbrev kernel_addresses : Addresses
kernel_addresses = record {
  gdt_at = 0xC0200000;
  idt_at = 0xC0201000;
  tss_at = 0xC0202000;
  isr = λ i. 0xC0100000 + i % 32;
  irq = λ i. 0xC0101000 + i % 16;
  kernel_call = 0xC0102000;
}

kernel_addresses-Linked : Linked kernel_addresses
kernel_addresses-Linked = record {
  isr_at = λ i. omega arith;
  irq_at = λ i. omega arith;
  call_at = omega arith;
  tss_in = omega arith;
}

arch_init_tables-Vectors_example :
    Vectors
      (vector_stub kernel_addresses 33)
      (idt_bytes ((arch_init_tables kernel_addresses tables).idt 33))
arch_init_tables-Vectors_example =
    arch_init_tables-Vectors kernel_addresses tables 33 kernel_addresses-Linked (omega arith)

arch_init_tables-Flat_example :
    let g = (arch_init_tables kernel_addresses tables).gdt in
    Flat 0x9A (gdt_bytes (g 1))
    × Flat 0x92 (gdt_bytes (g 2))
    × Flat 0xFA (gdt_bytes (g 3))
    × Flat 0xF2 (gdt_bytes (g 4))
    × Segment 0xC0202000 104 0x89 0x8 (gdt_bytes (g 5))
    × (segment_bytes (gdt_bytes (g 5)) ≡ 105 * 4096)
arch_init_tables-Flat_example =
    arch_init_tables-Flat kernel_addresses tables kernel_addresses-Linked

-- a device whose ports hold the last byte that was written to them
abbrev held : PortLog → ℕ → ℕ
held [] p = 0
held (w ∷ log) p = if w.port == p then w.byte % 256 else held log p

byte_twice : (n : ℕ) → n < 256 → n % 256 ≡ n
byte_twice n lt = omega arith

held_bound : (log : PortLog) (q : ℕ) → held log q < 256
held_bound [] q = omega arith
held_bound (w ∷ log) q = ground (arith, held_bound log q)

held-Latch : Latch held
held-Latch = record {
  is_byte = held_bound;
  holds = λ p d q log st a b lt. ground (arith, byte_twice d lt, a, b);
  eoi_keeps = λ p d q log st a b. ground (arith, a, b);
  timer_keeps = λ p d q log st a lo hi. ground (arith, a);
}

abbrev interrupts : Interrupts
interrupts = record { exception_handlers = λ i. 0; irq_handlers = λ i. 0; ports = pic_init [] }

abbrev does_nothing : ℕ → Interrupts → Interrupts
does_nothing h s = s

interrupts-Started : Started (pic_init [])
interrupts-Started = (pic_init-masked held 0 [] held-Latch (omega arith)).1

irq_set_handler-irq_handler_example :
    (s' : Interrupts) × (irq_set_handler held 1 77 interrupts ≡ some s')
    × (irq_handler does_nothing 1 s' ≡ serve does_nothing 77 1 s')
    × (masked held s'.ports 1 ≡ 0)
    × Started s'.ports
irq_set_handler-irq_handler_example =
    irq_set_handler-irq_handler does_nothing held 1 77 1 interrupts held-Latch interrupts-Started
      (omega arith) (omega arith)

arch_timer_init-Programmed_example :
    (s' : Interrupts) × (divisor : ℕ) × (ports : PortLog) × (arch_timer_init held 1000 99 interrupts
      ≡ some s')
    × Programmed divisor (pic_init []) ports
    × (s'.ports ≡ pic_clear_mask held 0 ports)
    × (divisor * 1000 ≤ 1193180)
    × (1193180 < (divisor + 1) * 1000)
    × (s'.irq_handlers 0 ≡ 99)
    × (masked held s'.ports 0 ≡ 0)
arch_timer_init-Programmed_example =
    arch_timer_init-Programmed held 1000 99 interrupts held-Latch interrupts-Started (omega arith)
      (omega arith)

-- a display whose screen is at 1000, in a memory of zeros with the cursor at the end of the last row
abbrev display : Display
display = record {
  display_row = 24;
  display_column = 79;
  display_color = 7;
  display_buffer = 1000;
  display_initialized = true;
  memory = λ a. 0;
}

abbrev terminal : Terminal
terminal = record { row = 24; column = 79; color = 7; cells = λ y x. 0 }

display-Shows : Shows display terminal
display-Shows = record {
  initialized = refl;
  row_is = refl;
  column_is = refl;
  color_is = refl;
  cell = λ y x ly lx. refl;
}

terminal-OnScreen : OnScreen terminal
terminal-OnScreen = record { row_in = omega arith; column_in = omega arith; color_in = omega arith }

arch_display_putc-Follows_example :
    Follows display (arch_display_putc 65 display) (type_char 65 terminal)
    × OnScreen (type_char 65 terminal)
arch_display_putc-Follows_example =
    arch_display_putc-Follows display terminal 65 display-Shows terminal-OnScreen (omega arith)

arch_display_number-Drawn_example :
    (ds : List ℕ) × (d' : Display) × (arch_display_number 4294967254 78 24 display ≡ some d')
    × IntText 4294967254 ds
    × (length ds ≤ 11)
    × Drawn display d' (24 * 80 + 78) ds
arch_display_number-Drawn_example =
    arch_display_number-Drawn 4294967254 78 24 display (omega arith) (omega arith) (omega arith)
      (omega arith) (omega arith)

-- the format "n%c"
abbrev format_memory : Bytes
format_memory a = if a == 100 then b'n' else if a == 101 then b'%' else if a == 102 then b'c' else 0

kprintf-Terminal_example :
    (u : List ℕ) × (r : Printed) × (kprintf 5 format_memory 100 (65 ∷ []) ≡ some r)
    × Expands (b'n' ∷ b'%' ∷ b'c' ∷ []) (word 65 ∷ []) u
    × Follows display (put_text r.out display) (type_text u terminal)
    × OnScreen (type_text u terminal)
kprintf-Terminal_example =
    kprintf-Terminal 5 format_memory 100 (65 ∷ []) (word 65 ∷ []) (b'n' ∷ b'%' ∷ b'c' ∷ []) display
      terminal (refl, omega arith, (refl, omega arith, (refl, omega arith, refl)))
      (refl, omega arith, tt) (omega arith) (inl (omega arith, inr (refl, [], refl, tt)))
      (omega arith, (omega arith, (omega arith, tt))) tt display-Shows terminal-OnScreen
