-- ===== src/I386/Interrupts/Lines.antt =====
-- The handlers of the exceptions and of the interrupt lines, and the timer.
use native.Mathlib.Nat.{div-add-mod', mod-lt, add-mul}
use elco_os.Base.{
  ℕ, ◌+◌, ◌*◌, ◌/◌, ◌%◌, ◌^◌, ◌≡◌, ◌≤◌, ◌<◌, refl, ◌∙◌, false, some, arith, if◌then◌else◌, ◌==◌,
  ltb, leb, upd,
}
use elco_os.I386.Pic.{PortLog, outportb, pic_eoi, pic_clear_mask, pic_set_mask}
use elco_os.I386.Pic.Masks.{
  Latch, Started, masked, pic_clear_mask-masked, pic_set_mask-masked, pic_init-masked,
}
use elco_os.I386.Interrupts.{
  Interrupts, Dispatch, returned, panicked, arch_init_interrupts, exception_set_handler,
  exception_handler, irq_set_handler, irq_clear_handler, irq_handler, arch_timer_init,
}

module _ (handle : (handler error : ℕ) → Interrupts → Interrupts) where
  -- what the handler `h` does with an exception, or the panic for NULL
  abbrev pub answer : (h error : ℕ) → Interrupts → Dispatch
  answer h error s = if h == 0 then panicked else returned (handle h error s)

  exception_handler-answer :
      (m error : ℕ) (s : Interrupts)
      → m < 32
      → exception_handler handle m error s ≡ answer (s.exception_handlers m) error s
  unfolding exception_handler
  exception_handler-answer m error s lt = ground arith

  -- After exception_set_handler, the exception goes to the handler that was set, and panics if that is
  -- NULL, and every other exception goes where it went.
  pub exception_set_handler-exception_handler :
      (n h m error : ℕ) (s : Interrupts)
      → n < 32
      → m < 32
      → (s' : Interrupts) × (exception_set_handler n h s ≡ some s')
        × (exception_handler handle m error s'
            ≡ answer (if m == n then h else s.exception_handlers m) error s')
  unfolding exception_set_handler
  exception_set_handler-exception_handler n h m error s ln lm =
      let s' = record s { exception_handlers = upd s.exception_handlers n h } in
      (s', ground arith, exception_handler-answer m error s' lm)

module _ (handle : (handler : ℕ) → Interrupts → Interrupts) where
  -- What the handler `h` does with line `n`, and the end of the interrupt, or the panic for NULL. The
  -- end of a line below 8 is the byte 0x20 to the command port 0x20 of the master; for the other
  -- lines the same byte goes to the command port 0xA0 of the slave before that.
  abbrev pub serve : (h n : ℕ) → Interrupts → Dispatch
  serve h n s =
      let log = (handle h s).ports in
      if h == 0
      then panicked
      else if ltb n 8
      then returned (record (handle h s) { ports = outportb 0x20 0x20 log })
      else returned (record (handle h s) { ports = outportb 0x20 0x20 (outportb 0xA0 0x20 log) })

  pic_eoi-ports :
      (n : ℕ) (log : PortLog)
      → pic_eoi n log
        ≡ (if ltb n 8 then outportb 0x20 0x20 log else outportb 0x20 0x20 (outportb 0xA0 0x20 log))
  unfolding pic_eoi
  pic_eoi-ports n log = ground arith

  irq_handler-serve :
      (m : ℕ) (s : Interrupts) → m < 16 → irq_handler handle m s ≡ serve (s.irq_handlers m) m s
  unfolding irq_handler
  irq_handler-serve m s lt =
      let inside : leb 16 m ≡ false = ground arith in
      let byte : m % 2 ^ 8 ≡ m = omega arith in
      let log = (handle (s.irq_handlers m) s).ports in
      rw inside (rw byte (ground (arith, pic_eoi-ports m log)))

  -- After irq_set_handler, line `n` goes to the handler that was set, and its end is reported to the
  -- controllers; the other lines go where they went. For a line of the master the line is enabled and
  -- the other masks are kept; for a line of the slave it is the line 8 below it that is enabled. The
  -- controllers are initialised, and hold the masks that are written to them.
  pub irq_set_handler-irq_handler :
      (inportb : PortLog → ℕ → ℕ) (n h m : ℕ) (s : Interrupts)
      → Latch inportb
      → Started s.ports
      → n < 16
      → m < 16
      → (s' : Interrupts) × (irq_set_handler inportb n h s ≡ some s')
        × (irq_handler handle m s' ≡ serve (if m == n then h else s.irq_handlers m) m s')
        × (masked inportb s'.ports m ≡ (if m == n % 8 then 0 else masked inportb s.ports m))
        × Started s'.ports
  unfolding irq_set_handler
  irq_set_handler-irq_handler inportb n h m s k st ln lm =
      let s' = record s {
        irq_handlers = upd s.irq_handlers n h;
        ports = pic_clear_mask inportb n s.ports;
      } in
      let byte : n % 2 ^ 8 ≡ n = omega arith in
      let (mask, st') = pic_clear_mask-masked inportb n m s.ports k st ln in
      (s', rw byte (ground arith), irq_handler-serve m s' lm, mask, st')

  -- After irq_clear_handler, line `n` is disabled and would panic, and the other lines are as they were.
  -- The controllers are initialised, and hold the masks that are written to them.
  pub irq_clear_handler-irq_handler :
      (inportb : PortLog → ℕ → ℕ) (n m : ℕ) (s : Interrupts)
      → Latch inportb
      → Started s.ports
      → n < 16
      → m < 16
      → (s' : Interrupts) × (irq_clear_handler inportb n s ≡ some s')
        × (irq_handler handle m s' ≡ serve (if m == n then 0 else s.irq_handlers m) m s')
        × (masked inportb s'.ports m ≡ (if m == n then 1 else masked inportb s.ports m))
        × Started s'.ports
  unfolding irq_clear_handler
  irq_clear_handler-irq_handler inportb n m s k st ln lm =
      let s' = record s {
        irq_handlers = upd s.irq_handlers n 0;
        ports = pic_set_mask inportb n s.ports;
      } in
      let byte : n % 2 ^ 8 ≡ n = omega arith in
      let (mask, st') = pic_set_mask-masked inportb n m s.ports k st ln lm in
      (s', rw byte (ground arith), irq_handler-serve m s' lm, mask, st')

-- the last three writes to the timer: the command, and the divisor, low byte first
abbrev pub Programmed : (divisor : ℕ) → (before after : PortLog) → Type 0
Programmed divisor before after =
    (l : ℕ) × (h : ℕ) × (after ≡ outportb 0x40 h (outportb 0x40 l (outportb 0x43 0x36 before)))
    × (l < 256)
    × (h < 256)
    × (l + 2 ^ 8 * h ≡ divisor)

quotient_bounds : (a f : ℕ) → 0 < f → (a / f * f ≤ a) × (a < (a / f + 1) * f)
quotient_bounds a f pos = (
  omega (arith, div-add-mod' a f),
  rw (add-mul (a / f) 1 f) (omega (arith, div-add-mod' a f, mod-lt a pos)),
)

short_divisor : (d f : ℕ) → 19 ≤ f → d * f ≤ 1193180 → d < 2 ^ 16
short_divisor d f lo h = grind (arith, h, lo)

-- For a frequency between 19 and the timer's own, arch_timer_init gives the timer a divisor of 16 bits,
-- the largest for which it ticks at least that often, sets the handler of line 0 and enables the line.
-- The controllers are initialised, and hold the masks that are written to them.
pub arch_timer_init-Programmed :
    (inportb : PortLog → ℕ → ℕ) (f callback : ℕ) (s : Interrupts)
    → Latch inportb
    → Started s.ports
    → 19 ≤ f
    → f ≤ 1193180
    → (s' : Interrupts) × (divisor : ℕ) × (ports : PortLog) × (arch_timer_init inportb f callback s
        ≡ some s')
      × Programmed divisor s.ports ports
      × (s'.ports ≡ pic_clear_mask inportb 0 ports)
      × (divisor * f ≤ 1193180)
      × (1193180 < (divisor + 1) * f)
      × (s'.irq_handlers 0 ≡ callback)
      × (masked inportb s'.ports 0 ≡ 0)
unfolding arch_timer_init irq_set_handler
arch_timer_init-Programmed inportb f callback s k st lo hi =
    let divisor = 1193180 / f in
    let l = divisor % 2 ^ 8 in
    let h = divisor / 2 ^ 8 % 2 ^ 8 in
    let log1 = outportb 0x43 0x36 s.ports in
    let log2 = outportb 0x40 l log1 in
    let ports = outportb 0x40 h log2 in
    let st1 = Started.timer 0x43 0x36 s.ports (omega arith) (omega arith) st in
    let st2 = Started.timer 0x40 l log1 (omega arith) (omega arith) st1 in
    let st3 = Started.timer 0x40 h log2 (omega arith) (omega arith) st2 in
    let (fits, next) = quotient_bounds 1193180 f (omega arith) in
    let s' = record s {
      irq_handlers = upd s.irq_handlers 0 callback;
      ports = pic_clear_mask inportb 0 ports;
    } in
    let runs : (f == 0) ≡ false = ground arith in
    (
      s',
      divisor,
      ports,
      rw runs refl,
      (l, h, refl, omega arith, omega arith, omega (arith, short_divisor divisor f lo fits)),
      refl,
      fits,
      next,
      refl,
      (pic_clear_mask-masked inportb 0 0 ports k st3 (omega arith)).0,
    )

-- After arch_init_interrupts, every exception and every line panics, and every line is disabled. The
-- controllers hold the masks that are written to them.
pub arch_init_interrupts-panicked :
    (inportb : PortLog → ℕ → ℕ) (handle : ℕ → Interrupts → Interrupts)
    (catch : ℕ → ℕ → Interrupts → Interrupts) (m n error : ℕ) (s : Interrupts)
    → Latch inportb
    → m < 32
    → n < 16
    → let s' = arch_init_interrupts s in
      (exception_handler catch m error s' ≡ panicked)
      × (irq_handler handle n s' ≡ panicked)
      × (masked inportb s'.ports n ≡ 1)
      × Started s'.ports
unfolding arch_init_interrupts
arch_init_interrupts-panicked inportb handle catch m n error s k lm ln =
    let init = pic_init-masked inportb n s.ports k ln in
    (
      exception_handler-answer catch m error (arch_init_interrupts s) lm ∙ ground arith,
      irq_handler-serve handle n (arch_init_interrupts s) ln ∙ ground arith,
      init.0,
      init.1,
    )
