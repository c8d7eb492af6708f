-- ===== src/I386/Interrupts.antt =====
-- system/kernel/i386/interrupts.c. A handler is an address, 0 for NULL; what it does is a parameter.
-- An interrupt number is the 32-bit pattern of an int.
pub mod Lines
use elco_os.Base.{
  ℕ, ◌+◌, ◌-◌, ◌*◌, ◌/◌, ◌%◌, ◌^◌, Bool, Option, none, some, ◌>>=◌, if◌then◌else◌, ltb, leb, ◌==◌,
  upd,
}
use elco_os.I386.Pic.{PortLog, outportb, pic_init, pic_eoi, pic_set_mask, pic_clear_mask}

pub record Interrupts : Type 0 where
  pub exception_handlers : ℕ → ℕ
  pub irq_handlers : ℕ → ℕ
  pub ports : PortLog

abbrev pub exception_count : ℕ
exception_count = 32

abbrev pub irq_count : ℕ
irq_count = 16

-- the sign of an int
abbrev pub negative : ℕ → Bool
negative i = leb (2 ^ 31) i

-- the first `n` places of a table are NULL
abbrev pub cleared : (n : ℕ) → (ℕ → ℕ) → ℕ → ℕ
cleared n f i = if ltb i n then 0 else f i

unfoldable pub arch_init_interrupts : Interrupts → Interrupts
arch_init_interrupts s = record {
  exception_handlers = cleared exception_count s.exception_handlers;
  irq_handlers = cleared irq_count s.irq_handlers;
  ports = pic_init s.ports;
}

-- The comparison is of ints, so a negative number passes it: `none` is the write in front of the table.
unfoldable pub exception_set_handler : (intr_no handler : ℕ) → Interrupts → Option Interrupts
exception_set_handler intr_no handler s =
    if negative intr_no
    then none
    else if leb exception_count intr_no
    then some s
    else some (record s { exception_handlers = upd s.exception_handlers intr_no handler })

unfoldable pub exception_clear_handler : (intr_no : ℕ) → Interrupts → Option Interrupts
exception_clear_handler intr_no s =
    if negative intr_no
    then none
    else if leb exception_count intr_no
    then some s
    else some (record s { exception_handlers = upd s.exception_handlers intr_no 0 })

-- how a dispatcher ends: it returns, it stops in kpanic, or it reads behind the table
pub data Dispatch : Type 0 where
  returned : Interrupts → Dispatch
  panicked : Dispatch
  astray : Dispatch

-- `handle` is what a handler does with the error code
module _ (handle : (handler error : ℕ) → Interrupts → Interrupts) where
  unfoldable pub exception_handler : (int_no error : ℕ) → Interrupts → Dispatch
  exception_handler int_no error s =
      let handler = s.exception_handlers int_no in
      if leb exception_count int_no
      then astray
      else if handler == 0
      then panicked
      else returned (handle handler error s)

module _ (inportb : PortLog → (port : ℕ) → ℕ) where
  unfoldable pub irq_set_handler : (intr_no handler : ℕ) → Interrupts → Option Interrupts
  irq_set_handler intr_no handler s =
      if negative intr_no
      then none
      else if leb irq_count intr_no
      then some s
      else some (record s {
        irq_handlers = upd s.irq_handlers intr_no handler;
        ports = pic_clear_mask inportb (intr_no % 2 ^ 8) s.ports;
      })

  unfoldable pub irq_clear_handler : (intr_no : ℕ) → Interrupts → Option Interrupts
  irq_clear_handler intr_no s =
      if negative intr_no
      then none
      else if leb irq_count intr_no
      then some s
      else some (record s {
        irq_handlers = upd s.irq_handlers intr_no 0;
        ports = pic_set_mask inportb (intr_no % 2 ^ 8) s.ports;
      })

  -- `none` where the frequency is 0
  unfoldable pub arch_timer_init : (frequency callback : ℕ) → Interrupts → Option Interrupts
  arch_timer_init frequency callback s =
      let divisor = 1193180 / frequency in
      let ports = outportb 0x43 0x36 s.ports in
      let ports = outportb 0x40 (divisor % 2 ^ 8) ports in
      let ports = outportb 0x40 (divisor / 2 ^ 8 % 2 ^ 8) ports in
      if frequency == 0 then none else irq_set_handler 0 callback (record s { ports = ports })

-- `handle` is what a handler does
module _ (handle : (handler : ℕ) → Interrupts → Interrupts) where
  unfoldable pub irq_handler : (int_no : ℕ) → Interrupts → Dispatch
  irq_handler int_no s =
      let handler = s.irq_handlers int_no in
      let s' = handle handler s in
      if leb irq_count int_no
      then astray
      else if handler == 0
      then panicked
      else returned (record s' { ports = pic_eoi (int_no % 2 ^ 8) s'.ports })
