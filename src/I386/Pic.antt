-- ===== src/I386/Pic.antt =====
-- system/kernel/i386/pic.c, with the ports of i386_const.h and outportb of i386_proto.h. What the
-- code writes to the ports is a log, the newest write first. What inportb reads is up to the device:
-- a function of the log and the port.
pub mod Bits
pub mod Masks
use Prim.Native.Nat.{bit_and, bit_or}
use elco_os.Base.{ℕ, ◌+◌, ◌-◌, ◌*◌, ◌^◌, List, ◌∷◌, if◌then◌else◌, ltb}

pub record PortWrite : Type 0 where
  pub port : ℕ
  pub byte : ℕ

abbrev pub PortLog : Type 0
PortLog = List PortWrite

abbrev pub outportb : (port byte : ℕ) → PortLog → PortLog
outportb port byte log = record { port = port; byte = byte } ∷ log

abbrev pub pic0_addr_c : ℕ
pic0_addr_c = 0x20

abbrev pub pic0_addr_d : ℕ
pic0_addr_d = 0x21

abbrev pub pic1_addr_c : ℕ
pic1_addr_c = 0xA0

abbrev pub pic1_addr_d : ℕ
pic1_addr_d = 0xA1

abbrev pub irq0_vect : ℕ
irq0_vect = 32

-- PIC_ICW1_ICW4 | PIC_ICW1_INIT
abbrev pub icw1 : ℕ
icw1 = 0x01 + 0x10

abbrev pub pic_eoi_code : ℕ
pic_eoi_code = 0x20

-- the four initialisation words of each controller
unfoldable pub pic_icws : PortLog → PortLog
pic_icws log =
    let log = outportb pic0_addr_c icw1 log in
    let log = outportb pic1_addr_c icw1 log in
    let log = outportb pic0_addr_d irq0_vect log in
    let log = outportb pic1_addr_d (irq0_vect + 8) log in
    let log = outportb pic0_addr_d (2 ^ 2) log in
    let log = outportb pic1_addr_d 2 log in
    let log = outportb pic0_addr_d 0x01 log in outportb pic1_addr_d 0x01 log

-- pic_icws is the code up to the last two writes
unfoldable pub pic_init : PortLog → PortLog
pic_init log =
    let log = pic_icws log in
    let log = outportb pic0_addr_d 0xff log in outportb pic1_addr_d 0xff log

unfoldable pub pic_eoi : (irq : ℕ) → PortLog → PortLog
pic_eoi irq log =
    let log = if ltb 7 irq then outportb pic1_addr_c pic_eoi_code log else log in
    outportb pic0_addr_c pic_eoi_code log

module _ (inportb : PortLog → (port : ℕ) → ℕ) where
  unfoldable pub pic_set_mask : (irq : ℕ) → PortLog → PortLog
  pic_set_mask irq log =
      if ltb 15 irq
      then log
      else if ltb irq 8
      then outportb pic0_addr_d (bit_or (inportb log pic0_addr_d) (2 ^ irq)) log
      else outportb pic1_addr_d (bit_or (inportb log pic1_addr_d) (2 ^ (irq - 8))) log

  -- `mask & ~(1U << i)` of a byte
  unfoldable pub pic_clear_mask : (irq : ℕ) → PortLog → PortLog
  pic_clear_mask irq log =
      if ltb 15 irq
      then log
      else if ltb irq 8
      then outportb pic0_addr_d (bit_and (inportb log pic0_addr_d) (0xff - 2 ^ irq)) log
      else outportb pic0_addr_d (bit_and (inportb log pic0_addr_d) (0xff - 2 ^ (irq - 8))) log
