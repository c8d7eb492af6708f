-- ===== src/I386/Descriptors.antt =====
-- system/kernel/i386/descriptors.c, with the structs of i386_type.h and the constants of
-- i386_const.h. Every call in the file has a constant index, so an index is not negative here. The
-- addresses of the tables and of the stubs of i386.S are parameters; gdt_flush, idt_flush and
-- tss_flush, which load the tables, are in assembly.
pub mod Encode
pub mod Init
use elco_os.Base.{ℕ, zero, suc, ◌+◌, ◌-◌, ◌*◌, ◌/◌, ◌%◌, ◌^◌, if◌then◌else◌, leb, upd}

-- struct gdt_entry; the two fields of a byte are listed low bits first
pub record GdtEntry : Type 0 where
  pub limit_low : ℕ
  pub base_low : ℕ
  pub base_mid : ℕ
  pub access : ℕ
  pub limit_hight : ℕ
  pub flags : ℕ
  pub base_high : ℕ

-- struct idt_entry, with its field `zero`
pub record IdtEntry : Type 0 where
  pub offset_low : ℕ
  pub selector : ℕ
  pub zeroed : ℕ
  pub type_atr : ℕ
  pub offset_high : ℕ

-- struct gdt_pointer and struct idt_pointer
pub record TablePointer : Type 0 where
  pub last_byte : ℕ
  pub start : ℕ

-- the globals of the file; of `tss` the two fields that are written
pub record Tables : Type 0 where
  pub gdt : ℕ → GdtEntry
  pub idt : ℕ → IdtEntry
  pub gdt_p : TablePointer
  pub idt_p : TablePointer
  pub tss_ss0 : ℕ
  pub tss_esp0 : ℕ

-- where the linker puts the tables and the stubs
pub record Addresses : Type 0 where
  pub gdt_at : ℕ
  pub idt_at : ℕ
  pub tss_at : ℕ
  pub isr : ℕ → ℕ
  pub irq : ℕ → ℕ
  pub kernel_call : ℕ

abbrev pub gdt_size : ℕ
gdt_size = 6

abbrev pub idt_size : ℕ
idt_size = 256

-- sizeof(struct gdt_entry) and sizeof(struct idt_entry)
abbrev pub entry_size : ℕ
entry_size = 8

-- sizeof(struct tss_entry)
abbrev pub tss_size : ℕ
tss_size = 104

abbrev pub gdt_ring0_code : ℕ
gdt_ring0_code = 1 * 8

abbrev pub gdt_ring0_data : ℕ
gdt_ring0_data = 2 * 8

-- GDT_ACC_*: the bits of `access`
abbrev pub acc_present : ℕ
acc_present = 0x80

abbrev pub acc_priv3 : ℕ
acc_priv3 = 0x60

abbrev pub acc_resv : ℕ
acc_resv = 0x10

abbrev pub acc_exec : ℕ
acc_exec = 0x08

abbrev pub acc_rw : ℕ
acc_rw = 0x02

abbrev pub acc_tss_type : ℕ
acc_tss_type = 0x09

-- GDT_FLAG_*
abbrev pub flag_gran4k : ℕ
flag_gran4k = 0x8

abbrev pub flag_32bit : ℕ
flag_32bit = 0x4

-- IDT_ATR_TYPE_32IG | IDT_ATR_PRES
abbrev pub atr_gate : ℕ
atr_gate = 0x0E + 0x80

abbrev pub gdt_entry : (base limit access flags : ℕ) → GdtEntry
gdt_entry base limit access flags = record {
  limit_low = limit % 2 ^ 16;
  base_low = base % 2 ^ 16;
  base_mid = base / 2 ^ 16 % 2 ^ 8;
  access = access;
  limit_hight = limit / 2 ^ 16 % 2 ^ 4;
  flags = flags % 2 ^ 4;
  base_high = base / 2 ^ 24 % 2 ^ 8;
}

unfoldable pub gdt_set_entry : (index base limit access flags : ℕ) → Tables → Tables
gdt_set_entry index base limit access flags t =
    if leb gdt_size index
    then t
    else record t { gdt = upd t.gdt index (gdt_entry base limit access flags) }

abbrev pub idt_entry : (offset selector attr : ℕ) → IdtEntry
idt_entry offset selector attr = record {
  offset_low = offset % 2 ^ 16;
  selector = selector;
  zeroed = 0;
  type_atr = attr;
  offset_high = offset / 2 ^ 16 % 2 ^ 16;
}

unfoldable pub idt_set_entry : (index offset selector attr : ℕ) → Tables → Tables
idt_set_entry index offset selector attr t =
    if leb idt_size index
    then t
    else record t { idt = upd t.idt index (idt_entry offset selector attr) }

-- The flags of an access byte are distinct bits, and `|` adds them.
unfoldable pub gdt_initialize : Addresses → Tables → Tables
gdt_initialize at t =
    let t = record t {
      gdt_p = record { start = at.gdt_at; last_byte = entry_size * gdt_size - 1 };
    } in
    let t = gdt_set_entry 0 0 0 0 0 t in
    let t =
      gdt_set_entry 1 0 0xFFFFF (acc_present + acc_resv + acc_exec + acc_rw)
        (flag_gran4k + flag_32bit) t in
    let t =
      gdt_set_entry 2 0 0xFFFFF (acc_present + acc_resv + acc_rw) (flag_gran4k + flag_32bit) t in
    let t =
      gdt_set_entry 3 0 0xFFFFF (acc_present + acc_priv3 + acc_resv + acc_exec + acc_rw)
        (flag_gran4k + flag_32bit) t in
    let t =
      gdt_set_entry 4 0 0xFFFFF (acc_present + acc_priv3 + acc_resv + acc_rw)
        (flag_gran4k + flag_32bit) t in
    gdt_set_entry 5 at.tss_at tss_size (acc_present + acc_tss_type) flag_gran4k t

-- the calls for `n` vectors from `index` on, in their order: stub i is for vector `index + i`
unfoldable pub set_gates : (n index : ℕ) → (stub : ℕ → ℕ) → Tables → Tables
set_gates zero index stub t = t
set_gates (suc n) index stub t =
    let t = set_gates n index stub t in idt_set_entry (index + n) (stub n) gdt_ring0_code atr_gate t

-- what kmemset leaves in every entry
abbrev pub no_gate : IdtEntry
no_gate = record { offset_low = 0; selector = 0; zeroed = 0; type_atr = 0; offset_high = 0 }

unfoldable pub idt_initialize : Addresses → Tables → Tables
idt_initialize at t =
    let t = record t {
      idt_p = record { start = at.idt_at; last_byte = entry_size * idt_size - 1 };
      idt = λ index. if leb idt_size index then t.idt index else no_gate;
    } in
    let t = set_gates 32 0 at.isr t in
    let t = set_gates 16 32 at.irq t in idt_set_entry 128 at.kernel_call gdt_ring0_code atr_gate t

unfoldable pub arch_init_tables : Addresses → Tables → Tables
arch_init_tables at t =
    let t = gdt_initialize at t in
    let t = idt_initialize at t in record t { tss_ss0 = gdt_ring0_data; tss_esp0 = 0 }
