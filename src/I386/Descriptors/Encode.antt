-- ===== src/I386/Descriptors/Encode.antt =====
-- The entries of the tables as the processor reads them.
use elco_os.Base.{
  ℕ, zero, suc, ◌+◌, ◌-◌, ◌*◌, ◌/◌, ◌%◌, ◌^◌, ◌≡◌, ◌≤◌, ◌<◌, inl, inr, refl, ap, ◌∙◌, ◌&&◌, List,
  [], ◌∷◌, length, arith, if◌then◌else◌, ◌==◌, ltb, leb, ==_iff, get_or, eq-cases,
}
use elco_os.I386.Descriptors.{
  GdtEntry, IdtEntry, Tables, Addresses, gdt_entry, gdt_set_entry, idt_entry, idt_set_entry,
  set_gates, gdt_initialize, atr_gate, gdt_ring0_code,
}

-- the packed struct, byte by byte
abbrev pub gdt_bytes : GdtEntry → List ℕ
gdt_bytes e =
    (e.limit_low % 256)
    ∷ (e.limit_low / 256)
    ∷ (e.base_low % 256)
    ∷ (e.base_low / 256)
    ∷ e.base_mid
    ∷ e.access
    ∷ (e.limit_hight + 16 * e.flags)
    ∷ e.base_high
    ∷ []

abbrev pub idt_bytes : IdtEntry → List ℕ
idt_bytes e =
    (e.offset_low % 256)
    ∷ (e.offset_low / 256)
    ∷ (e.selector % 256)
    ∷ (e.selector / 256)
    ∷ e.zeroed
    ∷ e.type_atr
    ∷ (e.offset_high % 256)
    ∷ (e.offset_high / 256)
    ∷ []

-- the byte at `i` of a descriptor
abbrev pub byte_of : List ℕ → ℕ → ℕ
byte_of bs i = get_or bs i 0

-- A segment descriptor: base, limit, access byte and flags.
pub record Segment (base limit access flags : ℕ) (bs : List ℕ) : Type 0 where
  pub size : length bs ≡ 8
  pub base_is :
      byte_of bs 2 + 2 ^ 8 * byte_of bs 3 + 2 ^ 16 * byte_of bs 4 + 2 ^ 24 * byte_of bs 7 ≡ base
  pub limit_is : byte_of bs 0 + 2 ^ 8 * byte_of bs 1 + 2 ^ 16 * (byte_of bs 6 % 16) ≡ limit
  pub access_is : byte_of bs 5 ≡ access
  pub flags_are : byte_of bs 6 / 16 ≡ flags

-- A gate: the address of its handler, the code segment and the attributes.
pub record Gate (offset selector attr : ℕ) (bs : List ℕ) : Type 0 where
  pub size : length bs ≡ 8
  pub offset_is :
      byte_of bs 0 + 2 ^ 8 * byte_of bs 1 + 2 ^ 16 * byte_of bs 6 + 2 ^ 24 * byte_of bs 7 ≡ offset
  pub selector_is : byte_of bs 2 + 2 ^ 8 * byte_of bs 3 ≡ selector
  pub zero_is : byte_of bs 4 ≡ 0
  pub attr_is : byte_of bs 5 ≡ attr

pub gdt_entry-Segment :
    (base limit access flags : ℕ)
    → base < 2 ^ 32
    → limit < 2 ^ 20
    → flags < 16
    → Segment base limit access flags (gdt_bytes (gdt_entry base limit access flags))
gdt_entry-Segment base limit access flags b l f = record {
  size = refl;
  base_is = omega arith;
  limit_is = omega arith;
  access_is = refl;
  flags_are = omega arith;
}

pub idt_entry-Gate :
    (offset selector attr : ℕ)
    → offset < 2 ^ 32
    → selector < 2 ^ 16
    → Gate offset selector attr (idt_bytes (idt_entry offset selector attr))
idt_entry-Gate offset selector attr o s = record {
  size = refl;
  offset_is = omega arith;
  selector_is = omega arith;
  zero_is = refl;
  attr_is = refl;
}

gdt_initialize-idt : (at : Addresses) (t : Tables) (v : ℕ) → (gdt_initialize at t).idt v ≡ t.idt v
unfolding gdt_initialize gdt_set_entry
gdt_initialize-idt at t v = refl

pub idt_set_entry-idt :
    (i o s a : ℕ) (t : Tables) (v : ℕ)
    → i < 256
    → (idt_set_entry i o s a t).idt v ≡ (if v == i then idt_entry o s a else t.idt v)
unfolding idt_set_entry
idt_set_entry-idt i o s a t v lt = ground arith

pub set_gates-idt :
    (n index : ℕ) (stub : ℕ → ℕ) (t : Tables) (v : ℕ)
    → index + n ≤ 256
    → (set_gates n index stub t).idt v ≡ (
        if leb index v && ltb v (index + n)
        then idt_entry (stub (v - index)) gdt_ring0_code atr_gate
        else t.idt v)
unfolding set_gates
set_gates-idt zero index stub t v h = ground arith
set_gates-idt (suc n) index stub t v h =
    let rest = set_gates-idt n index stub t v (omega arith) in
    let same : v ≡ index + n → stub n ≡ stub (v - index) = λ e. ap stub (omega (arith, e)) in
    idt_set_entry-idt (index + n) (stub n) gdt_ring0_code atr_gate (set_gates n index stub t) v
      (omega arith)
    ∙ elim (eq-cases v (index + n)) [
      | inl e ↦ rw e (rw (same ((==_iff v (index + n)).0 e)) (ground arith))
      | inr e ↦ rw e (rest ∙ ground arith)
    ]
