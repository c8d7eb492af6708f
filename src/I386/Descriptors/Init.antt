-- ===== src/I386/Descriptors/Init.antt =====
-- What arch_init_tables leaves in the tables.
use elco_os.Base.{
  ℕ, zero, suc, ◌+◌, ◌-◌, ◌*◌, ◌/◌, ◌%◌, ◌^◌, ◌≡◌, ◌<◌, inl, inr, refl, ◌∙◌, Option, none, some,
  List, arith, if◌then◌else◌, ◌==◌, ◌&&◌, ltb, leb, Bool-cases,
}
use elco_os.I386.Descriptors.{
  IdtEntry, Tables, Addresses, gdt_entry, gdt_set_entry, idt_entry, idt_set_entry, set_gates,
  gdt_initialize, idt_initialize, arch_init_tables, no_gate, atr_gate, gdt_ring0_code,
}
use elco_os.I386.Descriptors.Encode.{
  gdt_bytes, idt_bytes, byte_of, Segment, Gate, gdt_entry-Segment, idt_entry-Gate, set_gates-idt,
  idt_set_entry-idt,
}

-- the stub that a vector is for
abbrev pub vector_stub : Addresses → ℕ → Option ℕ
vector_stub at v =
    if ltb v 32
    then some (at.isr v)
    else if ltb v 48
    then some (at.irq (v - 32))
    else if v == 128
    then some at.kernel_call
    else none

-- The entry is a gate of ring 0 to the stub, or it is not present.
abbrev pub Vectors : Option ℕ → List ℕ → Type 0
Vectors none bs = byte_of bs 5 / 128 ≡ 0
Vectors (some a) bs = Gate a 8 0x8E bs

abbrev vector_entry : Option ℕ → IdtEntry
vector_entry none = no_gate
vector_entry (some a) = idt_entry a gdt_ring0_code atr_gate

-- every stub has an address of 32 bits
pub record Linked (at : Addresses) : Type 0 where
  pub isr_at : (i : ℕ) → at.isr i < 2 ^ 32
  pub irq_at : (i : ℕ) → at.irq i < 2 ^ 32
  pub call_at : at.kernel_call < 2 ^ 32
  pub tss_in : at.tss_at < 2 ^ 32

-- the three rounds of calls together
rounds :
    (at : Addresses) (v : ℕ) (x0 x1 x2 : IdtEntry)
    → x0 ≡ no_gate
    → x1 ≡ (if leb 0 v && ltb v (0 + 32) then idt_entry (at.isr (v - 0)) 8 atr_gate else x0)
    → x2 ≡ (if leb 32 v && ltb v (32 + 16) then idt_entry (at.irq (v - 32)) 8 atr_gate else x1)
    → (if v == 128 then idt_entry at.kernel_call 8 atr_gate else x2)
      ≡ vector_entry (vector_stub at v)
rounds at v x0 x1 x2 z a b = ground (arith, z, a, b)

kmemset_idt : (v : ℕ) (x : IdtEntry) → v < 256 → (if leb 256 v then x else no_gate) ≡ no_gate
kmemset_idt v x lt = ground arith

arch_init_tables-idt :
    (at : Addresses) (t : Tables) (v : ℕ)
    → v < 256
    → (arch_init_tables at t).idt v ≡ vector_entry (vector_stub at v)
unfolding arch_init_tables idt_initialize
arch_init_tables-idt at t v lt =
    let t0 = record (gdt_initialize at t) {
      idt_p = record { start = at.idt_at; last_byte = 8 * 256 - 1 };
      idt = λ index. if leb 256 index then (gdt_initialize at t).idt index else no_gate;
    } in
    let t1 = set_gates 32 0 at.isr t0 in
    let t2 = set_gates 16 32 at.irq t1 in
    idt_set_entry-idt 128 at.kernel_call gdt_ring0_code atr_gate t2 v (omega arith)
    ∙ rounds at v (t0.idt v) (t1.idt v) (t2.idt v) (kmemset_idt v ((gdt_initialize at t).idt v) lt)
        (set_gates-idt 32 0 at.isr t0 v (omega arith))
        (set_gates-idt 16 32 at.irq t1 v (omega arith))

vector_entry-Vectors :
    (at : Addresses) (v : ℕ)
    → Linked at
    → Vectors (vector_stub at v) (idt_bytes (vector_entry (vector_stub at v)))
vector_entry-Vectors at v k = elim (Bool-cases (ltb v 32)) [
  | inl e ↦ rw e (idt_entry-Gate (at.isr v) 8 0x8E (k.isr_at v) (omega arith))
  | inr e ↦ rw e (elim (Bool-cases (ltb v 48)) [
    | inl f ↦ rw f (idt_entry-Gate (at.irq (v - 32)) 8 0x8E (k.irq_at (v - 32)) (omega arith))
    | inr f ↦ rw f (elim (Bool-cases (v == 128)) [
      | inl g ↦ rw g (idt_entry-Gate at.kernel_call 8 0x8E k.call_at (omega arith))
      | inr g ↦ rw g refl
    ])
  ])
]

-- After arch_init_tables, each of the 256 vectors leads by a present gate of ring 0 to its stub: the
-- exceptions 0 to 31, the interrupt lines at 32 to 47, the kernel call at 128; no other is present.
-- Every stub has an address of 32 bits.
pub arch_init_tables-Vectors :
    (at : Addresses) (t : Tables) (v : ℕ)
    → Linked at
    → v < 256
    → Vectors (vector_stub at v) (idt_bytes ((arch_init_tables at t).idt v))
arch_init_tables-Vectors at t v k lt =
    rw (arch_init_tables-idt at t v lt) (vector_entry-Vectors at v k)

-- the number of bytes of a segment, as its descriptor counts bytes or pages
abbrev pub segment_bytes : List ℕ → ℕ
segment_bytes bs =
    let limit = byte_of bs 0 + 2 ^ 8 * byte_of bs 1 + 2 ^ 16 * (byte_of bs 6 % 16) in
    if leb 8 (byte_of bs 6 / 16) then (limit + 1) * 4096 else limit + 1

-- a segment that is all of the memory
abbrev pub Flat : (access : ℕ) → List ℕ → Type 0
Flat access bs = Segment 0 0xFFFFF access 0xC bs × (segment_bytes bs ≡ 2 ^ 32)

set_gates-gdt : (n index : ℕ) (stub : ℕ → ℕ) (t : Tables) → (set_gates n index stub t).gdt ≡ t.gdt
unfolding set_gates idt_set_entry
set_gates-gdt zero index stub t = refl
set_gates-gdt (suc n) index stub t = ground (arith, set_gates-gdt n index stub t)

arch_init_tables-gdt :
    (at : Addresses) (t : Tables) → (arch_init_tables at t).gdt ≡ (gdt_initialize at t).gdt
unfolding arch_init_tables idt_initialize idt_set_entry
arch_init_tables-gdt at t = set_gates-gdt 16 32 at.irq _ ∙ set_gates-gdt 32 0 at.isr _

-- After arch_init_tables, the segments 1 to 4 are the code and data segments of ring 0 and ring 3,
-- each over all of the memory, and segment 5 is the TSS, whose limit is the size of the TSS counted
-- in pages. The TSS has an address of 32 bits.
pub arch_init_tables-Flat :
    (at : Addresses) (t : Tables)
    → Linked at
    → let g = (arch_init_tables at t).gdt in
      Flat 0x9A (gdt_bytes (g 1))
      × Flat 0x92 (gdt_bytes (g 2))
      × Flat 0xFA (gdt_bytes (g 3))
      × Flat 0xF2 (gdt_bytes (g 4))
      × Segment at.tss_at 104 0x89 0x8 (gdt_bytes (g 5))
      × (segment_bytes (gdt_bytes (g 5)) ≡ 105 * 4096)
unfolding gdt_initialize gdt_set_entry
arch_init_tables-Flat at t k = rw (arch_init_tables-gdt at t) (
  (flat 0x9A, refl),
  (flat 0x92, refl),
  (flat 0xFA, refl),
  (flat 0xF2, refl),
  gdt_entry-Segment at.tss_at 104 0x89 0x8 k.tss_in (omega arith) (omega arith),
  refl,
)
  where
    flat : (access : ℕ) → Segment 0 0xFFFFF access 0xC (gdt_bytes (gdt_entry 0 0xFFFFF access 0xC))
    flat access = gdt_entry-Segment 0 0xFFFFF access 0xC (omega arith) (omega arith) (omega arith)
