-- ===== src/I386/Pic/Masks.antt =====
-- The masks of the sixteen interrupt lines.
use Prim.Native.Nat.{bit_and, bit_or}
use elco_os.Base.{
  ℕ, ◌-◌, ◌%◌, ◌^◌, ◌≡◌, ◌≤◌, ◌<◌, ◌⊎◌, inl, inr, refl, ap, ◌∙◌, false, arith, if◌then◌else◌, ◌==◌,
  ltb, Bool-cases,
}
use elco_os.I386.Pic.Bits.{bit, all_ones, bit-bit_or, bit-bit_and}
use elco_os.I386.Pic.{
  PortLog, outportb, pic0_addr_c, pic0_addr_d, pic1_addr_c, pic1_addr_d, pic_eoi_code, pic_icws,
  pic_init, pic_set_mask, pic_clear_mask,
}

-- the data ports, where the masks are
abbrev pub DataPort : ℕ → Type 0
DataPort p = (p ≡ pic0_addr_d) ⊎ (p ≡ pic1_addr_d)

-- What was written since the initialisation words: masks, ends of interrupts, and bytes for other
-- devices.
pub data Started : PortLog → Type 0 where
  icws : (log : PortLog) → Started (pic_icws log)
  mask : (p d : ℕ) (log : PortLog) → DataPort p → d < 256 → Started log → Started (outportb p d log)
  eoi : (log : PortLog) → Started log → Started (outportb pic0_addr_c pic_eoi_code log)
  eoi_slave : (log : PortLog) → Started log → Started (outportb pic1_addr_c pic_eoi_code log)
  timer : (p d : ℕ) (log : PortLog) → 0x40 ≤ p → p ≤ 0x43 → Started log → Started (outportb p d log)

-- The documented behaviour of two initialised controllers: a data port holds the last mask written to
-- it, and an end of interrupt or a byte for the timer changes no mask.
pub record Latch (inportb : PortLog → ℕ → ℕ) : Type 0 where
  pub is_byte : (log : PortLog) (q : ℕ) → inportb log q < 256
  pub holds :
      (p d q : ℕ) (log : PortLog)
      → Started log
      → DataPort p
      → DataPort q
      → d < 256
      → inportb (outportb p d log) q ≡ (if q == p then d else inportb log q)
  pub eoi_keeps :
      (p d q : ℕ) (log : PortLog)
      → Started log
      → DataPort q
      → (p ≡ pic0_addr_c) ⊎ (p ≡ pic1_addr_c)
      → inportb (outportb p pic_eoi_code log) q ≡ inportb log q
  pub timer_keeps :
      (p d q : ℕ) (log : PortLog)
      → Started log
      → DataPort q
      → 0x40 ≤ p
      → p ≤ 0x43
      → inportb (outportb p d log) q ≡ inportb log q

module _ (inportb : PortLog → ℕ → ℕ) where
  -- the mask of interrupt line `n`: 1 where the line is disabled
  abbrev pub masked : PortLog → (n : ℕ) → ℕ
  masked log n =
      if ltb n 8 then bit n (inportb log pic0_addr_d) else bit (n - 8) (inportb log pic1_addr_d)

  masked-master :
      (d n : ℕ) (log : PortLog)
      → Latch inportb
      → Started log
      → d < 256
      → masked (outportb pic0_addr_d d log) n ≡ (if ltb n 8 then bit n d else masked log n)
  masked-master d n log k st lt = ground (
    arith,
    k.holds pic0_addr_d d pic0_addr_d log st (inl refl) (inl refl) lt,
    k.holds pic0_addr_d d pic1_addr_d log st (inl refl) (inr refl) lt,
  )

  masked-slave :
      (d n : ℕ) (log : PortLog)
      → Latch inportb
      → Started log
      → d < 256
      → masked (outportb pic1_addr_d d log) n ≡ (if ltb n 8 then masked log n else bit (n - 8) d)
  masked-slave d n log k st lt = ground (
    arith,
    k.holds pic1_addr_d d pic0_addr_d log st (inr refl) (inl refl) lt,
    k.holds pic1_addr_d d pic1_addr_d log st (inr refl) (inr refl) lt,
  )

  -- a write to one controller that changes one bit of its mask
  low_line :
      (f : ℕ → ℕ) (i n v x : ℕ)
      → i < 8
      → (n < 8 → f n ≡ (if n == i then v else x))
      → (if ltb n 8 then f n else x) ≡ (if n == i then v else x)
  low_line f i n v x li h = ground (arith, h)

  high_line :
      (f : ℕ → ℕ) (i n v x : ℕ)
      → 8 ≤ i
      → (8 ≤ n → f (n - 8) ≡ (if n - 8 == i - 8 then v else x))
      → (if ltb n 8 then x else f (n - 8)) ≡ (if n == i then v else x)
  high_line f i n v x li h = ground (arith, h)

  line_master : (log : PortLog) (n : ℕ) → n < 8 → masked log n ≡ bit n (inportb log pic0_addr_d)
  line_master log n lt = ground arith

  line_slave :
      (log : PortLog) (n : ℕ) → 8 ≤ n → masked log n ≡ bit (n - 8) (inportb log pic1_addr_d)
  line_slave log n ge = ground arith

  pic_set_mask-low :
      (irq : ℕ) (log : PortLog)
      → irq < 8
      → pic_set_mask inportb irq log
        ≡ outportb pic0_addr_d (bit_or (inportb log pic0_addr_d) (2 ^ irq)) log
  unfolding pic_set_mask
  pic_set_mask-low irq log lt = ground arith

  pic_set_mask-high :
      (irq : ℕ) (log : PortLog)
      → 8 ≤ irq
      → irq < 16
      → pic_set_mask inportb irq log
        ≡ outportb pic1_addr_d (bit_or (inportb log pic1_addr_d) (2 ^ (irq - 8))) log
  unfolding pic_set_mask
  pic_set_mask-high irq log ge lt = ground arith

  -- A mask that differs at bit `i` at most goes to the master, or to the slave.
  write_low :
      (d i n v : ℕ) (log : PortLog)
      → Latch inportb
      → Started log
      → i < 8
      → ((j : ℕ)
          → j < 8
          → (bit j d ≡ (if j == i then v else bit j (inportb log pic0_addr_d))) × (d < 256))
      → (masked (outportb pic0_addr_d d log) n ≡ (if n == i then v else masked log n))
        × Started (outportb pic0_addr_d d log)
  write_low d i n v log k st li bits =
      let small = (bits 0 (omega arith)).1 in
      (
        masked-master d n log k st small
            ∙ low_line (λ j. bit j d) i n v (masked log n) li
                (λ l. rw (line_master log n l) (bits n l).0),
        Started.mask pic0_addr_d d log (inl refl) small st,
      )

  write_high :
      (d i n v : ℕ) (log : PortLog)
      → Latch inportb
      → Started log
      → 8 ≤ i
      → n < 16
      → ((j : ℕ)
          → j < 8
          → (bit j d ≡ (if j == i - 8 then v else bit j (inportb log pic1_addr_d))) × (d < 256))
      → (masked (outportb pic1_addr_d d log) n ≡ (if n == i then v else masked log n))
        × Started (outportb pic1_addr_d d log)
  write_high d i n v log k st li ln bits =
      let small = (bits 0 (omega arith)).1 in
      (
        masked-slave d n log k st small
            ∙ high_line (λ j. bit j d) i n v (masked log n) li
                (λ l. rw (line_slave log n l) (bits (n - 8) (omega arith)).0),
        Started.mask pic1_addr_d d log (inr refl) small st,
      )

  -- pic_set_mask disables the line `irq`, and leaves every other line of the sixteen as it was. The
  -- controllers are initialised, and hold the masks that are written to them.
  pub pic_set_mask-masked :
      (irq n : ℕ) (log : PortLog)
      → Latch inportb
      → Started log
      → irq < 16
      → n < 16
      → (masked (pic_set_mask inportb irq log) n ≡ (if n == irq then 1 else masked log n))
        × Started (pic_set_mask inportb irq log)
  pic_set_mask-masked irq n log k st li ln = elim (Bool-cases (ltb irq 8)) [
    | inl e ↦
        let lt : irq < 8 = ground arith in
        rw (pic_set_mask-low irq log lt) (
          write_low _ irq n 1 log k st lt
            (λ j l. bit-bit_or irq (inportb log pic0_addr_d) j lt (k.is_byte log pic0_addr_d) l))
    | inr e ↦
        let ge : 8 ≤ irq = ground arith in
        rw (pic_set_mask-high irq log ge li) (
          write_high _ irq n 1 log k st ge ln (λ j l.
            bit-bit_or (irq - 8) (inportb log pic1_addr_d) j (omega arith)
              (k.is_byte log pic1_addr_d) l))
  ]

  pic_clear_mask-master :
      (irq : ℕ) (log : PortLog)
      → irq < 16
      → pic_clear_mask inportb irq log
        ≡ outportb pic0_addr_d (bit_and (inportb log pic0_addr_d) (0xff - 2 ^ (irq % 8))) log
  unfolding pic_clear_mask
  pic_clear_mask-master irq log lt =
      let inside : ltb 15 irq ≡ false = ground arith in
      let send =
        λ (i : ℕ). outportb pic0_addr_d (bit_and (inportb log pic0_addr_d) (0xff - 2 ^ i)) log in
      elim (Bool-cases (ltb irq 8)) [
        | inl e ↦ rw inside (rw e (ap send (ground arith)))
        | inr e ↦ rw inside (rw e (ap send (ground arith)))
      ]

  -- pic_clear_mask enables a line of the master, for a number of 8 and more the one that is 8 below it,
  -- and leaves every other line of the sixteen as it was: no line of the slave is ever enabled. The
  -- controllers are initialised, and hold the masks that are written to them.
  pub pic_clear_mask-masked :
      (irq n : ℕ) (log : PortLog)
      → Latch inportb
      → Started log
      → irq < 16
      → (masked (pic_clear_mask inportb irq log) n ≡ (if n == irq % 8 then 0 else masked log n))
        × Started (pic_clear_mask inportb irq log)
  pic_clear_mask-masked irq n log k st li =
      let lt : irq % 8 < 8 = omega arith in
      rw (pic_clear_mask-master irq log li) (
        write_low _ (irq % 8) n 0 log k st lt (λ j l.
          bit-bit_and (irq % 8) (inportb log pic0_addr_d) j lt (k.is_byte log pic0_addr_d) l))

  -- pic_init disables all sixteen lines.
  pub pic_init-masked :
      (n : ℕ) (log : PortLog)
      → Latch inportb
      → n < 16
      → (masked (pic_init log) n ≡ 1) × Started (pic_init log)
  unfolding pic_init
  pic_init-masked n log k lt =
      let st = Started.icws log in
      let st1 = Started.mask pic0_addr_d 0xff (pic_icws log) (inl refl) (omega arith) st in
      (
        masked-slave 0xff n (outportb pic0_addr_d 0xff (pic_icws log)) k st1 (omega arith)
            ∙ rw (masked-master 0xff n (pic_icws log) k st (omega arith))
                (ground (arith, all_ones n, all_ones (n - 8))),
        Started.mask pic1_addr_d 0xff (outportb pic0_addr_d 0xff (pic_icws log)) (inr refl)
            (omega arith) st1,
      )
