-- ===== src/I386/Display/Cells.antt =====
-- The entries of the display, by row and column.
use elco_os.Base.{
  ℕ, zero, suc, ◌+◌, ◌-◌, ◌*◌, ◌^◌, ◌≡◌, ◌≤◌, ◌<◌, ◌⊎◌, inl, inr, refl, ◌∙◌, ◌&&◌, arith,
  if◌then◌else◌, ◌==◌, ltb, leb, Bool-cases,
}
use elco_os.Kstring.Memory.{Bytes, kmemmove}
use elco_os.Kstring.Memory.Copy.{kmemmove-copied, same_byte}
use elco_os.I386.Display.{
  Display, make_vgaentry, make_color, store_entry, fill_entries, fill_rows, scroll_up,
}

-- the entry at an index of the buffer
abbrev pub entry_at : (buffer index : ℕ) → Bytes → ℕ
entry_at buffer index m = m (buffer + 2 * index) + 2 ^ 8 * m (buffer + 2 * index + 1)

-- the bytes outside the 2000 entries
abbrev pub Outside : (buffer a : ℕ) → Type 0
Outside buffer a = (a < buffer) ⊎ (buffer + 2 * (80 * 25) ≤ a)

-- `m'` has the bytes of `m` outside the buffer
abbrev pub KeepsRest : (buffer : ℕ) (m m' : Bytes) → Type 0
KeepsRest buffer m m' = (a : ℕ) → Outside buffer a → m' a ≡ m a

pub KeepsRest-trans :
    (buffer : ℕ) (m m1 m2 : Bytes)
    → KeepsRest buffer m m1
    → KeepsRest buffer m1 m2
    → KeepsRest buffer m m2
KeepsRest-trans buffer m m1 m2 f g = λ a out. g a out ∙ f a out

pub store_entry-entry_at :
    (buffer index v i : ℕ) (m : Bytes)
    → v < 2 ^ 16
    → entry_at buffer i (store_entry buffer index v m)
      ≡ (if i == index then v else entry_at buffer i m)
unfolding store_entry
store_entry-entry_at buffer index v i m lt = ground arith

pub store_entry-KeepsRest :
    (buffer index v : ℕ) (m : Bytes)
    → index < 80 * 25
    → KeepsRest buffer m (store_entry buffer index v m)
unfolding store_entry
store_entry-KeepsRest buffer index v m lt = λ a out. ground arith

pub fill_entries-entry_at :
    (n buffer index v i : ℕ) (m : Bytes)
    → v < 2 ^ 16
    → entry_at buffer i (fill_entries n buffer index v m)
      ≡ (if leb index i && ltb i (index + n) then v else entry_at buffer i m)
unfolding fill_entries
fill_entries-entry_at zero buffer index v i m lt = ground arith
fill_entries-entry_at (suc n) buffer index v i m lt =
    fill_entries-entry_at n buffer (index + 1) v i (store_entry buffer index v m) lt
    ∙ ground (arith, store_entry-entry_at buffer index v i m lt)

pub fill_entries-KeepsRest :
    (n buffer index v : ℕ) (m : Bytes)
    → index + n ≤ 80 * 25
    → KeepsRest buffer m (fill_entries n buffer index v m)
unfolding fill_entries
fill_entries-KeepsRest zero buffer index v m lt = λ a out. refl
fill_entries-KeepsRest (suc n) buffer index v m lt =
    KeepsRest-trans buffer m (store_entry buffer index v m) _
      (store_entry-KeepsRest buffer index v m (omega arith))
      (fill_entries-KeepsRest n buffer (index + 1) v (store_entry buffer index v m) (omega arith))

pub fill_rows-entry_at :
    (n buffer y v i : ℕ) (m : Bytes)
    → v < 2 ^ 16
    → entry_at buffer i (fill_rows n buffer y v m)
      ≡ (if leb (y * 80) i && ltb i ((y + n) * 80) then v else entry_at buffer i m)
unfolding fill_rows
fill_rows-entry_at zero buffer y v i m lt = ground arith
fill_rows-entry_at (suc n) buffer y v i m lt =
    fill_rows-entry_at n buffer (y + 1) v i (fill_entries 80 buffer (y * 80) v m) lt
    ∙ ground (arith, fill_entries-entry_at 80 buffer (y * 80) v i m lt)

pub fill_rows-KeepsRest :
    (n buffer y v : ℕ) (m : Bytes) → y + n ≤ 25 → KeepsRest buffer m (fill_rows n buffer y v m)
unfolding fill_rows
fill_rows-KeepsRest zero buffer y v m lt = λ a out. refl
fill_rows-KeepsRest (suc n) buffer y v m lt =
    KeepsRest-trans buffer m (fill_entries 80 buffer (y * 80) v m) _
      (fill_entries-KeepsRest 80 buffer (y * 80) v m (omega arith))
      (fill_rows-KeepsRest n buffer (y + 1) v (fill_entries 80 buffer (y * 80) v m) (omega arith))

abbrev moved : Bytes → (buffer : ℕ) → Bytes
moved m buffer = kmemmove m buffer (buffer + 2 * 80) (24 * 80 * 2)

moved_byte :
    (m : Bytes) (buffer a : ℕ)
    → moved m buffer a
      ≡ (if leb buffer a && ltb a (buffer + 2 * (24 * 80)) then m (a + 2 * 80) else m a)
moved_byte m buffer a =
    kmemmove-copied m buffer (buffer + 2 * 80) (24 * 80 * 2) a
    ∙ elim (Bool-cases (leb buffer a && ltb a (buffer + 2 * (24 * 80)))) [
      | inl e ↦ rw e (same_byte m (buffer + 2 * 80 + (a - buffer)) (a + 2 * 80) (ground arith))
      | inr e ↦ rw e refl
    ]

moved-entry_at :
    (m : Bytes) (buffer i : ℕ)
    → entry_at buffer i (moved m buffer)
      ≡ (if ltb i (24 * 80) then entry_at buffer (i + 80) m else entry_at buffer i m)
moved-entry_at m buffer i =
    let low = moved_byte m buffer (buffer + 2 * i) in
    let high = moved_byte m buffer (buffer + 2 * i + 1) in
    let low_from = same_byte m (buffer + 2 * i + 2 * 80) (buffer + 2 * (i + 80)) (omega arith) in
    let high_from =
      same_byte m (buffer + 2 * i + 1 + 2 * 80) (buffer + 2 * (i + 80) + 1) (omega arith) in
    ground (arith, low, high, low_from, high_from)

moved-KeepsRest : (m : Bytes) (buffer : ℕ) → KeepsRest buffer m (moved m buffer)
moved-KeepsRest m buffer = λ a out. ground (arith, moved_byte m buffer a)

pub make_vgaentry-bound : (c color : ℕ) → c < 256 → color < 256 → make_vgaentry c color < 2 ^ 16
unfolding make_vgaentry
make_vgaentry-bound c color lc lk = ground arith

pub make_color-bound : (fg bg : ℕ) → make_color fg bg < 256
unfolding make_color
make_color-bound fg bg = omega arith

-- the entries after the rows moved up
pub scroll_up-entry_at :
    (d : Display) (i : ℕ)
    → d.display_color < 256
    → i < 80 * 25
    → entry_at d.display_buffer i (scroll_up d).memory ≡ (
        if ltb i (24 * 80)
        then entry_at d.display_buffer (i + 80) d.memory
        else make_vgaentry b' ' d.display_color)
unfolding scroll_up
scroll_up-entry_at d i lk li =
    fill_entries-entry_at 80 d.display_buffer (24 * 80) (make_vgaentry b' ' d.display_color) i
      (moved d.memory d.display_buffer) (make_vgaentry-bound b' ' d.display_color (omega arith) lk)
    ∙ ground (arith, moved-entry_at d.memory d.display_buffer i)

pub scroll_up-KeepsRest : (d : Display) → KeepsRest d.display_buffer d.memory (scroll_up d).memory
unfolding scroll_up
scroll_up-KeepsRest d =
    KeepsRest-trans d.display_buffer d.memory (moved d.memory d.display_buffer) _
      (moved-KeepsRest d.memory d.display_buffer)
      (fill_entries-KeepsRest 80 d.display_buffer (24 * 80) (make_vgaentry b' ' d.display_color)
        (moved d.memory d.display_buffer) (omega arith))
