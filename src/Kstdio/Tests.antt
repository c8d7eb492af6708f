-- ===== src/Kstdio/Tests.antt =====
-- The theorems on kprintf at a memory with the format "x=%d%%" at 100.
use elco_os.Base.{
  ℕ, ◌%◌, ◌^◌, length, inl, inr, ◌≡◌, refl, some, List, [], ◌∷◌, arith, if◌then◌else◌, ◌==◌,
}
use elco_os.Kstring.Memory.{Bytes}
use elco_os.Kstdio.{i_print, kprintf}
use elco_os.Kstdio.Digits.{Numeral, i_print-Numeral}
use elco_os.Kstdio.Expand.{word}
use elco_os.Kstdio.Expand.Meaning.{Expands}
use elco_os.Kstdio.Expand.Loop.{kprintf-Expands}

abbrev format : List ℕ
format = b'x' ∷ b'=' ∷ b'%' ∷ b'd' ∷ b'%' ∷ b'%' ∷ []

abbrev memory : Bytes
memory a =
    if a == 100
    then b'x'
    else if a == 101
    then b'='
    else if a == 102
    then b'%'
    else if a == 103
    then b'd'
    else if a == 104
    then b'%'
    else if a == 105
    then b'%'
    else 0

i_print-Numeral_example : (s : List ℕ) × (i_print 51966 16 ≡ some s) × Numeral 16 51966 64 s
i_print-Numeral_example = i_print-Numeral 51966 16 (omega arith) (omega arith) (omega arith)

kprintf-Expands_example :
    (t : List ℕ) × (kprintf 9 memory 100 (4294967254 ∷ [])
      ≡ some (record { out = t; written = length t % 2 ^ 32 }))
    × Expands format (word 4294967254 ∷ []) t
kprintf-Expands_example =
    kprintf-Expands 9 memory 100 (4294967254 ∷ []) (word 4294967254 ∷ []) format
      (
        refl,
        omega arith,
        (
          refl,
          omega arith,
          (refl, omega arith, (refl, omega arith, (refl, omega arith, (refl, omega arith, refl)))),
        ),
      )
      (refl, omega arith, tt) (omega arith)
      (inl (omega arith, inl (omega arith, inr (refl, [], refl, inr (refl, [], refl, tt)))))
