-- ===== src/Kstring/Tests.antt =====
-- The theorems on the memory and string functions at a memory with the strings "ab" at 10 and "c"
-- at 20.
use elco_os.Base.{◌≡◌, refl, some, arith, if◌then◌else◌, ◌==◌}
use elco_os.Kstring.Memory.{Bytes, kmemmove}
use elco_os.Kstring.Memory.Copy.{kmemmove-copied}
use elco_os.Kstring.Text.{kstrlen}
use elco_os.Kstring.Text.Length.{IsString, kstrlen-IsString}

abbrev text : Bytes
text a = if a == 10 then 97 else if a == 11 then 98 else if a == 20 then 99 else 0

text-IsString : IsString text 10 2
text-IsString = record { ends = refl; chars = λ i hi. ground arith }

letter-IsString : IsString text 20 1
letter-IsString = record { ends = refl; chars = λ i hi. ground arith }

kmemmove-copied_example : kmemmove text 11 10 2 12 ≡ 98
kmemmove-copied_example = kmemmove-copied text 11 10 2 12

kstrlen-IsString_example : kstrlen 3 text 10 ≡ some 2
kstrlen-IsString_example = kstrlen-IsString 3 text 10 2 text-IsString (omega arith)
