-- ===== src/Kstdio.antt =====
-- lib/libk/src/kstdio/: kprintf.c, kputs.c and kputchar.c. What goes to the callback of kputchar is a
-- list of bytes, the first one first. The arguments of a call are the words after the format; `none`
-- where an argument is missing, and where fuel runs out. A pointer does not wrap around.
pub mod Digits
pub mod Expand
mod Tests
use elco_os.Base.{
  ℕ, zero, suc, ◌+◌, ◌-◌, ◌/◌, ◌%◌, ◌^◌, Bool, true, false, ◌&&◌, ◌||◌, not, Option, none, some,
  ◌>>=◌, List, [], ◌∷◌, ◌++◌, length, if◌then◌else◌, ◌==◌, ltb, leb, upd,
}
use elco_os.Kstring.Memory.{Bytes}
use elco_os.Kstring.Text.{kstrlen}

-- print: the bytes from `p` on, as kputchar passes them on
unfoldable pub print : Bytes → (p length : ℕ) → List ℕ
print m p zero = []
print m p (suc n) = m p ∷ print m (p + 1) n

-- the cast to char
abbrev pub digit_char : ℕ → ℕ
digit_char d = (if ltb 9 d then b'a' + d - 10 else b'0' + d) % 256

-- The characters that are written at `s`. `digits` is an int that may fall below 0, where no test
-- tells it from 0.
unfoldable pub i_convert : ℕ → (val base digits : ℕ) → Option (List ℕ)
i_convert zero val base digits = none
i_convert (suc fuel) val base digits =
    let d = val % base in
    let v = val / base in
    let rest = i_convert fuel v base (digits - 1) in
    if not (v == 0) || ltb 1 digits
    then (rest >>= λ s. some (s ++ digit_char d ∷ []))
    else some (digit_char d ∷ [])

-- a value of unsigned long long has at most 64 digits
abbrev pub val_rounds : ℕ
val_rounds = 64

-- The characters of the buffer, whose number is the result.
unfoldable pub i_print : (val base : ℕ) → Option (List ℕ)
i_print val base = i_convert val_rounds val base 1

-- what was printed, and the count `written`
pub record Printed : Type 0 where
  pub out : List ℕ
  pub written : ℕ

-- print(..., amount), and written += amount
abbrev pub put : Printed → (chars : List ℕ) → (amount : ℕ) → Printed
put o chars amount = record { out = o.out ++ chars; written = (o.written + amount) % 2 ^ 32 }

-- written += i_print(val, base)
abbrev pub put_number : Printed → (val base : ℕ) → Option Printed
put_number o val base = i_print val base >>= λ s. some (put o s (length s))

-- (unsigned long long) i
abbrev pub widen : ℕ → ℕ
widen i = if ltb i (2 ^ 31) then i else i + (2 ^ 64 - 2 ^ 32)

-- the cases 'd' and 'i': `-i` of the least int is the least int
unfoldable pub put_signed : Printed → (i : ℕ) → Option Printed
put_signed o i =
    if leb (2 ^ 31) i
    then put_number (put o (b'-' ∷ []) 1) (widen ((2 ^ 32 - i) % 2 ^ 32)) 10
    else put_number o (widen i) 10

-- the labels of the switch in kprintf
pub data Label : Type 0 where
  char text signed unsigned hex octal percent other : Label

unfoldable pub label : ℕ → Label
label d =
    if d == b'c'
    then Label.char
    else if d == b's'
    then Label.text
    else if (d == b'd') || (d == b'i')
    then Label.signed
    else if d == b'u'
    then Label.unsigned
    else if (d == b'x') || (d == b'p')
    then Label.hex
    else if d == b'o'
    then Label.octal
    else if d == b'%'
    then Label.percent
    else Label.other

-- the switch behind '%', with the arguments that are left
unfoldable pub convert :
    ℕ → Bytes → Label → (d : ℕ) → (args : List ℕ) → Printed → Option (Printed × List ℕ)
convert fuel m Label.percent d args o = some (put o (d ∷ []) 1, args)
convert fuel m Label.other d args o = some (put (put o (b'%' ∷ []) 1) (d ∷ []) 1, args)
convert fuel m k d [] o = none
convert fuel m Label.char d (arg ∷ rest) o = some (put o (arg % 256 ∷ []) 1, rest)
convert fuel m Label.text d (arg ∷ rest) o =
    kstrlen fuel m arg >>= λ len. some (put o (print m arg len) len, rest)
convert fuel m Label.signed d (arg ∷ rest) o = put_signed o arg >>= λ o'. some (o', rest)
convert fuel m Label.unsigned d (arg ∷ rest) o = put_number o arg 10 >>= λ o'. some (o', rest)
convert fuel m Label.hex d (arg ∷ rest) o = put_number o arg 16 >>= λ o'. some (o', rest)
convert fuel m Label.octal d (arg ∷ rest) o = put_number o arg 8 >>= λ o'. some (o', rest)

-- `while (format[amount] && format[amount] != '%') amount++;`
unfoldable pub text_run : ℕ → Bytes → (format amount : ℕ) → Option ℕ
text_run zero m format amount = none
text_run (suc fuel) m format amount =
    let rest = text_run fuel m format (amount + 1) in
    let c = m (format + amount) in if not (c == 0) && not (c == b'%') then rest else some amount

unfoldable pub kprintf_loop :
    ℕ → (limit : ℕ) → Bytes → (format : ℕ) → (args : List ℕ) → Printed → Option Printed
kprintf_loop zero limit m format args o = none
kprintf_loop (suc fuel) limit m format args o =
    let d = m (format + 1) in
    let at_end = kprintf_loop fuel limit m (format + 1) args o in
    let converted =
      convert limit m (label d) d args o >>= λ r. kprintf_loop fuel limit m (format + 2) r.1 r.0 in
    let text = text_run limit m format 0 >>= λ amount.
    kprintf_loop fuel limit m (format + amount) args (put o (print m format amount) amount) in
    if m format == 0
    then some o
    else if m format == b'%'
    then (if d == 0 then at_end else converted)
    else text

-- What is printed, and the result. The loop over the format and the loops over a string run on `limit`.
unfoldable pub kprintf : (limit : ℕ) → Bytes → (format : ℕ) → (args : List ℕ) → Option Printed
kprintf limit m format args =
    kprintf_loop limit limit m format args (record { out = []; written = 0 })

-- kprintf("%s\n", string), where the format stands at `format`
unfoldable pub kputs : (limit : ℕ) → Bytes → (format string : ℕ) → Option Printed
kputs limit m format string = kprintf limit m format (string ∷ [])
