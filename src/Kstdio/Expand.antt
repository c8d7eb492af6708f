-- ===== src/Kstdio/Expand.antt =====
-- The text of a format, computed without memory, and kprintf against it. The rules for that text, apart
-- from the code, are in Kstdio/Expand/Meaning.antt.
pub mod Convert
pub mod Text
pub mod Meaning
pub mod Sound
pub mod Chars
pub mod Loop
use mathlib.Core.Path.{subst}
use mathlib.Core.List.{append_assoc, append-nil}
use elco_os.Base.{
  ℕ, zero, suc, ◌+◌, ◌-◌, ◌*◌, ◌/◌, ◌%◌, ◌^◌, ◌≡◌, ◌≢◌, ◌≤◌, ◌<◌, ◌⊎◌, inl, inr, refl, sym, ap, ◌∙◌,
  Bool, true, false, ◌||◌, ◌&&◌, not, Option, none, some, ◌>>=◌, List, [], ◌∷◌, ◌++◌, length,
  length-append, arith, if◌then◌else◌, ◌==◌, ltb, leb, Bool-cases, ==_iff,
}
use elco_os.Kstring.Memory.{Bytes}
use elco_os.Kstring.Text.{kstrlen}
use elco_os.Kstring.Text.Length.{IsString, kstrlen-IsString}
use elco_os.Kstdio.{
  Label, label, Printed, print, i_print, put, put_number, put_signed, widen, convert, text_run,
  kprintf_loop, kprintf,
}

-- an argument: a word, or the characters of a string
pub data Argument : Type 0 where
  word : ℕ → Argument
  string : List ℕ → Argument

-- a signed decimal; the least int has no negation, and is widened as it is
unfoldable pub signed_text : ℕ → Option (List ℕ)
signed_text i =
    if ltb i (2 ^ 31)
    then i_print i 10
    else (i_print (if i == 2 ^ 31 then 2 ^ 64 - 2 ^ 31 else 2 ^ 32 - i) 10 >>= λ s. some (b'-' ∷ s))

-- the text, if there is one, and the arguments that are left
abbrev with_rest : List Argument → Option (List ℕ) → Option (List ℕ × List Argument)
with_rest rest t = t >>= λ u. some (u, rest)

-- the text of one conversion, and the arguments that are left
unfoldable pub conversion : Label → (d : ℕ) → List Argument → Option (List ℕ × List Argument)
conversion Label.percent d args = some (d ∷ [], args)
conversion Label.other d args = some (b'%' ∷ d ∷ [], args)
conversion k d [] = none
conversion Label.text d (string t ∷ rest) = some (t, rest)
conversion k d (string t ∷ rest) = none
conversion Label.text d (word w ∷ rest) = none
conversion Label.char d (word w ∷ rest) = some (w % 256 ∷ [], rest)
conversion Label.signed d (word w ∷ rest) = with_rest rest (signed_text w)
conversion Label.unsigned d (word w ∷ rest) = with_rest rest (i_print w 10)
conversion Label.hex d (word w ∷ rest) = with_rest rest (i_print w 16)
conversion Label.octal d (word w ∷ rest) = with_rest rest (i_print w 8)

-- the text of a format, character by character; a '%' at the end is dropped
unfoldable pub expand : (format : List ℕ) → List Argument → Option (List ℕ)
expand [] args = some []
expand (c ∷ []) args = if c == b'%' then some [] else some (c ∷ [])
expand (c ∷ d ∷ cs) args =
    let converted = conversion (label d) d args >>= λ r. expand cs r.1 >>= λ u. some (r.0 ++ u) in
    let plain = expand (d ∷ cs) args >>= λ u. some (c ∷ u) in if c == b'%' then converted else plain

-- these characters, none of them the null character, stand at `p`, and the null character behind them
abbrev pub Holds : Bytes → (p : ℕ) → List ℕ → Type 0
Holds m p [] = m p ≡ 0
Holds m p (c ∷ cs) = (m p ≡ c) × (c ≢ 0) × Holds m (p + 1) cs

-- the words of a call pass these arguments
abbrev pub Passed : (limit : ℕ) → Bytes → List ℕ → List Argument → Type 0
Passed limit m [] [] = Unit {0}
Passed limit m (w ∷ ws) (word a ∷ args) = (w ≡ a) × (w < 2 ^ 32) × Passed limit m ws args
Passed limit m (w ∷ ws) (string t ∷ args) =
    Holds m w t × (length t < limit) × Passed limit m ws args
Passed limit m ws args = true ≡ false

-- `o'` is `o` with the text `t` printed
pub record Appends (o : Printed) (t : List ℕ) (o' : Printed) : Type 0 where
  pub printed : o'.out ≡ o.out ++ t
  pub counted : o'.written ≡ (o.written + length t) % 2 ^ 32

Appends-trans :
    (o o1 o2 : Printed) (t u : List ℕ) → Appends o t o1 → Appends o1 u o2 → Appends o (t ++ u) o2
Appends-trans o o1 o2 t u a b = record {
  printed = b.printed ∙ ap (λ l. l ++ u) a.printed ∙ append_assoc o.out t u;
  counted = omega (arith, a.counted, b.counted, length-append t u);
}

put-Appends : (o : Printed) (t : List ℕ) → Appends o t (put o t (length t))
put-Appends o t = record { printed = refl; counted = refl }
