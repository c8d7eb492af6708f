-- ===== src/Kstdio/Expand/Meaning.antt =====
-- What kprintf is to print, as rules over the characters of the format and the arguments, apart from the
-- code: the text that `expand` computes follows them.
use elco_os.Base.{
  ℕ, ◌-◌, ◌%◌, ◌^◌, ◌≡◌, ◌≢◌, ◌<◌, ◌⊎◌, Option, some, List, [], ◌∷◌, ◌++◌, ◌==◌, ◌∉◌, none, has,
  if◌then◌else◌,
}
use elco_os.Kstdio.Digits.{Numeral}
use elco_os.Kstdio.Expand.{Argument, word, string}

-- the characters that name a conversion
abbrev pub conversions : List ℕ
conversions = b'%' ∷ b'c' ∷ b's' ∷ b'd' ∷ b'i' ∷ b'u' ∷ b'x' ∷ b'p' ∷ b'o' ∷ []

-- A '%' before the character `d` stands for a text, and leaves arguments. A word is read as the argument
-- says: a char, a signed decimal, or an unsigned number of base 10, 16 or 8. The least int has no
-- negation, and is shown as the '-' and the decimal of 2^64 - 2^31.
pub data Converts (d : ℕ) : List Argument → List ℕ → List Argument → Type 0 where
  percent : (args : List Argument) → d ≡ b'%' → Converts d args (b'%' ∷ []) args
  unknown : (args : List Argument) → d ∉ conversions → Converts d args (b'%' ∷ d ∷ []) args
  char : (w : ℕ) (args : List Argument) → d ≡ b'c' → Converts d (word w ∷ args) (w % 256 ∷ []) args
  text : (t : List ℕ) (args : List Argument) → d ≡ b's' → Converts d (string t ∷ args) t args
  positive :
      (w : ℕ) (s : List ℕ) (args : List Argument)
      → (d ≡ b'd') ⊎ (d ≡ b'i')
      → w < 2 ^ 31
      → Numeral 10 w 64 s
      → Converts d (word w ∷ args) s args
  negative :
      (w : ℕ) (s : List ℕ) (args : List Argument)
      → (d ≡ b'd') ⊎ (d ≡ b'i')
      → 2 ^ 31 < w
      → Numeral 10 (2 ^ 32 - w) 64 s
      → Converts d (word w ∷ args) (b'-' ∷ s) args
  least :
      (w : ℕ) (s : List ℕ) (args : List Argument)
      → (d ≡ b'd') ⊎ (d ≡ b'i')
      → w ≡ 2 ^ 31
      → Numeral 10 (2 ^ 64 - 2 ^ 31) 64 s
      → Converts d (word w ∷ args) (b'-' ∷ s) args
  unsigned :
      (w : ℕ) (s : List ℕ) (args : List Argument)
      → d ≡ b'u'
      → Numeral 10 w 64 s
      → Converts d (word w ∷ args) s args
  hex :
      (w : ℕ) (s : List ℕ) (args : List Argument)
      → (d ≡ b'x') ⊎ (d ≡ b'p')
      → Numeral 16 w 64 s
      → Converts d (word w ∷ args) s args
  octal :
      (w : ℕ) (s : List ℕ) (args : List Argument)
      → d ≡ b'o'
      → Numeral 8 w 64 s
      → Converts d (word w ∷ args) s args

-- A format with its arguments stands for a text. A '%' at the end is dropped.
pub data Expands : List ℕ → List Argument → List ℕ → Type 0 where
  ends : (args : List Argument) → Expands [] args []
  dropped : (c : ℕ) (args : List Argument) → c ≡ b'%' → Expands (c ∷ []) args []
  plain :
      (c : ℕ) (cs : List ℕ) (args : List Argument) (u : List ℕ)
      → c ≢ b'%'
      → Expands cs args u
      → Expands (c ∷ cs) args (c ∷ u)
  converted :
      (c d : ℕ) (cs : List ℕ) (args rest : List Argument) (t u : List ℕ)
      → c ≡ b'%'
      → Converts d args t rest
      → Expands cs rest u
      → Expands (c ∷ d ∷ cs) args (t ++ u)

-- the conversions that take a word
abbrev pub words : List ℕ
words = b'c' ∷ b'd' ∷ b'i' ∷ b'u' ∷ b'x' ∷ b'p' ∷ b'o' ∷ []

abbrev pub drop_word : List Argument → Option (List Argument)
drop_word [] = none
drop_word (word w ∷ args) = some args
drop_word (string t ∷ args) = none

abbrev pub drop_string : List Argument → Option (List Argument)
drop_string [] = none
drop_string (word w ∷ args) = none
drop_string (string t ∷ args) = some args

-- the arguments that are left behind a conversion, if there is one of its kind
abbrev pub takes : (d : ℕ) → List Argument → Option (List Argument)
takes d args =
    if has d words then drop_word args else if d == b's' then drop_string args else some args

-- Each conversion of the format has an argument of its kind.
abbrev pub Fits : List ℕ → List Argument → Type 0
Fits [] args = Unit {0}
Fits (c ∷ []) args = Unit {0}
Fits (c ∷ d ∷ cs) args =
    ((c ≢ b'%') × Fits (d ∷ cs) args)
    ⊎ ((c ≡ b'%') × (rest : List Argument) × (takes d args ≡ some rest) × Fits cs rest)
