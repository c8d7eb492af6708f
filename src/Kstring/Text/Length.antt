-- ===== src/Kstring/Text/Length.antt =====
-- Strings in memory, and the end that the loops find.
use elco_os.Base.{ℕ, zero, suc, ◌+◌, ◌-◌, ◌≡◌, ◌≢◌, ◌<◌, ap, ◌∙◌, false, some, arith, ◌==◌}
use elco_os.Kstring.Memory.{Bytes}
use elco_os.Kstring.Text.{end_of, kstrlen}

-- a string of `n` characters from `s` on
pub record IsString (m : Bytes) (s n : ℕ) : Type 0 where
  pub ends : m (s + n) ≡ 0
  pub chars : (i : ℕ) → i < n → m (s + i) ≢ 0

pub IsString-tail : (m : Bytes) (s n : ℕ) → IsString m s (suc n) → IsString m (s + 1) n
IsString-tail m s n t = record {
  ends = ap m {x = s + 1 + n} {y = s + suc n} (omega arith) ∙ t.ends;
  chars = λ i hi e.
      t.chars (suc i) (omega arith) (ap m {x = s + suc i} {y = s + 1 + i} (omega arith) ∙ e);
}

pub IsString-head : (m : Bytes) (s n : ℕ) → IsString m s (suc n) → (m s == 0) ≡ false
IsString-head m s n t =
    ground (arith, ap m {x = s} {y = s + 0} (omega arith), t.chars 0 (omega arith))

pub IsString-zero : (m : Bytes) (s : ℕ) → IsString m s 0 → m s ≡ 0
IsString-zero m s t = ap m {x = s} {y = s + 0} (omega arith) ∙ t.ends

pub end_of-IsString :
    (fuel : ℕ) (m : Bytes) (s n : ℕ) → IsString m s n → n < fuel → end_of fuel m s ≡ some (s + n)
unfolding end_of
end_of-IsString zero m s n t f = absurd (omega arith)
end_of-IsString (suc fuel) m s zero t f =
    rw (IsString-zero m s t) (ap some {x = s} {y = s + 0} (omega arith))
end_of-IsString (suc fuel) m s (suc n) t f = rw (IsString-head m s n t) (
    end_of-IsString fuel m (s + 1) n (IsString-tail m s n t) (omega arith)
    ∙ ap some {x = s + 1 + n} {y = s + suc n} (omega arith))

-- kstrlen gives the number of characters of a string; n + 1 rounds are enough.
pub kstrlen-IsString :
    (fuel : ℕ) (m : Bytes) (s n : ℕ) → IsString m s n → n < fuel → kstrlen fuel m s ≡ some n
unfolding kstrlen
kstrlen-IsString fuel m s n t f =
    rw (end_of-IsString fuel m s n t f) (ap some {x = s + n - s} {y = n} (omega arith))
