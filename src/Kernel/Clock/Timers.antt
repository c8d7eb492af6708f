-- ===== src/Kernel/Clock/Timers.antt =====
-- The sleeping tasks as a list, sorted by the tick at which they wake.
use elco_os.Base.{
  ℕ, ◌≡◌, ◌≤◌, false, List, [], ◌∷◌, arith, ◌∈◌, length, DistinctIn, length-DistinctIn,
  if◌then◌else◌, ◌==◌, ltb, ap,
}
use elco_os.Chain.{Ptr, Chain, Chain-frame, Chain-DistinctIn}
use elco_os.Kernel.State.{Task, Kernel, task_count}
use elco_os.Kernel.Ready.Inv.{SameButQueues}

-- the link of the list of sleeping tasks
abbrev pub timer_link : Kernel → Ptr → Ptr
timer_link k p = (k.task p).timer_next

abbrev pub expire : Kernel → Ptr → ℕ
expire k p = (k.task p).timer_expire

-- no entry wakes before one in front of it
abbrev pub IsSorted : (Ptr → ℕ) → List Ptr → Type 0
IsSorted f [] = Unit {0}
IsSorted f (x ∷ []) = Unit {0}
IsSorted f (x ∷ y ∷ ys) = (f x ≤ f y) × IsSorted f (y ∷ ys)

-- The tasks `xs` sleep, the next to wake first.
pub record Timers (k : Kernel) (xs : List Ptr) : Type 0 where
  pub chain : Chain (timer_link k) k.next_timer_event xs
  pub sorted : IsSorted (expire k) xs
  pub in_table : (a : Ptr) → a ∈ xs → a ≤ task_count

pub Timers-DistinctIn : (k : Kernel) (xs : List Ptr) → Timers k xs → DistinctIn task_count xs
Timers-DistinctIn k xs t =
    Chain-DistinctIn task_count (timer_link k) k.next_timer_event xs t.chain t.in_table

pub length-Timers : (k : Kernel) (xs : List Ptr) → Timers k xs → length xs ≤ task_count
length-Timers k xs t = length-DistinctIn task_count xs (Timers-DistinctIn k xs t)

pub IsSorted-frame :
    (f g : Ptr → ℕ) (xs : List Ptr)
    → ((a : Ptr) → a ∈ xs → g a ≡ f a)
    → IsSorted f xs
    → IsSorted g xs
IsSorted-frame f g [] same s = tt
IsSorted-frame f g (x ∷ []) same s = tt
IsSorted-frame f g (x ∷ y ∷ ys) same (le, s) =
    (ground (arith, same x, same y), IsSorted-frame f g (y ∷ ys) (λ a i. same a (ground arith)) s)

pub IsSorted-tail : (f : Ptr → ℕ) (x : Ptr) (xs : List Ptr) → IsSorted f (x ∷ xs) → IsSorted f xs
IsSorted-tail f x [] s = tt
IsSorted-tail f x (y ∷ ys) s = s.1

-- `t`, to wake at `ticks`, put before the first entry that wakes later
abbrev pub insert : (Ptr → ℕ) → ℕ → Ptr → List Ptr → List Ptr
insert f ticks t [] = t ∷ []
insert f ticks t (x ∷ xs) = if ltb ticks (f x) then t ∷ x ∷ xs else x ∷ insert f ticks t xs

pub insert-IsSorted :
    (f : Ptr → ℕ) (ticks : ℕ) (t : Ptr) (xs : List Ptr)
    → f t ≡ ticks
    → IsSorted f xs
    → IsSorted f (insert f ticks t xs)
insert-IsSorted f ticks t [] e s = tt
insert-IsSorted f ticks t (x ∷ []) e s = ground arith
insert-IsSorted f ticks t (x ∷ y ∷ ys) e s =
    ground (arith, insert-IsSorted f ticks t (y ∷ ys) e s.1)

pub has-insert :
    (f : Ptr → ℕ) (ticks : ℕ) (t a : Ptr) (xs : List Ptr)
    → (a == t) ≡ false
    → a ∈ insert f ticks t xs
    → a ∈ xs
has-insert f ticks t a [] ne i = ground arith
has-insert f ticks t a (x ∷ xs) ne i = ground (arith, has-insert f ticks t a xs)

-- Writes to the ready queues leave the sleeping tasks alone.
pub Timers-SameButQueues :
    (k k' : Kernel) (xs : List Ptr) → SameButQueues k k' → Timers k xs → Timers k' xs
Timers-SameButQueues k k' xs s t = record {
  chain = rw (ap (λ (u : Kernel). u.next_timer_event) s.others) (
      Chain-frame (timer_link k) (timer_link k') k.next_timer_event xs t.chain
        (λ a i. ap (λ (u : Task). u.timer_next) (s.tasks a)));
  sorted =
      IsSorted-frame (expire k) (expire k') xs
        (λ a i. ap (λ (u : Task). u.timer_expire) (s.tasks a)) t.sorted;
  in_table = t.in_table;
}
