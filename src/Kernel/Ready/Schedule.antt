-- ===== src/Kernel/Ready/Schedule.antt =====
-- scheduler of task.c: the choice of the next task.
use elco_os.Base.{
  Bool-cases, if◌then◌else◌, ℕ, zero, suc, ◌+◌, ◌≡◌, ◌≤◌, ◌<◌, ◌⊎◌, inl, inr, refl, true, false,
  List, [], ◌∷◌, arith, eq-cases, ==_iff,
}
use elco_os.Chain.{Ptr, null, Chain-null, Chain-start}
use elco_os.Kernel.State.{Kernel}
use elco_os.Kernel.Ready.{scheduler, first_ready}
use elco_os.Kernel.Ready.Inv.{Queues}

-- the head of the first nonempty queue among the priorities from `i` on, or the idle task
abbrev pub Chosen : (ℕ → List Ptr) → ℕ → ℕ → Ptr → Ptr → Type 0
Chosen qs i n idle next =
    ((p : ℕ) × (xs : List Ptr) × (i ≤ p)
      × (p < i + n)
      × (qs p ≡ next ∷ xs)
      × ((q : ℕ) → i ≤ q → q < p → qs q ≡ []))
    ⊎ (((q : ℕ) → i ≤ q → q < i + n → qs q ≡ []) × (next ≡ idle))

-- one more empty queue in front
empty_before :
    (qs : ℕ → List Ptr) (i p : ℕ)
    → qs i ≡ []
    → ((q : ℕ) → suc i ≤ q → q < p → qs q ≡ [])
    → (q : ℕ) → i ≤ q
    → q < p
    → qs q ≡ []
empty_before qs i p e before q lo hi = elim (eq-cases q i) [
  | inl same ↦ rw ((==_iff q i).0 same) e
  | inr ne ↦ before q (ground arith) hi
]

first_ready-Chosen :
    (n i : ℕ) (k : Kernel) (qs : ℕ → List Ptr)
    → Queues k qs
    → Chosen qs i n k.idle_task (first_ready n i k)
unfolding first_ready
first_ready-Chosen zero i k qs r = inr (λ q lo hi. absurd (omega arith), refl)
first_ready-Chosen (suc n) i k qs r = elim (eq-cases (k.queue_head i) null) [
  | inl e ↦
      let nil : qs i ≡ [] = Chain-null _ (k.queue_head i) (qs i) (r i).chain ((==_iff _ _).0 e) in
      rw e (elim (first_ready-Chosen n (suc i) k qs r) [
        | inl (p, xs, lo, hi, q, before) ↦
            inl (p, xs, omega arith, omega arith, q, empty_before qs i p nil before)
        | inr (empty, idle) ↦
            inr (λ q lo hi. empty_before qs i (suc i + n) nil empty q lo (omega arith), idle)
      ])
  | inr ne ↦
      let (ys, e) = Chain-start _ (k.queue_head i) (qs i) (r i).chain (ground arith) in
      rw ne (inl (i, ys, omega arith, omega arith, e, λ q lo hi. absurd (omega arith)))
]

-- When a choice is asked for, the scheduler takes the first task of the highest nonempty priority
-- (0 to 16), or the idle task if all are empty, and clears the request; it changes nothing else.
-- Without a request it changes nothing.
pub scheduler-Chosen :
    (k : Kernel) (qs : ℕ → List Ptr)
    → Queues k qs
    → (let k' = scheduler k in
        ((k.reschedule_needed ≡ false) × (k' ≡ k))
        ⊎ ((k.reschedule_needed ≡ true)
            × Chosen qs 0 17 k.idle_task k'.next_task
            × (k' ≡ record k { reschedule_needed = false; next_task = k'.next_task })))
unfolding scheduler
scheduler-Chosen k qs r = elim (Bool-cases k.reschedule_needed) [
  | inl e ↦ rw (e, if◌then◌else◌) (inr (refl, first_ready-Chosen 17 0 k qs r, refl))
  | inr e ↦ rw (e, if◌then◌else◌) (inl (refl, refl))
]
