-- ===== src/Kernel/Clock/Tick.antt =====
-- What timer_callback of clock.c promises.
use mathlib.Core.Path.{fun_ext, subst}
use elco_os.Base.{
  ℕ, zero, suc, ◌+◌, ◌-◌, ◌%◌, ◌^◌, ◌≡◌, ◌≢◌, ◌≤◌, ◌<◌, inl, inr, refl, Bool, true, false,
  Bool-cases, some, List, [], ◌∷◌, ◌++◌, ◌&&◌, arith, ◌∈◌, ◌∉◌, has-append, length, if◌then◌else◌,
  ◌==◌, leb, upd, ap, ◌∙◌, not-mem-erase, erase,
}
use elco_os.Chain.{Ptr, null, Chain-frame, not-mem_of_eq}
use elco_os.Kernel.State.{Task, Kernel, put_task, task_count}
use elco_os.Kernel.Ready.{unblock_task}
use elco_os.Kernel.Ready.Inv.{Queues, Queues-transfer}
use elco_os.Kernel.Ready.Refine.{enqueue_task-append, preempt-rotate}
use elco_os.Kernel.Clock.{wake_expired, pop_timer, count_slice, timer_callback}
use elco_os.Kernel.Clock.Timers.{
  Timers, timer_link, expire, IsSorted-frame, IsSorted-tail, Timers-SameButQueues, length-Timers,
}

abbrev pub prio_of : Kernel → Ptr → ℕ
prio_of k a = (k.task a).priority

-- The ready queues after the sleepers that are due were appended, in the order in which they slept.
abbrev pub release : (Ptr → ℕ) → (Ptr → ℕ) → ℕ → List Ptr → (ℕ → List Ptr) → ℕ → List Ptr
release prio wakes now [] qs = qs
release prio wakes now (x ∷ xs) qs =
    if leb (wakes x) now
    then release prio wakes now xs (upd qs (prio x) (qs (prio x) ++ x ∷ []))
    else qs

-- the sleepers behind the last one that is due
abbrev pub asleep : (Ptr → ℕ) → ℕ → List Ptr → List Ptr
asleep wakes now [] = []
asleep wakes now (x ∷ xs) = if leb (wakes x) now then asleep wakes now xs else x ∷ xs

-- no sleeper is in a ready queue
abbrev pub Apart : List Ptr → (ℕ → List Ptr) → Type 0
Apart xs qs = (a : Ptr) (p : ℕ) → a ∈ xs → a ∉ qs p

Apart-tail :
    (x : Ptr) (xs : List Ptr) (qs : ℕ → List Ptr) (prio : ℕ)
    → x ∉ xs
    → Apart (x ∷ xs) qs
    → Apart xs (upd qs prio (qs prio ++ x ∷ []))
Apart-tail x xs qs prio out apart a p i =
    ground
      (arith, apart a p, apart a prio, has-append a (qs prio) (x ∷ []), not-mem_of_eq x a xs out i)

pop_timer-Timers :
    (k : Kernel) (x : Ptr) (xs : List Ptr) → Timers k (x ∷ xs) → Timers (pop_timer k) xs
unfolding pop_timer
pop_timer-Timers k x xs t = record {
  chain =
      Chain-frame (timer_link k) (timer_link (pop_timer k)) (timer_link k k.next_timer_event) xs
        (rw t.chain.0 t.chain.3)
        (λ a i. ground (arith, t.chain.0, not-mem_of_eq x a xs t.chain.2 i));
  sorted =
      IsSorted-frame (expire k) (expire (pop_timer k)) xs (λ a i. ground arith)
        (IsSorted-tail (expire k) x xs t.sorted);
  in_table = λ a i. t.in_table a (ground arith);
}

pop_timer-Queues : (k : Kernel) (qs : ℕ → List Ptr) → Queues k qs → Queues (pop_timer k) qs
unfolding pop_timer
pop_timer-Queues k qs q =
    Queues-transfer k (pop_timer k) qs q refl refl (λ a. ground arith) (λ a. ground arith)

pop_timer-fields :
    (k : Kernel) (a : Ptr)
    → (prio_of (pop_timer k) a ≡ prio_of k a) × (expire (pop_timer k) a ≡ expire k a)
unfolding pop_timer
pop_timer-fields k a = (ground arith, ground arith)

pop_timer-rest :
    (k : Kernel)
    → ((pop_timer k).clock_ticks ≡ k.clock_ticks) × ((pop_timer k).current_task ≡ k.current_task)
unfolding pop_timer
pop_timer-rest k = (refl, refl)

-- what waking the due sleepers `xs` leaves
record Woken (k : Kernel) (xs : List Ptr) (qs : ℕ → List Ptr) (k' : Kernel) : Type 0 where
  timers : Timers k' (asleep (expire k) k.clock_ticks xs)
  queues : Queues k' (release (prio_of k) (expire k) k.clock_ticks xs qs)
  ticks : k'.clock_ticks ≡ k.clock_ticks
  current : k'.current_task ≡ k.current_task

-- the first sleeper is due and was woken: `k2` is the state after that
Woken-cons :
    (k k2 k' : Kernel) (x : Ptr) (xs : List Ptr) (qs : ℕ → List Ptr)
    → leb (expire k x) k.clock_ticks ≡ true
    → prio_of k2 ≡ prio_of k
    → expire k2 ≡ expire k
    → k2.clock_ticks ≡ k.clock_ticks
    → k2.current_task ≡ k.current_task
    → Woken k2 xs (upd qs (prio_of k x) (qs (prio_of k x) ++ x ∷ [])) k'
    → Woken k (x ∷ xs) qs k'
Woken-cons k k2 k' x xs qs due prio wakes ticks current w = record {
  timers = rw due (rw (wakes, ticks) at w.timers);
  queues = rw due (rw (prio, wakes, ticks) at w.queues);
  ticks = w.ticks ∙ ticks;
  current = w.current ∙ current;
}

wake_expired-Woken :
    (fuel : ℕ) (k : Kernel) (xs : List Ptr) (qs : ℕ → List Ptr)
    → Timers k xs
    → Queues k qs
    → Apart xs qs
    → length xs < fuel
    → (k' : Kernel) × (wake_expired fuel k ≡ some k') × Woken k xs qs k'
unfolding wake_expired unblock_task
wake_expired-Woken zero k xs qs t q apart f = absurd (omega arith)
wake_expired-Woken (suc fuel) k [] qs t q apart f =
    (k, ground (arith, t.chain), record { timers = t; queues = q; ticks = refl; current = refl })
wake_expired-Woken (suc fuel) k (x ∷ xs) qs t q apart f =
    elim (Bool-cases (leb (expire k x) k.clock_ticks)) [
      | inl due ↦
          let k1 = pop_timer k in
          let fields = pop_timer-fields k in
          let out : x ∉ qs (prio_of k1 x) = apart x (prio_of k1 x) (ground arith) in
          let (k2, run, q2, r2, same) =
            enqueue_task-append k1 x qs t.chain.1 (t.in_table x (ground arith))
              (pop_timer-Queues k qs q) out in
          let t2 : Timers k2 xs = Timers-SameButQueues k1 k2 xs same (pop_timer-Timers k x xs t) in
          let p2 : prio_of k2 ≡ prio_of k =
            fun_ext (λ a. ap (λ (u : Task). u.priority) (same.tasks a) ∙ (fields a).0) in
          let e2 : expire k2 ≡ expire k =
            fun_ext (λ a. ap (λ (u : Task). u.timer_expire) (same.tasks a) ∙ (fields a).1) in
          let q3 : Queues k2 (upd qs (prio_of k x) (qs (prio_of k x) ++ x ∷ [])) =
            rw (fields x).0 at q2 in
          let (k3, run3, w) =
            wake_expired-Woken fuel k2 xs (upd qs (prio_of k x) (qs (prio_of k x) ++ x ∷ [])) t2 q3
              (Apart-tail x xs qs (prio_of k x) t.chain.2 apart) (omega arith) in
          (
            k3,
            ground (arith, t.chain.0, t.chain.1, run, run3),
            Woken-cons k k2 k3 x xs qs due p2 e2
                (ap (λ (u : Kernel). u.clock_ticks) same.others ∙ (pop_timer-rest k).0)
                (ap (λ (u : Kernel). u.current_task) same.others ∙ (pop_timer-rest k).1) w,
          )
      | inr later ↦ (
        k,
        ground (arith, t.chain.0, t.chain.1),
        record { timers = rw later t; queues = rw later q; ticks = refl; current = refl },
      )
    ]

-- the time slice of the current task ends with this tick
abbrev pub slice_over : Task → Bool
slice_over t = t.preemptible && (t.ticks_left + 2 ^ 16 - 1) % 2 ^ 16 == 0

-- the ready queues after the current task was counted
abbrev pub sliced : Kernel → (ℕ → List Ptr) → ℕ → List Ptr
sliced k qs =
    let cur = k.current_task in
    if slice_over (k.task cur)
    then upd qs (prio_of k cur) (erase cur (qs (prio_of k cur)) ++ cur ∷ [])
    else qs

-- what counting the slice leaves
record Counted (k : Kernel) (xs : List Ptr) (qs : ℕ → List Ptr) (k' : Kernel) : Type 0 where
  timers : Timers k' xs
  queues : Queues k' (sliced k qs)
  prio : prio_of k' ≡ prio_of k
  wakes : expire k' ≡ expire k
  ticks : k'.clock_ticks ≡ k.clock_ticks

-- a write of the slice of the current task
abbrev counted : Kernel → ℕ → Kernel
counted k left = put_task k k.current_task (record (k.task k.current_task) { ticks_left = left })

counted-Timers : (k : Kernel) (left : ℕ) (xs : List Ptr) → Timers k xs → Timers (counted k left) xs
counted-Timers k left xs t = record {
  chain =
      Chain-frame (timer_link k) (timer_link (counted k left)) k.next_timer_event xs t.chain
        (λ a i. ground arith);
  sorted = IsSorted-frame (expire k) (expire (counted k left)) xs (λ a i. ground arith) t.sorted;
  in_table = t.in_table;
}

counted-Queues :
    (k : Kernel) (left : ℕ) (qs : ℕ → List Ptr) → Queues k qs → Queues (counted k left) qs
counted-Queues k left qs q =
    Queues-transfer k (counted k left) qs q refl refl (λ a. ground arith) (λ a. ground arith)

counted-prio : (k : Kernel) (left : ℕ) → prio_of (counted k left) ≡ prio_of k
counted-prio k left = fun_ext (λ a. ground arith)

counted-expire : (k : Kernel) (left : ℕ) → expire (counted k left) ≡ expire k
counted-expire k left = fun_ext (λ a. ground arith)

module _ (k : Kernel) (xs : List Ptr) (qs : ℕ → List Ptr) (ne : k.current_task ≢ null)
    (small : k.current_task ≤ task_count) (t : Timers k xs) (q : Queues k qs) where
  count_slice-over :
      slice_over (k.task k.current_task) ≡ true
      → (k' : Kernel) × (count_slice k ≡ some k') × Counted k xs qs k'
  unfolding count_slice
  count_slice-over over =
      let cur = k.current_task in
      let left = (k.task cur).quantum in
      let k1 = counted k left in
      let (k2, run, q2, r2, same) = preempt-rotate k1 qs ne small (counted-Queues k left qs q) in
      (
        k2,
        ground (arith, run),
        record {
          timers = Timers-SameButQueues k1 k2 xs same (counted-Timers k left xs t);
          queues = rw over (
              subst (λ (p : ℕ). Queues k2 (upd qs p (erase cur (qs p) ++ cur ∷ [])))
                (ap (λ (f : Ptr → ℕ). f cur) (counted-prio k left)) q2);
          prio = fun_ext (λ a. ap (λ (u : Task). u.priority) (same.tasks a)) ∙ counted-prio k left;
          wakes =
              fun_ext (λ a. ap (λ (u : Task). u.timer_expire) (same.tasks a))
              ∙ counted-expire k left;
          ticks = ap (λ (u : Kernel). u.clock_ticks) same.others;
        },
      )

  count_slice-running :
      slice_over (k.task k.current_task) ≡ false
      → (k' : Kernel) × (count_slice k ≡ some k') × Counted k xs qs k'
  unfolding count_slice
  count_slice-running going =
      let left = ((k.task k.current_task).ticks_left + 2 ^ 16 - 1) % 2 ^ 16 in
      elim (Bool-cases (k.task k.current_task).preemptible) [
        | inl p ↦ (
          counted k left,
          ground arith,
          record {
            timers = counted-Timers k left xs t;
            queues = rw going (counted-Queues k left qs q);
            prio = counted-prio k left;
            wakes = counted-expire k left;
            ticks = refl;
          },
        )
        | inr p ↦ (
          k,
          ground arith,
          record { timers = t; queues = rw going q; prio = refl; wakes = refl; ticks = refl },
        )
      ]

  count_slice-Counted : (k' : Kernel) × (count_slice k ≡ some k') × Counted k xs qs k'
  count_slice-Counted = elim (Bool-cases (slice_over (k.task k.current_task))) [
    | inl over ↦ count_slice-over over
    | inr going ↦ count_slice-running going
  ]

Apart-sliced :
    (k : Kernel) (xs : List Ptr) (qs : ℕ → List Ptr)
    → k.current_task ∉ xs
    → Apart xs qs
    → Apart xs (sliced k qs)
Apart-sliced k xs qs awake apart a p i =
    let cur = k.current_task in
    let prio = prio_of k cur in
    ground (
      arith,
      apart a p,
      apart a prio,
      not-mem-erase cur a (qs prio),
      has-append a (erase cur (qs prio)) (cur ∷ []),
      not-mem_of_eq cur a xs awake i,
    )

-- the state with the tick counted
abbrev ticked : Kernel → Kernel
ticked k = record k { clock_ticks = (k.clock_ticks + 1) % 2 ^ 32 }

-- A timer tick returns: the tick is counted (mod 2^32); if it ends the time slice of the current
-- task, that task goes to the end of its ready queue; then exactly the sleepers in front that are
-- due at the new tick leave the list of sleepers, in order, each to the end of its ready queue.
pub timer_callback-release :
    (k : Kernel) (xs : List Ptr) (qs : ℕ → List Ptr)
    → k.current_task ≢ null
    → k.current_task ≤ task_count
    → k.current_task ∉ xs
    → Timers k xs
    → Queues k qs
    → Apart xs qs
    → let now = (k.clock_ticks + 1) % 2 ^ 32 in
      (k' : Kernel) × (timer_callback k ≡ some k')
      × (k'.clock_ticks ≡ now)
      × Timers k' (asleep (expire k) now xs)
      × Queues k' (release (prio_of k) (expire k) now xs (sliced k qs))
unfolding timer_callback
timer_callback-release k xs qs ne small awake t q apart =
    let k0 = ticked k in
    let t0 : Timers k0 xs = record { chain = t.chain; sorted = t.sorted; in_table = t.in_table } in
    let q0 : Queues k0 qs = Queues-transfer k k0 qs q refl refl (λ a. refl) (λ a. refl) in
    let (k1, run1, c) = count_slice-Counted k0 xs qs ne small t0 q0 in
    let (k2, run2, w) =
      wake_expired-Woken (suc task_count) k1 xs (sliced k qs) c.timers c.queues
        (Apart-sliced k xs qs awake apart) (omega (arith, length-Timers k xs t)) in
    (
      k2,
      ground (arith, run1, run2),
      w.ticks ∙ c.ticks,
      rw (c.wakes, c.ticks) at w.timers,
      rw (c.prio, c.wakes, c.ticks) at w.queues,
    )
