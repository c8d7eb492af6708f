-- ===== src/Kernel/Tasks/Create.antt =====
-- What create_kernel_task and find_task of task.c promise.
use elco_os.Base.{
  ℕ, zero, suc, ◌+◌, ◌^◌, ◌≡◌, ◌≢◌, ◌≤◌, ◌<◌, ◌⊎◌, inl, inr, refl, true, false, arith, eq-cases,
  ==_iff, ◌==◌, if◌then◌else◌, leb, ltb, ◌||◌, leb, ltb, ◌||◌,
}
use elco_os.Chain.{Ptr, null}
use elco_os.Kernel.State.{Kernel, pid_no_task, pid_all_tasks, task_count, lowest_task_priority}
use elco_os.Kernel.Tasks.{find_loop, find_task, create_kernel_task, set_up}

-- `r` is the first entry behind index `i`, among `n`, that has the pid, or NULL if none has it
abbrev pub FirstWith : Kernel → ℕ → ℕ → ℕ → Ptr → Type 0
FirstWith k pid i n r =
    ((r ≡ null) × ((a : Ptr) → i < a → a ≤ i + n → (k.task a).pid ≢ pid))
    ⊎ ((i < r)
        × (r ≤ i + n)
        × ((k.task r).pid ≡ pid)
        × ((a : Ptr) → i < a → a < r → (k.task a).pid ≢ pid))

-- one more entry without the pid in front
no_pid_before :
    (k : Kernel) (pid i m : ℕ)
    → (k.task (suc i)).pid ≢ pid
    → ((a : Ptr) → suc i < a → a < m → (k.task a).pid ≢ pid)
    → (a : Ptr) → i < a
    → a < m
    → (k.task a).pid ≢ pid
no_pid_before k pid i m ne before a lo hi = elim (eq-cases a (suc i)) [
  | inl e ↦ rw ((==_iff a (suc i)).0 e) ne
  | inr n ↦ before a (ground arith) hi
]

find_loop-FirstWith : (n i : ℕ) (k : Kernel) (pid : ℕ) → FirstWith k pid i n (find_loop n i k pid)
unfolding find_loop
find_loop-FirstWith zero i k pid = inl (refl, λ a lo hi. absurd (omega arith))
find_loop-FirstWith (suc n) i k pid = elim (eq-cases (k.task (suc i)).pid pid) [
  | inl e ↦ rw e (inr (omega arith, omega arith, (==_iff _ _).0 e, λ a lo hi. absurd (omega arith)))
  | inr ne ↦
      let other : (k.task (suc i)).pid ≢ pid = ground arith in
      rw ne (elim (find_loop-FirstWith n (suc i) k pid) [
        | inl (e, absent) ↦ inl (
          e,
          λ a lo hi.
              no_pid_before k pid i (suc (i + suc n)) other (λ b l h. absent b l (omega arith)) a lo
                (omega arith),
        )
        | inr (lo, hi, e, before) ↦
            inr (omega arith, omega arith, e, no_pid_before k pid i _ other before)
      ])
]

ne_test : (a b : ℕ) → a ≢ b → (a == b) ≡ false
ne_test a b ne = ground arith

-- For a pid that is not reserved, the look-up finds the first table entry with it, and NULL
-- exactly if there is none.
pub find_task-FirstWith :
    (k : Kernel) (pid : ℕ)
    → pid ≢ pid_all_tasks
    → pid ≢ pid_no_task
    → FirstWith k pid 0 task_count (find_task k pid)
unfolding find_task
find_task-FirstWith k pid not_all not_none =
    rw (ne_test pid pid_all_tasks not_all, ne_test pid pid_no_task not_none)
      (find_loop-FirstWith task_count 0 k pid)

reserved-le :
    (k : Kernel) (pid : ℕ)
    → ((pid == pid_all_tasks) ≡ true) ⊎ ((pid == pid_no_task) ≡ true)
    → find_task k pid ≤ task_count
unfolding find_task
reserved-le k pid h = ground arith

-- A look-up gives NULL or a table entry.
pub find_task-le : (k : Kernel) (pid : ℕ) → find_task k pid ≤ task_count
find_task-le k pid = elim (eq-cases pid pid_all_tasks) [
  | inl e ↦ reserved-le k pid (inl e)
  | inr not_all ↦ elim (eq-cases pid pid_no_task) [
    | inl e ↦ reserved-le k pid (inr e)
    | inr not_none ↦ elim (find_task-FirstWith k pid (ground arith) (ground arith)) [
      | inl (e, absent) ↦ omega arith
      | inr (lo, hi, e, before) ↦ hi
    ]
  ]
]

-- Pids are handed out in order: a live one is below the counter, and no two tasks share one.
pub record IsNumbered (k : Kernel) : Type 0 where
  pub below :
      (a : Ptr)
      → 1 ≤ a
      → a ≤ task_count
      → (k.task a).pid ≢ pid_no_task
      → (k.task a).pid < k.pid_count
  pub distinct :
      (a b : Ptr)
      → 1 ≤ a
      → a ≤ task_count
      → 1 ≤ b
      → b ≤ task_count
      → (k.task a).pid ≢ pid_no_task
      → (k.task a).pid ≡ (k.task b).pid
      → a ≡ b

-- the state after a successful creation
pub record Created (k : Kernel) (stack : ℕ) (out : Ptr × Kernel) : Type 0 where
  pub in_table : (1 ≤ out.0) × (out.0 ≤ task_count)
  pub was_free : (k.task out.0).pid ≡ pid_no_task
  pub has_pid : (out.1.task out.0).pid ≡ k.pid_count
  pub stack_kept : (out.1.task out.0).stack_space ≡ stack
  pub others : (a : Ptr) → a ≢ out.0 → out.1.task a ≡ k.task a
  pub found : find_task out.1 k.pid_count ≡ out.0
  pub numbered : IsNumbered out.1

module _ (k : Kernel) (tsk : Ptr) (entry_point stack_size priority stack : ℕ) (lo : 1 ≤ tsk)
    (hi : tsk ≤ task_count) (unused : (k.task tsk).pid ≡ pid_no_task) (num : IsNumbered k)
    (room : k.pid_count + 1 < 2 ^ 31) where
  set_up-IsNumbered : IsNumbered (set_up k tsk entry_point stack_size priority stack)
  unfolding set_up
  set_up-IsNumbered = record {
    below = λ a l h live. ground (arith, num.below a l h);
    distinct = λ a b la ha lb hb live e.
        ground (arith, num.distinct a b la ha lb hb, num.below a la ha, num.below b lb hb);
  }

  set_up-pid :
      (a : Ptr)
      → ((set_up k tsk entry_point stack_size priority stack).task a).pid
        ≡ (if a == tsk then k.pid_count else (k.task a).pid)
  unfolding set_up
  set_up-pid a = ground arith

  set_up-found : find_task (set_up k tsk entry_point stack_size priority stack) k.pid_count ≡ tsk
  set_up-found =
      let k' = set_up k tsk entry_point stack_size priority stack in
      elim (find_task-FirstWith k' k.pid_count (omega arith) (omega arith)) [
        | inl (e, absent) ↦ absurd (absent tsk lo hi (ground (arith, set_up-pid tsk)))
        | inr (l, h, e, before) ↦
            ground (
              arith,
              set_up-pid (find_task k' k.pid_count),
              num.below (find_task k' k.pid_count) l h,
            )
      ]

  set_up-Created : Created k stack (tsk, set_up k tsk entry_point stack_size priority stack)
  unfolding set_up
  set_up-Created = record {
    in_table = (lo, hi);
    was_free = unused;
    has_pid = ground arith;
    stack_kept = ground arith;
    others = λ a ne. ground arith;
    found = set_up-found;
    numbered = set_up-IsNumbered;
  }

module _ (k : Kernel) (entry_point stack_size priority stack : ℕ) where
  -- Without a valid priority, a free entry and a stack, creation gives NULL; whenever it gives
  -- NULL the state is as before.
  pub create_kernel_task-null :
      (create_kernel_task k entry_point stack_size priority stack).0 ≡ null
      → create_kernel_task k entry_point stack_size priority stack ≡ (null, k)
  unfolding create_kernel_task
  create_kernel_task-null e = ground arith

  prio_test :
      priority ≤ lowest_task_priority
      → (leb (2 ^ 15) priority || ltb lowest_task_priority priority) ≡ false
  prio_test h = ground arith

  -- With a valid priority, a free entry and a stack, creation fills in a free entry, leaves the
  -- other entries alone, and the new task is found by its pid; pids stay distinct and below the
  -- counter. The counter of pids is below INT32_MAX: past that, it overflows.
  pub create_kernel_task-Created :
      (free : Ptr)
      → 1 ≤ free
      → free ≤ task_count
      → (k.task free).pid ≡ pid_no_task
      → priority ≤ lowest_task_priority
      → stack ≢ 0
      → IsNumbered k
      → k.pid_count + 1 < 2 ^ 31
      → Created k stack (create_kernel_task k entry_point stack_size priority stack)
  unfolding create_kernel_task
  create_kernel_task-Created free lo hi unused prio_ok stack_ok num room =
      elim (find_loop-FirstWith task_count 0 k pid_no_task) [
        | inl (e, absent) ↦ absurd (absent free lo hi unused)
        | inr (l, h, e, before) ↦
            let tsk : Ptr = find_loop task_count 0 k pid_no_task in
            let tsk_test : (tsk == null) ≡ false = ne_test tsk null (omega arith) in
            rw (prio_test prio_ok, tsk_test, ne_test stack 0 stack_ok)
              (set_up-Created k tsk entry_point stack_size priority stack l h e num room)
      ]
