-- ===== src/Kernel/Ready/Enqueue.antt =====
-- enqueue_task of task.c appends to the queue of the task's priority.
use elco_os.Base.{
  if◌then◌else◌, upd, ℕ, ◌≡◌, ◌≢◌, refl, true, false, some, List, [], ◌∷◌, ◌++◌, ◌≤◌, arith, ◌∈◌,
  ◌∉◌, last_or, ◌==◌, last_or-mem, last_or-snoc, has-append,
}
use elco_os.Chain.{Ptr, null, Chain-snoc, not-mem_of_eq, null-not-mem}
use elco_os.Kernel.State.{Kernel, set_next_ready, task_count}
use elco_os.Kernel.Ready.{enqueue_task, start_ready}
use elco_os.Kernel.Ready.Inv.{Ready-frame, ready_link, Ready, SameButQueues}

-- what `enqueue_task` promises
pub record Enqueued (k : Kernel) (tsk : Ptr) (xs : List Ptr) (k' : Kernel) : Type 0 where
  pub ready : Ready k' (k.task tsk).priority (xs ++ tsk ∷ [])
  pub resched : k'.reschedule_needed ≡ true
  pub same : SameButQueues k k'
  pub spares :
      (p : ℕ) (ys : List Ptr) → p ≢ (k.task tsk).priority → tsk ∉ ys → Ready k p ys → Ready k' p ys

-- the state after an enqueue to an empty queue, and to one that ends in `last`
abbrev started : Kernel → Ptr → Kernel
started k tsk = start_ready (set_next_ready k tsk null) (k.task tsk).priority tsk

started-Enqueued :
    (k : Kernel) (tsk : Ptr)
    → tsk ≢ null
    → tsk ≤ task_count
    → Ready k (k.task tsk).priority []
    → Enqueued k tsk [] (started k tsk)
unfolding start_ready set_next_ready
started-Enqueued k tsk ne small r =
    let same : SameButQueues k (started k tsk) = record {
      tasks = λ a. ground arith;
      others = refl;
    } in
    record {
      ready = record {
        chain = ground arith;
        tail = ground arith;
        belongs = λ a i. ground arith;
        in_table = λ a i. ground arith;
      };
      resched = refl;
      same = same;
      spares = λ p ys np o rp.
          Ready-frame k (started k tsk) p ys rp same (ground arith) (ground arith)
            (λ a i. ground arith);
    }

appended : Kernel → Ptr → Kernel
appended k tsk =
    record (set_next_ready (set_next_ready k tsk null) (k.queue_tail (k.task tsk).priority) tsk) {
      queue_tail = upd k.queue_tail (k.task tsk).priority tsk;
      reschedule_needed = true;
    }

appended-SameButQueues : (k : Kernel) (tsk : Ptr) → SameButQueues k (appended k tsk)
unfolding set_next_ready appended
appended-SameButQueues k tsk = record { tasks = λ a. ground arith; others = refl }

appended-link :
    (k : Kernel) (tsk a : Ptr)
    → ready_link (appended k tsk) a ≡ (
        if a == k.queue_tail (k.task tsk).priority
        then tsk
        else if a == tsk
        then null
        else ready_link k a)
unfolding set_next_ready appended
appended-link k tsk a = ground arith

appended-Ready :
    (k : Kernel) (tsk x : Ptr) (xs : List Ptr)
    → tsk ≢ null
    → tsk ≤ task_count
    → Ready k (k.task tsk).priority (x ∷ xs)
    → tsk ∉ x ∷ xs
    → Ready (appended k tsk) (k.task tsk).priority (x ∷ xs ++ tsk ∷ [])
unfolding appended set_next_ready
appended-Ready k tsk x xs ne small r out =
    let last : Ptr = last_or x xs in
    let last_in : last ∈ x ∷ xs = last_or-mem x xs in
    let apart : (tsk == last) ≡ false = not-mem_of_eq tsk last (x ∷ xs) out last_in in
    record {
      chain =
          Chain-snoc (ready_link k) (ready_link (appended k tsk))
            (k.queue_head (k.task tsk).priority) x tsk xs r.chain ne out
            (ground (arith, r.tail, apart)) (ground (arith, r.tail))
            (λ a n i. ground (arith, r.tail, apart));
      tail = ground (arith, last_or-snoc x tsk xs);
      belongs = λ a i. ground (arith, has-append a (x ∷ xs) (tsk ∷ []), r.belongs a);
      in_table = λ a i. ground (arith, has-append a (x ∷ xs) (tsk ∷ []), r.in_table a);
    }

appended-Enqueued :
    (k : Kernel) (tsk x : Ptr) (xs : List Ptr)
    → tsk ≢ null
    → tsk ≤ task_count
    → Ready k (k.task tsk).priority (x ∷ xs)
    → tsk ∉ x ∷ xs
    → Enqueued k tsk (x ∷ xs) (appended k tsk)
unfolding appended set_next_ready
appended-Enqueued k tsk x xs ne small r out =
    let last : Ptr = last_or x xs in
    let last_prio : (k.task last).priority ≡ (k.task tsk).priority =
      r.belongs last (last_or-mem x xs) in
    record {
      ready = appended-Ready k tsk x xs ne small r out;
      resched = refl;
      same = appended-SameButQueues k tsk;
      spares = λ p ys np o rp.
          Ready-frame k (appended k tsk) p ys rp (appended-SameButQueues k tsk) refl (ground arith)
            (λ a i. ground (arith, r.tail, last_prio, rp.belongs a));
    }

-- Enqueueing a table entry that is not queued returns; its queue gets it as the last one, the
-- queues of the other priorities stand, and nothing but links, heads, tails and the need to
-- reschedule changes.
pub enqueue_task_lem :
    (k : Kernel) (tsk : Ptr) (xs : List Ptr)
    → tsk ≢ null
    → tsk ≤ task_count
    → Ready k (k.task tsk).priority xs
    → tsk ∉ xs
    → (k' : Kernel) × (enqueue_task k tsk ≡ some k') × Enqueued k tsk xs k'
unfolding enqueue_task appended
enqueue_task_lem k tsk [] ne small r out =
    (started k tsk, ground arith, started-Enqueued k tsk ne small r)
enqueue_task_lem k tsk (x ∷ xs) ne small r out = (
  appended k tsk,
  ground (
    arith,
    r.tail,
    r.belongs null,
    null-not-mem (ready_link k) (k.queue_head (k.task tsk).priority) (x ∷ xs) r.chain,
    last_or-mem x xs,
  ),
  appended-Enqueued k tsk x xs ne small r out,
)
