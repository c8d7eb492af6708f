-- ===== src/Kernel/Ready/Refine.antt =====
-- The operations of task.c on the ready queues against lists: append, erase, rotate.
use elco_os.Base.{
  ℕ, ◌≡◌, ◌≢◌, ◌≤◌, inl, inr, ap, true, some, List, [], ◌∷◌, ◌++◌, ◌||◌, ◌&&◌, arith, ◌∉◌, erase,
  erase_self, has, eq-cases, ==_iff, ◌==◌, upd,
}
use elco_os.Chain.{Ptr, null}
use elco_os.Kernel.State.{Task, Kernel, task_count}
use elco_os.Kernel.Ready.{enqueue_task, dequeue_task, preempt}
use elco_os.Kernel.Ready.Inv.{Ready, Queues, SameButQueues, SameButQueues-trans, Ready-DistinctIn}
use elco_os.Kernel.Ready.Enqueue.{enqueue_task_lem}
use elco_os.Kernel.Ready.Dequeue.{dequeue_task_lem}

-- one queue changed, the others as they were
Queues-upd :
    (k' : Kernel) (qs : ℕ → List Ptr) (prio : ℕ) (xs : List Ptr)
    → Ready k' prio xs
    → ((p : ℕ) → p ≢ prio → Ready k' p (qs p))
    → Queues k' (upd qs prio xs)
Queues-upd k' qs prio xs r others p = elim (eq-cases p prio) [
  | inl e ↦ rw e (rw ((==_iff p prio).0 e) r)
  | inr ne ↦ rw ne (others p (ground arith))
]

-- A task of another priority's queue is not the one at hand.
not-mem_of_priority :
    (k : Kernel) (tsk : Ptr) (p : ℕ) (ys : List Ptr)
    → Ready k p ys
    → p ≢ (k.task tsk).priority
    → tsk ∉ ys
not-mem_of_priority k tsk p ys r ne = ground (arith, r.belongs tsk)

module _ (k : Kernel) (tsk : Ptr) (qs : ℕ → List Ptr) where
  -- Enqueueing a table entry that is not queued returns: it becomes the last of the queue of its
  -- priority, the other queues stand, and a new choice is asked for. Nothing else changes.
  pub enqueue_task-append :
      tsk ≢ null
      → tsk ≤ task_count
      → Queues k qs
      → tsk ∉ qs (k.task tsk).priority
      → (k' : Kernel) × (enqueue_task k tsk ≡ some k')
        × Queues k' (upd qs (k.task tsk).priority (qs (k.task tsk).priority ++ tsk ∷ []))
        × (k'.reschedule_needed ≡ true)
        × SameButQueues k k'
  enqueue_task-append ne small q out =
      let prio = (k.task tsk).priority in
      let (k', run, e) = enqueue_task_lem k tsk (qs prio) ne small (q prio) out in
      (
        k',
        run,
        Queues-upd k' qs prio (qs prio ++ tsk ∷ []) e.ready
            (λ p np. e.spares p (qs p) np (not-mem_of_priority k tsk p (qs p) (q p) np) (q p)),
        e.resched,
        e.same,
      )

  -- Dequeueing returns, also for a task that is not queued: the queue of its priority loses it,
  -- the other queues stand, and a new choice is asked for if it was queued and is the current or
  -- the next task. Nothing else changes.
  pub dequeue_task-erase :
      tsk ≢ null
      → Queues k qs
      → (k' : Kernel) × (dequeue_task k tsk ≡ some k')
        × Queues k' (upd qs (k.task tsk).priority (erase tsk (qs (k.task tsk).priority)))
        × (k'.reschedule_needed ≡ (
            k.reschedule_needed
            || has tsk (qs (k.task tsk).priority) && (tsk == k.current_task || tsk == k.next_task)))
        × SameButQueues k k'
  dequeue_task-erase ne q =
      let prio = (k.task tsk).priority in
      let (k', run, d) = dequeue_task_lem k tsk (qs prio) ne (q prio) in
      (
        k',
        run,
        Queues-upd k' qs prio (erase tsk (qs prio)) d.ready (λ p np. d.spares p (qs p) np (q p)),
        d.resched,
        d.same,
      )

-- Preempting returns: the current task moves to the end of the queue of its priority (or enters
-- it there), the other queues stand, and a new choice is asked for. Nothing else changes.
pub preempt-rotate :
    (k : Kernel) (qs : ℕ → List Ptr)
    → k.current_task ≢ null
    → k.current_task ≤ task_count
    → Queues k qs
    → let cur = k.current_task in
      let prio = (k.task k.current_task).priority in
      (k' : Kernel) × (preempt k ≡ some k')
      × Queues k' (upd qs prio (erase cur (qs prio) ++ cur ∷ []))
      × (k'.reschedule_needed ≡ true)
      × SameButQueues k k'
unfolding preempt
preempt-rotate k qs ne small q =
    let cur = k.current_task in
    let prio = (k.task cur).priority in
    let (k1, run, d) = dequeue_task_lem k cur (qs prio) ne (q prio) in
    let kept : k1.current_task ≡ cur = ap (λ (s : Kernel). s.current_task) d.same.others in
    let same_prio : (k1.task cur).priority ≡ prio =
      ap (λ (t : Task). t.priority) (d.same.tasks cur) in
    let fresh : cur ∉ erase cur (qs prio) =
      erase_self task_count cur (qs prio) (Ready-DistinctIn k prio (qs prio) (q prio)) in
    let (k2, run2, e) =
      enqueue_task_lem k1 cur (erase cur (qs prio)) ne small (rw same_prio d.ready) fresh in
    (
      k2,
      ground (arith, run, kept, run2),
      Queues-upd k2 qs prio (erase cur (qs prio) ++ cur ∷ []) (rw same_prio at e.ready) (λ p np.
          e.spares p (qs p) (rw same_prio np) (not-mem_of_priority k cur p (qs p) (q p) np)
            (d.spares p (qs p) np (q p))),
      e.resched,
      SameButQueues-trans k k1 k2 d.same e.same,
    )
