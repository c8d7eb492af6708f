-- ===== src/Kernel/Ready/Inv.antt =====
-- What the ready queues of task.c stand for: a list of tasks for each priority.
use elco_os.Base.{ℕ, ◌≡◌, ◌≤◌, List, ◌∈◌, last_or, ◌∙◌, ap, DistinctIn}
use elco_os.Chain.{Ptr, null, Chain, Chain-frame, Chain-DistinctIn}
use elco_os.Kernel.State.{Task, Kernel, task_count}

-- the link of the ready queues
abbrev pub ready_link : Kernel → Ptr → Ptr
ready_link k p = (k.task p).next_ready

-- The queue of priority `prio` holds the tasks `xs`, first to last: head, links and tail agree,
-- no task stands twice, and each is a table entry of that priority.
pub record Ready (k : Kernel) (prio : ℕ) (xs : List Ptr) : Type 0 where
  pub chain : Chain (ready_link k) (k.queue_head prio) xs
  pub tail : k.queue_tail prio ≡ last_or null xs
  pub belongs : (a : Ptr) → a ∈ xs → (k.task a).priority ≡ prio
  pub in_table : (a : Ptr) → a ∈ xs → a ≤ task_count

-- The abstract state of the ready queues: a list of tasks for each priority.
abbrev pub Queues : Kernel → (ℕ → List Ptr) → Type 0
Queues k qs = (p : ℕ) → Ready k p (qs p)

-- two states that differ at most in the ready queues and the need to reschedule
pub record SameButQueues (k k' : Kernel) : Type 0 where
  pub tasks : (a : Ptr) → k'.task a ≡ record (k.task a) { next_ready = ready_link k' a }
  pub others : k' ≡ record k {
    task = k'.task;
    queue_head = k'.queue_head;
    queue_tail = k'.queue_tail;
    reschedule_needed = k'.reschedule_needed;
  }

-- A queue whose head, tail and links are left alone stands as it was.
pub Ready-frame :
    (k k' : Kernel) (prio : ℕ) (xs : List Ptr)
    → Ready k prio xs
    → SameButQueues k k'
    → k'.queue_head prio ≡ k.queue_head prio
    → k'.queue_tail prio ≡ k.queue_tail prio
    → ((a : Ptr) → a ∈ xs → ready_link k' a ≡ ready_link k a)
    → Ready k' prio xs
Ready-frame k k' prio xs r s head tail links = record {
  chain = rw head (Chain-frame (ready_link k) (ready_link k') (k.queue_head prio) xs r.chain links);
  tail = tail ∙ r.tail;
  belongs = λ a i. ap (λ (t : Task). t.priority) (s.tasks a) ∙ r.belongs a i;
  in_table = r.in_table;
}

pub SameButQueues-trans :
    (a b c : Kernel) → SameButQueues a b → SameButQueues b c → SameButQueues a c
SameButQueues-trans a b c s t = record {
  tasks = λ p. t.tasks p ∙ ap (λ (u : Task). record u { next_ready = ready_link c p }) (s.tasks p);
  others =
      t.others
      ∙ ap
          (λ (k : Kernel). record k {
            task = c.task;
            queue_head = c.queue_head;
            queue_tail = c.queue_tail;
            reschedule_needed = c.reschedule_needed;
          })
          s.others;
}

-- A queue's entries are distinct table entries.
pub Ready-DistinctIn :
    (k : Kernel) (prio : ℕ) (xs : List Ptr) → Ready k prio xs → DistinctIn task_count xs
Ready-DistinctIn k prio xs r =
    Chain-DistinctIn task_count (ready_link k) (k.queue_head prio) xs r.chain r.in_table

-- Writes to other fields of the tasks leave the ready queues alone.
pub Queues-transfer :
    (k k' : Kernel) (qs : ℕ → List Ptr)
    → Queues k qs
    → k'.queue_head ≡ k.queue_head
    → k'.queue_tail ≡ k.queue_tail
    → ((a : Ptr) → ready_link k' a ≡ ready_link k a)
    → ((a : Ptr) → (k'.task a).priority ≡ (k.task a).priority)
    → Queues k' qs
Queues-transfer k k' qs q head tail links prios p = record {
  chain = rw head (
      Chain-frame (ready_link k) (ready_link k') (k.queue_head p) (qs p) (q p).chain
        (λ a i. links a));
  tail = rw tail (q p).tail;
  belongs = λ a i. prios a ∙ (q p).belongs a i;
  in_table = (q p).in_table;
}
