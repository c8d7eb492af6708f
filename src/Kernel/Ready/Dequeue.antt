-- ===== src/Kernel/Ready/Dequeue.antt =====
-- dequeue_task of task.c takes the task out of the queue of its priority.
use elco_os.Base.{
  not-mem-erase, mem_of_mem-erase, ◌∙◌, ◌≤◌, length-DistinctIn, ap, if◌then◌else◌, ℕ, zero, suc,
  ◌≡◌, ◌≢◌, ◌<◌, ◌||◌, ◌&&◌, refl, Bool, false, some, List, [], ◌∷◌, arith, ◌∈◌, ◌∉◌, has, erase,
  length, last_or, ◌==◌, ==_iff, last_or-mem, inl, inr, eq-cases,
}
use elco_os.Chain.{Ptr, null, Chain, not-mem_of_eq, Chain-frame}
use elco_os.Kernel.State.{Task, Kernel, task_count, set_next_ready}
use elco_os.Kernel.Ready.{Slot, head, link, read_slot, unlink, dequeue_loop, dequeue_task}
use elco_os.Kernel.Ready.Inv.{Ready-DistinctIn, Ready-frame, ready_link, Ready, SameButQueues}

-- `cur` is the slot before the entries `xs`, and `prev` the entry that it belongs to
abbrev SlotBefore : Slot → Ptr → List Ptr → Type 0
SlotBefore head prev xs = prev ≡ null
SlotBefore (link q) prev xs = (prev ≡ q) × (q ∉ xs)

abbrev owns : Slot → Ptr → Bool
owns head a = false
owns (link q) a = a == q

not-owns :
    (cur : Slot) (prev : Ptr) (xs : List Ptr)
    → SlotBefore cur prev xs
    → (a : Ptr) → a ∈ xs
    → owns cur a ≡ false
not-owns head prev xs b a i = refl
not-owns (link q) prev xs (e, out) a i = ground (arith, not-mem_of_eq q a xs out)

erase_head : (a : ℕ) (xs : List ℕ) → erase a (a ∷ xs) ≡ xs
erase_head a xs = ground arith

-- what the loop leaves behind the slot `cur`
record Unlinked (k : Kernel) (prio : ℕ) (tsk prev : Ptr) (cur : Slot) (xs : List Ptr) (k' : Kernel)
    : Type 0 where
  chain : Chain (ready_link k') (read_slot k' prio cur) (erase tsk xs)
  tail : k'.queue_tail prio ≡ last_or prev (erase tsk xs)
  same : SameButQueues k k'
  heads : (p : ℕ) → (p == prio) ≡ false → k'.queue_head p ≡ k.queue_head p
  tails : (p : ℕ) → (p == prio) ≡ false → k'.queue_tail p ≡ k.queue_tail p
  links : (a : Ptr) → a ∉ xs → owns cur a ≡ false → ready_link k' a ≡ ready_link k a
  head_kept : (q : Ptr) → cur ≡ link q → k'.queue_head prio ≡ k.queue_head prio
  resched :
      k'.reschedule_needed
      ≡ (k.reschedule_needed || has tsk xs && (tsk == k.current_task || tsk == k.next_task))

module _ (k : Kernel) (prio tsk prev : Ptr) where
  unlink-SameButQueues : (cur : Slot) → SameButQueues k (unlink k prio tsk prev cur)
  unfolding unlink set_next_ready
  unlink-SameButQueues head = record { tasks = λ a. ground arith; others = refl }
  unlink-SameButQueues (link q) = record { tasks = λ a. ground arith; others = refl }

  unlink-link :
      (cur : Slot) (a : Ptr)
      → ready_link (unlink k prio tsk prev cur) a
        ≡ (if a == tsk then null else if owns cur a then ready_link k tsk else ready_link k a)
  unfolding unlink set_next_ready
  unlink-link head a = ground arith
  unlink-link (link q) a = ground arith

  unlink-slot :
      (cur : Slot)
      → owns cur tsk ≡ false
      → read_slot (unlink k prio tsk prev cur) prio cur ≡ ready_link k tsk
  unfolding unlink set_next_ready
  unlink-slot head o = ground arith
  unlink-slot (link q) o = ground arith

  unlink-tail :
      (cur : Slot) (xs : List Ptr)
      → k.queue_tail prio ≡ last_or tsk xs
      → tsk ∉ xs
      → (unlink k prio tsk prev cur).queue_tail prio ≡ last_or prev xs
  unfolding unlink set_next_ready
  unlink-tail head [] t o = ground arith
  unlink-tail (link q) [] t o = ground arith
  unlink-tail head (x ∷ xs) t o =
      ground (arith, not-mem_of_eq tsk (last_or x xs) (x ∷ xs) o (last_or-mem x xs))
  unlink-tail (link q) (x ∷ xs) t o =
      ground (arith, not-mem_of_eq tsk (last_or x xs) (x ∷ xs) o (last_or-mem x xs))

  unlink-head :
      (cur : Slot) (p : ℕ)
      → (p == prio) ≡ false
      → (unlink k prio tsk prev cur).queue_head p ≡ k.queue_head p
  unfolding unlink set_next_ready
  unlink-head head p n = ground arith
  unlink-head (link q) p n = refl

  unlink-tail_ne :
      (cur : Slot) (p : ℕ)
      → (p == prio) ≡ false
      → (unlink k prio tsk prev cur).queue_tail p ≡ k.queue_tail p
  unfolding unlink set_next_ready
  unlink-tail_ne head p n = ground arith
  unlink-tail_ne (link q) p n = ground arith

  unlink-head_kept :
      (cur : Slot) (q : Ptr)
      → cur ≡ link q
      → (unlink k prio tsk prev cur).queue_head prio ≡ k.queue_head prio
  unfolding unlink set_next_ready
  unlink-head_kept head q e = cc
  unlink-head_kept (link p) q e = refl

  unlink-resched :
      (cur : Slot)
      → (unlink k prio tsk prev cur).reschedule_needed
        ≡ (k.reschedule_needed || (tsk == k.current_task || tsk == k.next_task))
  unfolding unlink set_next_ready
  unlink-resched head = ground arith
  unlink-resched (link q) = ground arith

  unlink-Unlinked :
      (cur : Slot) (xs : List Ptr)
      → Chain (ready_link k) (read_slot k prio cur) (tsk ∷ xs)
      → SlotBefore cur prev (tsk ∷ xs)
      → k.queue_tail prio ≡ last_or prev (tsk ∷ xs)
      → Unlinked k prio tsk prev cur (tsk ∷ xs) (unlink k prio tsk prev cur)
  unlink-Unlinked cur xs c b t =
      let free : owns cur tsk ≡ false = not-owns cur prev (tsk ∷ xs) b tsk (ground arith) in
      record {
        chain =
            rw (erase_head tsk xs, unlink-slot cur free)
              (Chain-frame (ready_link k) (ready_link (unlink k prio tsk prev cur))
                (ready_link k tsk) xs c.3
                (λ a i. ground (
                  arith,
                  unlink-link cur a,
                  not-owns cur prev (tsk ∷ xs) b a,
                  not-mem_of_eq tsk a xs c.2 i,
                )));
        tail = rw (erase_head tsk xs) (unlink-tail cur xs t c.2);
        same = unlink-SameButQueues cur;
        heads = λ p n. unlink-head cur p n;
        tails = λ p n. unlink-tail_ne cur p n;
        links = λ a o n. ground (arith, unlink-link cur a);
        head_kept = unlink-head_kept cur;
        resched = ground (arith, unlink-resched cur);
      }

erase_skip : (a x : ℕ) (xs : List ℕ) → (x == a) ≡ false → erase a (x ∷ xs) ≡ x ∷ erase a xs
erase_skip a x xs n = ground arith

kept-slot :
    (k k' : Kernel) (prio tsk prev x : Ptr) (cur : Slot) (xs : List Ptr)
    → Chain (ready_link k) (read_slot k prio cur) (x ∷ xs)
    → SlotBefore cur prev (x ∷ xs)
    → Unlinked k prio tsk x (link x) xs k'
    → read_slot k' prio cur ≡ x
kept-slot k k' prio tsk prev x head xs c b u = u.head_kept x refl ∙ c.0
kept-slot k k' prio tsk prev x (link q) xs c b u = u.links q (ground arith) (ground arith) ∙ c.0

-- an entry that is not the one to take out stays in front
skip-Unlinked :
    (k k' : Kernel) (prio tsk prev x : Ptr) (cur : Slot) (xs : List Ptr)
    → (x == tsk) ≡ false
    → Chain (ready_link k) (read_slot k prio cur) (x ∷ xs)
    → SlotBefore cur prev (x ∷ xs)
    → Unlinked k prio tsk x (link x) xs k'
    → Unlinked k prio tsk prev cur (x ∷ xs) k'
skip-Unlinked k k' prio tsk prev x cur xs ne c b u = record {
  chain =
      rw (erase_skip tsk x xs ne)
        (kept-slot k k' prio tsk prev x cur xs c b u, c.1, not-mem-erase tsk x xs c.2, u.chain);
  tail = ground (arith, u.tail);
  same = u.same;
  heads = u.heads;
  tails = u.tails;
  links = λ a o n. u.links a (ground arith) (ground arith);
  head_kept = λ q e. u.head_kept x refl;
  resched = ground (arith, u.resched);
}

-- at the end of the queue nothing happens
stay-Unlinked :
    (k : Kernel) (prio tsk prev : Ptr) (cur : Slot)
    → read_slot k prio cur ≡ null
    → k.queue_tail prio ≡ prev
    → Unlinked k prio tsk prev cur [] k
stay-Unlinked k prio tsk prev cur c t = record {
  chain = c;
  tail = t;
  same = record { tasks = λ a. refl; others = refl };
  heads = λ p n. refl;
  tails = λ p n. refl;
  links = λ a o n. refl;
  head_kept = λ q e. refl;
  resched = ground arith;
}

-- With more fuel than entries the loop returns, and takes out `tsk` where it stands.
dequeue_loop-Unlinked :
    (fuel : ℕ) (k : Kernel) (prio tsk prev : Ptr) (cur : Slot) (xs : List Ptr)
    → Chain (ready_link k) (read_slot k prio cur) xs
    → SlotBefore cur prev xs
    → k.queue_tail prio ≡ last_or prev xs
    → length xs < fuel
    → (k' : Kernel) × (dequeue_loop fuel k prio tsk prev cur ≡ some k')
      × Unlinked k prio tsk prev cur xs k'
unfolding dequeue_loop
dequeue_loop-Unlinked zero k prio tsk prev cur xs c b t f = absurd (omega arith)
dequeue_loop-Unlinked (suc fuel) k prio tsk prev cur [] c b t f =
    (k, ground arith, stay-Unlinked k prio tsk prev cur c t)
dequeue_loop-Unlinked (suc fuel) k prio tsk prev cur (x ∷ xs) c b t f = elim (eq-cases x tsk) [
  | inl e ↦
      let same : x ≡ tsk = (==_iff x tsk).0 e in
      (
        unlink k prio tsk prev cur,
        ground arith,
        rw same
            (unlink-Unlinked k prio tsk prev cur xs (rw same at c) (rw same at b) (rw same at t)),
      )
  | inr ne ↦
      let (k', run, u) =
        dequeue_loop-Unlinked fuel k prio tsk x (link x) xs c.3 (refl, c.2) t (omega arith) in
      (k', ground arith, skip-Unlinked k k' prio tsk prev x cur xs ne c b u)
]

-- what `dequeue_task` promises
pub record Dequeued (k : Kernel) (tsk : Ptr) (xs : List Ptr) (k' : Kernel) : Type 0 where
  pub ready : Ready k' (k.task tsk).priority (erase tsk xs)
  pub resched :
      k'.reschedule_needed
      ≡ (k.reschedule_needed || has tsk xs && (tsk == k.current_task || tsk == k.next_task))
  pub same : SameButQueues k k'
  pub spares : (p : ℕ) (ys : List Ptr) → p ≢ (k.task tsk).priority → Ready k p ys → Ready k' p ys

Unlinked-Dequeued :
    (k k' : Kernel) (tsk : Ptr) (xs : List Ptr)
    → Ready k (k.task tsk).priority xs
    → Unlinked k (k.task tsk).priority tsk null head xs k'
    → Dequeued k tsk xs k'
Unlinked-Dequeued k k' tsk xs r u = record {
  ready = record {
    chain = u.chain;
    tail = u.tail;
    belongs = λ a i.
        ap (λ (t : Task). t.priority) (u.same.tasks a) ∙ r.belongs a (mem_of_mem-erase tsk a xs i);
    in_table = λ a i. r.in_table a (mem_of_mem-erase tsk a xs i);
  };
  resched = u.resched;
  same = u.same;
  spares = λ p ys np rp.
      let apart : (p == (k.task tsk).priority) ≡ false = ground arith in
      Ready-frame k k' p ys rp u.same (u.heads p apart) (u.tails p apart)
        (λ a i. u.links a (ground (arith, rp.belongs a i, r.belongs a)) refl);
}

-- Dequeueing returns, also for a task that is not queued; the queue of its priority loses it, the
-- other queues stand, the current or next task asks for a new choice if it was queued, and nothing
-- but links, heads, tails and the need to reschedule changes.
pub dequeue_task_lem :
    (k : Kernel) (tsk : Ptr) (xs : List Ptr)
    → tsk ≢ null
    → Ready k (k.task tsk).priority xs
    → (k' : Kernel) × (dequeue_task k tsk ≡ some k') × Dequeued k tsk xs k'
unfolding dequeue_task
dequeue_task_lem k tsk xs ne r =
    let prio = (k.task tsk).priority in
    let short : length xs ≤ task_count =
      length-DistinctIn task_count xs (Ready-DistinctIn k prio xs r) in
    let (k', run, u) =
      dequeue_loop-Unlinked (suc task_count) k prio tsk null head xs r.chain refl r.tail
        (omega arith) in
    (k', ground (arith, run), Unlinked-Dequeued k k' tsk xs r u)
