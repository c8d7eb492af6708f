-- ===== src/Kernel/Ready.antt =====
-- The ready queues of system/kernel/task.c: one list for each priority, from 0 (highest) to 16.
pub mod Inv
pub mod Enqueue
pub mod Dequeue
pub mod Refine
pub mod Schedule
pub mod Turns
use elco_os.Base.{
  ℕ, zero, suc, ◌+◌, Bool, true, false, ◌||◌, Option, none, some, ◌>>=◌, if◌then◌else◌, ◌==◌, ltb,
  leb, upd,
}
use elco_os.Chain.{Ptr, null}
use elco_os.Kernel.State.{Task, Kernel, deref, set_next_ready, lowest_task_priority, task_count}

-- hanging `tsk` behind the last entry of a queue that has one
append_ready : Kernel → ℕ → Ptr → Option Kernel
unfolding deref
append_ready k prio tsk = do
  last ← deref k (k.queue_tail prio)
  some (record (set_next_ready k (k.queue_tail prio) tsk) {
    queue_tail = upd k.queue_tail prio tsk;
    reschedule_needed = true;
  })

-- the queue of one entry
start_ready : Kernel → ℕ → Ptr → Kernel
start_ready k prio tsk = record k {
  queue_head = upd k.queue_head prio tsk;
  queue_tail = upd k.queue_tail prio tsk;
  reschedule_needed = true;
}

unfoldable pub enqueue_task : Kernel → Ptr → Option Kernel
unfolding deref set_next_ready append_ready start_ready
enqueue_task k tsk = do
  t ← deref k tsk
  let k1 = set_next_ready k tsk null
  if k1.queue_head t.priority == null
      then some (start_ready k1 t.priority tsk)
      else append_ready k1 t.priority tsk

-- `task_t **cur`: the head of the queue, or the link field of an entry
pub data Slot : Type 0 where
  head : Slot
  link : Ptr → Slot

abbrev pub read_slot : Kernel → ℕ → Slot → Ptr
read_slot k prio head = k.queue_head prio
read_slot k prio (link p) = (k.task p).next_ready

abbrev pub write_slot : Kernel → ℕ → Slot → Ptr → Kernel
write_slot k prio head q = record k { queue_head = upd k.queue_head prio q }
write_slot k prio (link p) q = set_next_ready k p q

-- the body of the loop at `*cur == tsk`
unfoldable pub unlink : Kernel → ℕ → Ptr → Ptr → Slot → Kernel
unfolding set_next_ready
unlink k prio tsk prev cur =
    let k1 = write_slot k prio cur (k.task tsk).next_ready in
    let k2 = set_next_ready k1 tsk null in
    record k2 {
      queue_tail = if k2.queue_tail prio == tsk then upd k2.queue_tail prio prev else k2.queue_tail;
      reschedule_needed =
          if tsk == k2.current_task || tsk == k2.next_task then true else k2.reschedule_needed;
    }

-- `prev` is NULL at the first entry, and the entry before `*cur` later on.
unfoldable pub dequeue_loop : ℕ → Kernel → ℕ → Ptr → Ptr → Slot → Option Kernel
dequeue_loop zero k prio tsk prev cur = none
dequeue_loop (suc fuel) k prio tsk prev cur =
    let c = read_slot k prio cur in
    let rest = dequeue_loop fuel k prio tsk c (link c) in
    if c == null then some k else if c == tsk then some (unlink k prio tsk prev cur) else rest

-- A queue holds at most TASK_COUNT entries; one more round sees its end.
unfoldable pub dequeue_task : Kernel → Ptr → Option Kernel
unfolding deref dequeue_loop unlink
dequeue_task k tsk = do t ← deref k tsk; dequeue_loop (suc task_count) k t.priority tsk null head

-- the loop of scheduler over the priorities `i`, `i + 1`, …, `n` of them
unfoldable pub first_ready : ℕ → ℕ → Kernel → Ptr
first_ready zero i k = k.idle_task
first_ready (suc n) i k =
    let rest = first_ready n (suc i) k in if k.queue_head i == null then rest else k.queue_head i

unfoldable pub scheduler : Kernel → Kernel
unfolding first_ready
scheduler k =
    if k.reschedule_needed
    then record k {
      reschedule_needed = false;
      next_task = first_ready (suc lowest_task_priority) 0 k;
    }
    else k

unfoldable pub preempt : Kernel → Option Kernel
preempt k = do k1 ← dequeue_task k k.current_task; enqueue_task k1 k1.current_task

unfoldable pub block_task : Kernel → Ptr → Option Kernel
block_task k tsk = dequeue_task k tsk

unfoldable pub unblock_task : Kernel → Ptr → Option Kernel
unblock_task k tsk = enqueue_task k tsk
