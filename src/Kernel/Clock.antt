-- ===== src/Kernel/Clock.antt =====
-- system/kernel/clock.c: the tick counter, time slices, and the list of sleeping tasks.
pub mod Timers
pub mod Sleep
pub mod Tick
use elco_os.Base.{
  ℕ, zero, suc, ◌+◌, ◌*◌, ◌/◌, ◌%◌, ◌^◌, ◌-◌, Bool, true, false, ◌||◌, Option, none, some, ◌>>=◌,
  if◌then◌else◌, ◌==◌, ltb, leb, upd,
}
use elco_os.Chain.{Ptr, null}
use elco_os.Kernel.State.{Task, Kernel, deref, put_task, task_count, kernel_clock_freq}
use elco_os.Kernel.Ready.{block_task, unblock_task, preempt}

unfoldable pub set_timer_next : Kernel → Ptr → Ptr → Kernel
set_timer_next k p q = put_task k p (record (k.task p) { timer_next = q })

-- the first entry leaves the list of sleeping tasks
unfoldable pub pop_timer : Kernel → Kernel
unfolding set_timer_next
pop_timer k =
    let tsk = k.next_timer_event in
    set_timer_next (record k { next_timer_event = (k.task tsk).timer_next }) tsk null

-- The loop of timer_callback; the `if` around it repeats its first test.
unfoldable pub wake_expired : ℕ → Kernel → Option Kernel
wake_expired zero k = none
wake_expired (suc fuel) k =
    let tsk = k.next_timer_event in
    let rest = unblock_task (pop_timer k) tsk >>= wake_expired fuel in
    if tsk == null
    then some k
    else if leb (k.task tsk).timer_expire k.clock_ticks
    then rest
    else some k

-- the time slice of the current task; ticks_left is a uint16_t
unfoldable pub count_slice : Kernel → Option Kernel
unfolding deref
count_slice k = do
  t ← deref k k.current_task
  let left = (t.ticks_left + 2 ^ 16 - 1) % 2 ^ 16
  if t.preemptible
      then if left == 0
        then preempt (put_task k k.current_task (record t { ticks_left = t.quantum }))
        else some (put_task k k.current_task (record t { ticks_left = left }))
      else some k

unfoldable pub timer_callback : Kernel → Option Kernel
timer_callback k = do
  k1 ← count_slice (record k { clock_ticks = (k.clock_ticks + 1) % 2 ^ 32 })
  wake_expired (suc task_count) k1

-- `task_t **nxtPtr`: the head of the list, or the link field of an entry
pub data TSlot : Type 0 where
  t_head : TSlot
  t_link : Ptr → TSlot

abbrev pub read_t : Kernel → TSlot → Ptr
read_t k t_head = k.next_timer_event
read_t k (t_link p) = (k.task p).timer_next

abbrev pub write_t : Kernel → TSlot → Ptr → Kernel
write_t k t_head q = record k { next_timer_event = q }
write_t k (t_link p) q = set_timer_next k p q

-- the loop of sleep_ms: the slot before the first entry that expires later
unfoldable pub find_slot : ℕ → Kernel → ℕ → TSlot → Option TSlot
find_slot zero k ticks nxt = none
find_slot (suc fuel) k ticks nxt =
    let c = read_t k nxt in
    let rest = find_slot fuel k ticks (t_link c) in
    if c == null then some nxt else if ltb ticks (k.task c).timer_expire then some nxt else rest

-- `current_task->timer_next = *nxtPtr; *nxtPtr = current_task;`
unfoldable pub insert_at : Kernel → Ptr → TSlot → Kernel
unfolding set_timer_next
insert_at k tsk nxt = write_t (set_timer_next k tsk (read_t k nxt)) nxt tsk

-- the tick at which a sleep of `ms` ends; the product, an int in the source, is taken to wrap
unfoldable pub expiry : ℕ → ℕ → ℕ
expiry clock_ticks ms = ((kernel_clock_freq * ms + 999) % 2 ^ 32 / 1000 + clock_ticks) % 2 ^ 32

-- `ms` is the 32-bit pattern of an int, negative from 2 ^ 31 on.
unfoldable pub sleep_ms : Kernel → ℕ → Option Kernel
unfolding deref
sleep_ms k ms = if ms == 0 || leb (2 ^ 31) ms then some k else (do
  t ← deref k k.current_task
  let ticks = expiry k.clock_ticks ms
  let k1 = put_task k k.current_task (record t { timer_expire = ticks })
  nxt ← find_slot (suc task_count) k1 ticks t_head
  block_task (insert_at k1 k.current_task nxt) k.current_task)
