-- ===== src/Kernel/Tasks.antt =====
-- The task table of system/kernel/task.c: start-up, creation and look-up of tasks.
-- The address that kmalloc returns for a stack is an argument, 0 for NULL; so are the addresses of
-- the entry points and of the boot page directory, which the linker sets.
pub mod Create
use elco_os.Base.{
  ℕ, zero, suc, ◌+◌, ◌-◌, ◌%◌, ◌^◌, Bool, true, false, ◌||◌, Option, none, some, ◌>>=◌,
  if◌then◌else◌, ◌==◌, ltb, leb, upd,
}
use elco_os.Chain.{Ptr, null}
use elco_os.Kernel.State.{
  Task, Kernel, IntrStack, deref, put_task, zero_message, pid_no_task, pid_all_tasks, task_count,
  lowest_task_priority, task_default_quantum,
}

-- the loop of find_task over the entries `i`, `i + 1`, …, `n` of them: the first one with the pid
unfoldable pub find_loop : ℕ → ℕ → Kernel → ℕ → Ptr
find_loop zero i k pid = null
find_loop (suc n) i k pid =
    let rest = find_loop n (suc i) k pid in if (k.task (suc i)).pid == pid then suc i else rest

unfoldable pub find_task : Kernel → ℕ → Ptr
find_task k pid =
    if pid == pid_all_tasks || pid == pid_no_task then null else find_loop task_count 0 k pid

unfoldable pub set_preemptible : Kernel → Ptr → Bool → Option Kernel
unfolding deref
set_preemptible k tsk preemptible = do
  t ← deref k tsk
  some (put_task k tsk (record t { preemptible = preemptible }))

-- kmemset(context, 0, sizeof(intr_stack_t))
abbrev pub zero_stack : IntrStack
zero_stack = record {
  gs = 0;
  fs = 0;
  es = 0;
  ds = 0;
  edi = 0;
  esi = 0;
  ebp = 0;
  esp = 0;
  ebx = 0;
  edx = 0;
  ecx = 0;
  eax = 0;
  int_no = 0;
  err_code = 0;
  eip = 0;
  cs = 0;
  eflags = 0;
  useresp = 0;
  ss = 0;
}

abbrev pub intr_stack_size : ℕ
intr_stack_size = 76

-- GDT_RING0_CODE and GDT_RING0_DATA
abbrev pub gdt_ring0_code : ℕ
gdt_ring0_code = 8

abbrev pub gdt_ring0_data : ℕ
gdt_ring0_data = 16

-- the register frame of a new task
unfoldable pub first_frame : ℕ → ℕ → IntrStack
first_frame sp entry_point = record zero_stack {
  cs = gdt_ring0_code;
  ds = gdt_ring0_data;
  es = gdt_ring0_data;
  fs = gdt_ring0_data;
  gs = gdt_ring0_data;
  ss = gdt_ring0_data;
  ebp = sp;
  eip = entry_point;
  eflags = 0x0202;
}

-- the entry `tsk`, filled in for a new task
unfoldable pub set_up : Kernel → Ptr → ℕ → ℕ → ℕ → ℕ → Kernel
unfolding first_frame
set_up k tsk entry_point stack_size priority stack =
    let sp = (stack + stack_size) % 2 ^ 32 in
    let context = (sp + 2 ^ 32 - intr_stack_size) % 2 ^ 32 in
    record k {
      task = upd k.task tsk (record (k.task tsk) {
        pid = k.pid_count;
        stack_space = stack;
        stack_size = stack_size;
        priority = priority;
        preemptible = true;
        after_switch = false;
        quantum = task_default_quantum;
        ticks_left = task_default_quantum;
        next_ready = null;
        context = context;
        timer_next = null;
        message_buffer = zero_message;
        message_ptr = 0;
        sending = false;
        receiving = false;
        delivering = false;
        message_send_to = null;
        message_rec_pid = pid_no_task;
        message_q_head = null;
        message_q_next = null;
      });
      contexts = upd k.contexts context (first_frame sp entry_point);
      pid_count = (k.pid_count + 1) % 2 ^ 32;
    }

-- `priority` is the 16-bit pattern of a short, negative from 2 ^ 15 on.
unfoldable pub create_kernel_task : Kernel → ℕ → ℕ → ℕ → (stack : ℕ) → Ptr × Kernel
create_kernel_task k entry_point stack_size priority stack =
    if leb (2 ^ 15) priority || ltb lowest_task_priority priority
    then (null, k)
    else (let tsk = find_loop task_count 0 k pid_no_task in
        if tsk == null
        then (null, k)
        else if stack == 0
        then (null, k)
        else (tsk, set_up k tsk entry_point stack_size priority stack))

-- the loop of multitasking_init over the first `n` entries
unfoldable pub reset_tasks : ℕ → ℕ → Kernel → Kernel
reset_tasks zero page_dir k = k
reset_tasks (suc n) page_dir k =
    let k1 = reset_tasks n page_dir k in
    put_task k1 (suc n) (record (k1.task (suc n)) {
      pid = pid_no_task;
      context = 0;
      stack_space = 0;
      stack_size = 0;
      page_dir = page_dir;
      timer_next = null;
      priority = lowest_task_priority;
      next_ready = null;
      quantum = 0;
      ticks_left = 0;
      message_buffer = zero_message;
      message_ptr = 0;
      sending = false;
      receiving = false;
      delivering = false;
      message_send_to = null;
      message_rec_pid = pid_no_task;
      message_q_head = null;
      message_q_next = null;
    })

-- The nesting count of interrupts, which only assembly code reads, is left out. The write to the
-- flags of idle_task is a fault where its creation failed.
unfoldable pub multitasking_init : Kernel → (page_dir idle stack : ℕ) → Option Kernel
multitasking_init k page_dir idle stack =
    let k1 = record (reset_tasks task_count page_dir k) {
      next_task = null;
      current_task = null;
      pid_count = 0;
      queue_head = λ i. if leb i lowest_task_priority then null else k.queue_head i;
      queue_tail = λ i. if leb i lowest_task_priority then null else k.queue_tail i;
    } in
    let (tsk, k2) = create_kernel_task k1 idle 128 lowest_task_priority stack in
    (do
      k3 ← set_preemptible (record k2 { idle_task = tsk }) tsk false
      some (record k3 { reschedule_needed = true }))
