-- ===== src/Kernel/State.antt =====
-- The data of system/kernel/type.h, i386/i386_type.h and the static variables of task.c, clock.c.
-- A task pointer is the number i + 1 for &ptable[i], and 0 for NULL. A pid is the 32-bit pattern
-- of an int32_t. A flag word is the truth values of the bits that the kernel uses.
use elco_os.Base.{ℕ, ◌+◌, ◌^◌, Bool, Option, none, some, List, if◌then◌else◌, ◌==◌, upd, replicate}
use elco_os.Chain.{Ptr, null}

-- message_t: MESSAGE_SIZE bytes
abbrev pub Message : Type 0
Message = List ℕ

abbrev pub message_size : ℕ
message_size = 64

-- kmemset(&m, 0, sizeof(message_t))
abbrev pub zero_message : Message
zero_message = replicate message_size 0

abbrev pub pid_no_task : ℕ
pid_no_task = 2 ^ 31

abbrev pub pid_all_tasks : ℕ
pid_all_tasks = 2 ^ 31 + 1

abbrev pub task_count : ℕ
task_count = 10

abbrev pub lowest_task_priority : ℕ
lowest_task_priority = 16

abbrev pub task_default_quantum : ℕ
task_default_quantum = 10

abbrev pub kernel_clock_freq : ℕ
kernel_clock_freq = 1000

-- intr_stack_t
pub record IntrStack : Type 0 where
  pub gs : ℕ
  pub fs : ℕ
  pub es : ℕ
  pub ds : ℕ
  pub edi : ℕ
  pub esi : ℕ
  pub ebp : ℕ
  pub esp : ℕ
  pub ebx : ℕ
  pub edx : ℕ
  pub ecx : ℕ
  pub eax : ℕ
  pub int_no : ℕ
  pub err_code : ℕ
  pub eip : ℕ
  pub cs : ℕ
  pub eflags : ℕ
  pub useresp : ℕ
  pub ss : ℕ

-- task_t. `preemptible` and `after_switch` are the bits of `flags`; `sending`, `receiving` and
-- `delivering` those of `message_flags`.
pub record Task : Type 0 where
  pub context : ℕ
  pub page_dir : ℕ
  pub stack_space : ℕ
  pub stack_size : ℕ
  pub timer_next : Ptr
  pub timer_expire : ℕ
  pub priority : ℕ
  pub next_ready : Ptr
  pub ticks_left : ℕ
  pub quantum : ℕ
  pub message_buffer : Message
  pub message_ptr : ℕ
  pub sending : Bool
  pub receiving : Bool
  pub delivering : Bool
  pub message_send_to : Ptr
  pub message_rec_pid : ℕ
  pub message_q_head : Ptr
  pub message_q_next : Ptr
  pub pid : ℕ
  pub preemptible : Bool
  pub after_switch : Bool

-- The variables of the kernel, with the memory that task pointers lead to: `contexts` holds the
-- register frames and `messages` the message buffers of the tasks, by address.
pub record Kernel : Type 0 where
  pub task : Ptr → Task
  pub contexts : ℕ → IntrStack
  pub messages : ℕ → Message
  pub queue_head : ℕ → Ptr
  pub queue_tail : ℕ → Ptr
  pub idle_task : Ptr
  pub next_task : Ptr
  pub current_task : Ptr
  pub reschedule_needed : Bool
  pub pid_count : ℕ
  pub clock_ticks : ℕ
  pub next_timer_event : Ptr

-- *p, a fault at NULL
unfoldable pub deref : Kernel → Ptr → Option Task
deref k p = if p == null then none else some (k.task p)

-- A write of the whole task at `p`; the fields that the code leaves alone are passed on.
abbrev pub put_task : Kernel → Ptr → Task → Kernel
put_task k p t = record k { task = upd k.task p t }

-- p->next_ready = q
unfoldable pub set_next_ready : Kernel → Ptr → Ptr → Kernel
set_next_ready k p q = put_task k p (record (k.task p) { next_ready = q })
