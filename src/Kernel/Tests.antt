-- ===== src/Kernel/Tests.antt =====
-- A kernel with six tasks, on which the theorems about system/kernel/ are applied. Task 1 is the
-- idle task, 2 runs and 3 is ready behind it, 4 waits for a message of anyone, 5 waits to send to
-- task 2, and 6 sleeps until tick 100.
mod Examples
use elco_os.Base.{
  ℕ, ◌+◌, ◌-◌, ◌^◌, ◌≡◌, ◌≢◌, ◌≤◌, ◌<◌, refl, Bool, true, false, ◌&&◌, ◌||◌, Option, some, List, [],
  ◌∷◌, arith, ◌∈◌, if◌then◌else◌, ◌==◌, leb, replicate, upd, eq-cases, ==_iff, inl, inr,
}
use elco_os.Chain.{Ptr, null, Chain}
use elco_os.Kernel.State.{
  Message, Task, Kernel, IntrStack, pid_no_task, pid_all_tasks, zero_message,
}
use elco_os.Kernel.Tasks.{zero_stack}
use elco_os.Kernel.Tasks.Create.{IsNumbered}
use elco_os.Kernel.Ready.Inv.{Ready, Queues}
use elco_os.Kernel.Message.Inbox.{Inbox}
use elco_os.Kernel.Clock.Timers.{Timers}

abbrev pub six_tasks : Ptr → Task
six_tasks a = record {
  context = a;
  page_dir = 0;
  stack_space = 0;
  stack_size = 0;
  timer_next = 0;
  timer_expire = if a == 6 then 100 else 0;
  priority = if a == 1 then 16 else 3;
  next_ready = if a == 2 then 3 else 0;
  ticks_left = 1;
  quantum = 10;
  message_buffer = if a == 5 then replicate 64 7 else zero_message;
  message_ptr = if a == 4 then 400 else 0;
  sending = a == 5;
  receiving = a == 4;
  delivering = false;
  message_send_to = if a == 5 then 2 else 0;
  message_rec_pid = if a == 4 then pid_all_tasks else pid_no_task;
  message_q_head = if a == 2 then 5 else 0;
  message_q_next = 0;
  pid = if leb 1 a && leb a 6 then a - 1 else pid_no_task;
  preemptible = true;
  after_switch = false;
}

abbrev pub six : Kernel
six = record {
  task = six_tasks;
  contexts = λ a. record zero_stack { eax = a };
  messages = λ a. if a == 200 then replicate 64 9 else zero_message;
  queue_head = λ p. if p == 3 then 2 else 0;
  queue_tail = λ p. if p == 3 then 3 else 0;
  idle_task = 1;
  next_task = 2;
  current_task = 2;
  reschedule_needed = true;
  pid_count = 6;
  clock_ticks = 99;
  next_timer_event = 6;
}

abbrev pub six_queues : ℕ → List Ptr
six_queues p = if p == 3 then 2 ∷ 3 ∷ [] else []

queue_three : Ready six 3 (2 ∷ 3 ∷ [])
queue_three = record {
  chain = (refl, omega arith, refl, (refl, omega arith, refl, refl));
  tail = refl;
  belongs = λ a i. ground arith;
  in_table = λ a i. ground arith;
}

queue_empty : (p : ℕ) → (p == 3) ≡ false → Ready six p []
queue_empty p ne = record {
  chain = ground arith;
  tail = ground arith;
  belongs = λ a i. absurd (ground arith);
  in_table = λ a i. absurd (ground arith);
}

pub six-Queues : Queues six six_queues
six-Queues p = elim (eq-cases p 3) [
  | inl e ↦ rw ((==_iff p 3).0 e) queue_three
  | inr ne ↦ rw ne (queue_empty p ne)
]

pub two-Inbox : Inbox six 2 (5 ∷ [])
two-Inbox = record {
  chain = (refl, omega arith, refl, refl);
  waiting = λ a i. ground arith;
  in_table = λ a i. ground arith;
}

pub six-Timers : Timers six (6 ∷ [])
six-Timers = record {
  chain = (refl, omega arith, refl, refl);
  sorted = tt;
  in_table = λ a i. ground arith;
}

pub three-Inbox : Inbox six 3 []
three-Inbox = record {
  chain = refl;
  waiting = λ a i. absurd (ground arith);
  in_table = λ a i. absurd (ground arith);
}

pub six-IsNumbered : IsNumbered six
six-IsNumbered = record {
  below = λ a lo hi live. ground arith;
  distinct = λ a b la ha lb hb live e. ground arith;
}
