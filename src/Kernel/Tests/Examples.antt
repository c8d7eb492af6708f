-- ===== src/Kernel/Tests/Examples.antt =====
-- The theorems about system/kernel/ at the kernel with six tasks.
use elco_os.Base.{List, ℕ, ◌≡◌, ◌⊎◌, refl, true, false, some, [], ◌∷◌, arith, replicate, upd}
use elco_os.Kernel.State.{Kernel}
use elco_os.Kernel.Tasks.{create_kernel_task, find_task, find_loop}
use elco_os.Kernel.Tasks.Create.{Created, create_kernel_task-Created}
use elco_os.Kernel.Ready.{enqueue_task, dequeue_task, preempt, scheduler}
use elco_os.Kernel.Ready.Inv.{Queues, SameButQueues}
use elco_os.Kernel.Ready.Turns.{Heads, turns, turns-served}
use elco_os.Kernel.Ready.Refine.{enqueue_task-append, dequeue_task-erase, preempt-rotate}
use elco_os.Kernel.Ready.Schedule.{Chosen, scheduler-Chosen}
use elco_os.Kernel.Message.{message_send, message_receive}
use elco_os.Kernel.Message.Inbox.{Inbox}
use elco_os.Kernel.Message.Send.{message_send-posts, message_send-wakes}
use elco_os.Kernel.Message.Receive.{message_receive-takes, message_receive-waits}
use elco_os.Kernel.Clock.{timer_callback, sleep_ms, expiry}
use elco_os.Kernel.Clock.Timers.{Timers}
use elco_os.Kernel.Clock.Sleep.{sleep_ms-insert}
use elco_os.Kernel.Clock.Tick.{timer_callback-release}
use elco_os.Kernel.Calls.{after_context_switch}
use elco_os.Kernel.Calls.Dispatch.{message_send-delivers}
use elco_os.Kernel.Tests.{
  six, six_queues, six-Queues, two-Inbox, three-Inbox, six-Timers, six-IsNumbered,
}

enqueue_task-append_example :
    (k' : Kernel) × (enqueue_task six 4 ≡ some k')
    × Queues k' (upd six_queues 3 (2 ∷ 3 ∷ 4 ∷ []))
    × (k'.reschedule_needed ≡ true)
    × SameButQueues six k'
enqueue_task-append_example =
    enqueue_task-append six 4 six_queues (omega arith) (omega arith) six-Queues refl

dequeue_task-erase_example :
    (k' : Kernel) × (dequeue_task six 3 ≡ some k')
    × Queues k' (upd six_queues 3 (2 ∷ []))
    × (k'.reschedule_needed ≡ true)
    × SameButQueues six k'
dequeue_task-erase_example = dequeue_task-erase six 3 six_queues (omega arith) six-Queues

six-Heads : Heads six six_queues 3 2 (3 ∷ [])
six-Heads = record {
  queues = six-Queues;
  mine = refl;
  above = λ p lt. ground arith;
  inside = omega arith;
  running = refl;
}

turns-served_example :
    (k' : Kernel) × (qs' : ℕ → List ℕ) × (turns 1 six ≡ some k')
    × (k'.current_task ≡ 3)
    × Heads k' qs' 3 3 (2 ∷ [])
turns-served_example = turns-served (2 ∷ []) six six_queues 3 3 [] 2 (3 ∷ []) six-Heads refl

preempt-rotate_example :
    (k' : Kernel) × (preempt six ≡ some k')
    × Queues k' (upd six_queues 3 (3 ∷ 2 ∷ []))
    × (k'.reschedule_needed ≡ true)
    × SameButQueues six k'
preempt-rotate_example = preempt-rotate six six_queues (omega arith) (omega arith) six-Queues

message_send-posts_example :
    (k' : Kernel) × (message_send six 2 2 200 ≡ some (0, k'))
    × Inbox k' 3 (2 ∷ [])
    × ((k'.task 2).message_buffer ≡ replicate 64 9)
    × Queues k' (upd six_queues 3 (3 ∷ []))
    × (k'.messages ≡ six.messages)
unfolding find_task find_loop
message_send-posts_example =
    message_send-posts six 2 2 200 [] six_queues (omega arith) (omega arith) (omega arith) refl
      three-Inbox refl six-Queues

message_send-delivers_example :
    (k1 k2 : Kernel) × (message_send six 2 3 200 ≡ some (0, k1))
    × (after_context_switch (record k1 { current_task = 4 }) ≡ some k2)
    × (k2.messages ≡ upd six.messages 400 (replicate 64 9))
unfolding find_task find_loop
message_send-delivers_example =
    message_send-delivers six 2 3 200 six_queues (omega arith) (omega arith) refl six-Queues refl

message_receive-takes_example :
    (k' : Kernel) × (message_receive six 2 4 300 ≡ some (0, k'))
    × (k'.messages ≡ upd six.messages 300 (replicate 64 7))
    × Inbox k' 2 []
    × ((k'.task 5).sending ≡ false)
    × Queues k' (upd six_queues 3 (2 ∷ 3 ∷ 5 ∷ []))
message_receive-takes_example =
    message_receive-takes six 2 4 300 (5 ∷ []) six_queues (omega arith) (omega arith) two-Inbox
      (omega arith) six-Queues refl

message_receive-waits_example :
    (k' : Kernel) × (message_receive six 2 2 300 ≡ some (0, k'))
    × ((k'.task 2).receiving ≡ true)
    × ((k'.task 2).message_rec_pid ≡ 2)
    × ((k'.task 2).message_ptr ≡ 300)
    × Inbox k' 2 (5 ∷ [])
    × Queues k' (upd six_queues 3 (3 ∷ []))
    × (k'.messages ≡ six.messages)
message_receive-waits_example =
    message_receive-waits six 2 2 300 (5 ∷ []) six_queues (omega arith) (omega arith) two-Inbox refl
      six-Queues

message_send-wakes_example :
    (k' : Kernel) × (message_send six 2 3 200 ≡ some (0, k'))
    × Queues k' (upd six_queues 3 (2 ∷ 3 ∷ 4 ∷ []))
    × ((k'.task 4).message_buffer ≡ replicate 64 9)
    × ((k'.task 4).receiving ≡ false)
    × ((k'.task 4).delivering ≡ true)
    × ((k'.task 4).after_switch ≡ true)
    × ((k'.task 4).message_ptr ≡ 400)
    × (k'.messages ≡ six.messages)
    × (k'.reschedule_needed ≡ true)
unfolding find_task find_loop
message_send-wakes_example =
    message_send-wakes six 2 3 200 [] six_queues (omega arith) (omega arith) refl six-Queues refl

sleep_ms-insert_example :
    (k' : Kernel) × (sleep_ms six 50 ≡ some k')
    × Timers k' (6 ∷ 2 ∷ [])
    × ((k'.task 2).timer_expire ≡ 149)
    × Queues k' (upd six_queues 3 (3 ∷ []))
unfolding expiry
sleep_ms-insert_example =
    sleep_ms-insert six 50 (6 ∷ []) six_queues (omega arith) (omega arith) (omega arith)
      (omega arith) refl six-Timers six-Queues

timer_callback-release_example :
    (k' : Kernel) × (timer_callback six ≡ some k')
    × (k'.clock_ticks ≡ 100)
    × Timers k' []
    × Queues k' (upd (upd six_queues 3 (3 ∷ 2 ∷ [])) 3 (3 ∷ 2 ∷ 6 ∷ []))
timer_callback-release_example =
    timer_callback-release six (6 ∷ []) six_queues (omega arith) (omega arith) refl six-Timers
      six-Queues (λ a p i. ground arith)

create_kernel_task-Created_example : Created six 5000 (create_kernel_task six 64 128 4 5000)
create_kernel_task-Created_example =
    create_kernel_task-Created six 64 128 4 5000 7 (omega arith) (omega arith) refl (omega arith)
      (omega arith) six-IsNumbered (omega arith)

scheduler-Chosen_example :
    (let k' = scheduler six in
      ((true ≡ false) × (k' ≡ six))
      ⊎ ((true ≡ true)
          × Chosen six_queues 0 17 1 k'.next_task
          × (k' ≡ record six { reschedule_needed = false; next_task = k'.next_task })))
scheduler-Chosen_example = scheduler-Chosen six six_queues six-Queues
