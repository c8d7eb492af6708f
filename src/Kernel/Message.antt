-- ===== src/Kernel/Message.antt =====
-- system/kernel/message.c: rendezvous messages. A sender whose receiver does not wait for it
-- queues in the receiver's list and blocks; a receiver with no fitting sender blocks.
-- A message pointer is the address of a buffer of MESSAGE_SIZE bytes; buffers do not overlap.
pub mod Inbox
pub mod Send
pub mod Receive
use elco_os.Base.{
  ℕ, zero, suc, ◌-◌, ◌^◌, Bool, true, false, ◌||◌, ◌&&◌, Option, none, some, ◌>>=◌, if◌then◌else◌,
  ◌==◌, upd,
}
use elco_os.Chain.{Ptr, null}
use elco_os.Kernel.State.{
  Task, Kernel, Message, deref, put_task, zero_message, pid_no_task, pid_all_tasks, task_count,
}
use elco_os.Kernel.Ready.{block_task, unblock_task}
use elco_os.Kernel.Tasks.{find_task}

-- the int -1, as the bit pattern that a kernel call returns
abbrev pub minus_one : ℕ
minus_one = 2 ^ 32 - 1

unfoldable pub set_q_head : Kernel → Ptr → Ptr → Kernel
set_q_head k p q = put_task k p (record (k.task p) { message_q_head = q })

unfoldable pub set_q_next : Kernel → Ptr → Ptr → Kernel
set_q_next k p q = put_task k p (record (k.task p) { message_q_next = q })

-- the receiver gets the message
unfoldable pub hand_over : Kernel → Ptr → ℕ → Kernel
hand_over k dest message = put_task k dest (record (k.task dest) {
  message_buffer = k.messages message;
  receiving = false;
  delivering = true;
  after_switch = true;
})

-- the sender keeps the message
unfoldable pub post : Kernel → Ptr → Ptr → ℕ → Kernel
post k caller dest message = put_task k caller (record (k.task caller) {
  sending = true;
  message_send_to = dest;
  message_buffer = k.messages message;
})

-- `while(tsk->message_q_next != NULL) tsk = tsk->message_q_next;`
unfoldable pub last_sender : ℕ → Kernel → Ptr → Option Ptr
last_sender zero k tsk = none
last_sender (suc fuel) k tsk =
    let next = (k.task tsk).message_q_next in
    let rest = last_sender fuel k next in if next == null then some tsk else rest

-- A list of senders holds at most TASK_COUNT entries.
unfoldable pub append_sender : Kernel → Ptr → Ptr → Option Kernel
append_sender k dest caller =
    let tsk = (k.task dest).message_q_head in
    if tsk == null then some (set_q_next (set_q_head k dest caller) caller null) else (do
      last ← last_sender task_count k tsk
      some (set_q_next (set_q_next k last caller) caller null))

abbrev pub waits_for : Task → ℕ → Bool
waits_for t pid = t.receiving && (t.message_rec_pid == pid || t.message_rec_pid == pid_all_tasks)

unfoldable pub message_send : Kernel → Ptr → ℕ → ℕ → Option (ℕ × Kernel)
unfolding deref
message_send k caller dest_pid message =
    let dest = find_task k dest_pid in
    if dest == null then some (minus_one, k) else (do
      c ← deref k caller
      if waits_for (k.task dest) c.pid
          then (do k1 ← unblock_task (hand_over k dest message) dest; some (0, k1))
          else (do
            k1 ← append_sender (post k caller dest message) dest caller
            k2 ← block_task k1 caller
            some (0, k2)))

-- `task_t **prev`: the head of the caller's list, or the link field of a sender
pub data QSlot : Type 0 where
  q_head : QSlot
  q_link : Ptr → QSlot

abbrev pub read_q : Kernel → Ptr → QSlot → Ptr
read_q k caller q_head = (k.task caller).message_q_head
read_q k caller (q_link p) = (k.task p).message_q_next

abbrev pub write_q : Kernel → Ptr → QSlot → Ptr → Kernel
write_q k caller q_head q = set_q_head k caller q
write_q k caller (q_link p) q = set_q_next k p q

-- the loop of message_receive: the first sender that fits, with the slot before it
unfoldable pub find_sender : ℕ → Kernel → Ptr → ℕ → QSlot → Option (QSlot × Ptr)
find_sender zero k caller origin_pid prev = none
find_sender (suc fuel) k caller origin_pid prev =
    let sender = read_q k caller prev in
    let rest = find_sender fuel k caller origin_pid (q_link sender) in
    if sender == null
    then some (prev, null)
    else if origin_pid == pid_all_tasks || origin_pid == (k.task sender).pid
    then some (prev, sender)
    else rest

-- the sender's message is copied out and the sender leaves the list
unfoldable pub take_message : Kernel → Ptr → Ptr → QSlot → ℕ → Kernel
unfolding set_q_head set_q_next
take_message k caller sender prev message =
    let k1 = record k { messages = upd k.messages message (k.task sender).message_buffer } in
    let k2 = write_q k1 caller prev (k1.task sender).message_q_next in
    put_task k2 sender
      (record (k2.task sender) { message_q_next = null; message_send_to = null; sending = false })

-- the receiver waits
unfoldable pub await_message : Kernel → Ptr → ℕ → ℕ → Kernel
await_message k caller origin_pid message = put_task k caller (record (k.task caller) {
  message_ptr = message;
  message_rec_pid = origin_pid;
  receiving = true;
})

unfoldable pub message_receive : Kernel → Ptr → ℕ → ℕ → Option (ℕ × Kernel)
unfolding deref
message_receive k caller origin_pid message =
    if origin_pid == pid_no_task then some (minus_one, k) else (do
      c ← deref k caller
      (prev, sender) ← find_sender (suc task_count) k caller origin_pid q_head
      if sender == null
          then (do k1 ← block_task (await_message k caller origin_pid message) caller; some (0, k1))
          else (do
            k1 ← unblock_task (take_message k caller sender prev message) sender
            some (0, k1)))

unfoldable pub message_deliver : Kernel → Ptr → Option (Bool × Kernel)
unfolding deref
message_deliver k caller = do
  c ← deref k caller
  if c.delivering
      then some (
        true,
        record k {
          messages = upd k.messages c.message_ptr c.message_buffer;
          task = upd k.task caller (record c {
            message_buffer = zero_message;
            delivering = false;
            message_rec_pid = pid_no_task;
            message_ptr = 0;
          });
        },
      )
      else some (false, k)
