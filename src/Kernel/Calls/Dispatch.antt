-- ===== src/Kernel/Calls/Dispatch.antt =====
-- What a kernel call returns to its caller, and what a task finds after a switch to it.
use elco_os.Base.{ℕ, ◌≡◌, ◌≢◌, some, refl, true, false, arith, upd, ◌∙◌, List, [], ◌∉◌}
use elco_os.Chain.{Ptr, null}
use elco_os.Kernel.State.{Message, Kernel, zero_message, pid_no_task}
use elco_os.Kernel.Message.{message_deliver, message_send, waits_for}
use elco_os.Kernel.Message.Send.{message_send-wakes}
use elco_os.Kernel.Tasks.{find_task}
use elco_os.Kernel.Ready.Inv.{Queues}
use elco_os.Kernel.Calls.{handle_kernel_call, call_result, set_eax, after_context_switch}

-- The call number 2 returns the caller's pid in eax and changes no other register and nothing else.
pub handle_kernel_call-getpid :
    (k : Kernel)
    → k.current_task ≢ null
    → (k.contexts (k.task k.current_task).context).eax ≡ 2
    → let t = k.task k.current_task in
      handle_kernel_call k
      ≡ some (record k {
        contexts = upd k.contexts t.context (record (k.contexts t.context) { eax = t.pid });
      })
unfolding handle_kernel_call call_result set_eax
handle_kernel_call-getpid k ne e = ground arith

abbrev delivered : Kernel → Kernel
delivered k =
    let t = k.task k.current_task in
    record k {
      messages = upd k.messages t.message_ptr t.message_buffer;
      contexts = upd k.contexts t.context (record (k.contexts t.context) { eax = 0 });
      task =
          upd (upd k.task k.current_task (record t { after_switch = false })) k.current_task
            (record t {
              after_switch = false;
              message_buffer = zero_message;
              delivering = false;
              message_rec_pid = pid_no_task;
              message_ptr = 0;
            });
    }

-- When a task to which a message was handed runs again, the message is copied to the buffer that
-- it gave to its receive call, that call returns 0, and its marks for delivery are cleared.
pub after_context_switch-delivers :
    (k : Kernel)
    → k.current_task ≢ null
    → (k.task k.current_task).after_switch ≡ true
    → (k.task k.current_task).delivering ≡ true
    → let t = k.task k.current_task in
      (k' : Kernel) × (after_context_switch k ≡ some k')
      × (k'.messages ≡ upd k.messages t.message_ptr t.message_buffer)
      × ((k'.contexts t.context).eax ≡ 0)
      × ((k'.task k.current_task).after_switch ≡ false)
      × ((k'.task k.current_task).delivering ≡ false)
unfolding after_context_switch message_deliver set_eax
after_context_switch-delivers k ne a d =
    (delivered k, ground arith, refl, ground arith, ground arith, ground arith)

upd_cong :
    (f g : ℕ → Message) (p q : ℕ) (v w : Message) → f ≡ g → p ≡ q → v ≡ w → upd f p v ≡ upd g q w
upd_cong f g p q v w e d c = rw (e, d, c)

-- A task waits in a receive call for the caller of a send, or for anyone. The send and the switch
-- to the receiver together put the sent message into the buffer that the receiver gave, and write
-- no other buffer.
pub message_send-delivers :
    (k : Kernel) (caller : Ptr) (dest_pid message : ℕ) (qs : ℕ → List Ptr)
    → find_task k dest_pid ≢ null
    → caller ≢ null
    → waits_for (k.task (find_task k dest_pid)) (k.task caller).pid ≡ true
    → Queues k qs
    → find_task k dest_pid ∉ qs (k.task (find_task k dest_pid)).priority
    → let dest = find_task k dest_pid in
      (k1 k2 : Kernel) × (message_send k caller dest_pid message ≡ some (0, k1))
      × (after_context_switch (record k1 { current_task = dest }) ≡ some k2)
      × (k2.messages ≡ upd k.messages (k.task dest).message_ptr (k.messages message))
message_send-delivers k caller dest_pid message qs found ne waits q out =
    let dest = find_task k dest_pid in
    let (k1, run, q1, buffer, waiting, marked, after, ptr, messages, asked) =
      message_send-wakes k caller dest_pid message [] qs found ne waits q out in
    let (k2, run2, copied, eax, clear, unmarked) =
      after_context_switch-delivers (record k1 { current_task = dest }) found after marked in
    (k1, k2, run, run2, copied ∙ upd_cong _ _ _ _ _ _ messages ptr buffer)
