-- ===== src/Kernel/Calls.antt =====
-- The kernel calls of system/kernel/main.c, and the work after a context switch. The registers of
-- the caller are its saved frame: eax holds the number of the call, ecx and edx its arguments.
pub mod Dispatch
use elco_os.Base.{ℕ, Bool, true, false, Option, none, some, ◌>>=◌, if◌then◌else◌, ◌==◌, upd}
use elco_os.Chain.{Ptr, null}
use elco_os.Kernel.State.{Task, Kernel, IntrStack, deref, put_task}
use elco_os.Kernel.Ready.{preempt}
use elco_os.Kernel.Message.{message_send, message_receive, message_deliver}
use elco_os.Kernel.Clock.{sleep_ms}

-- the `switch` on the number of the call: the result and the state
unfoldable pub call_result : Kernel → Task → IntrStack → Option (ℕ × Kernel)
call_result k t regs =
    if regs.eax == 0
    then sleep_ms k regs.ecx >>= (λ k'. some (0, k'))
    else if regs.eax == 1
    then preempt k >>= (λ k'. some (0, k'))
    else if regs.eax == 2
    then some (t.pid, k)
    else if regs.eax == 3
    then message_send k k.current_task regs.ecx regs.edx
    else if regs.eax == 4
    then message_receive k k.current_task regs.ecx regs.edx
    else some (0, k)

-- `current_task->context->eax = value`
unfoldable pub set_eax : Kernel → ℕ → Option Kernel
unfolding deref
set_eax k value = do
  t ← deref k k.current_task
  some (record k {
    contexts = upd k.contexts t.context (record (k.contexts t.context) { eax = value });
  })

unfoldable pub handle_kernel_call : Kernel → Option Kernel
unfolding deref
handle_kernel_call k = do
  t ← deref k k.current_task
  (result, k') ← call_result k t (k.contexts t.context)
  set_eax k' result

unfoldable pub after_context_switch : Kernel → Option Kernel
unfolding deref
after_context_switch k = do
  t ← deref k k.current_task
  if t.after_switch
      then (do
        (delivered, k') ←
            message_deliver (put_task k k.current_task (record t { after_switch = false }))
              k.current_task
        if delivered then set_eax k' 0 else some k')
      else some k
