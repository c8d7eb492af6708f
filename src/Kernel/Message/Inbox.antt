-- ===== src/Kernel/Message/Inbox.antt =====
-- The senders that wait for a task, as a list; the walk to its end, and the search in it.
use elco_os.Base.{
  ℕ, zero, suc, ◌≡◌, ◌≤◌, ◌<◌, Bool, true, ◌||◌, some, List, [], ◌∷◌, arith, ◌∈◌, length, last_or,
  DistinctIn, length-DistinctIn, if◌then◌else◌, ◌==◌, ap, ◌∙◌,
}
use elco_os.Chain.{Ptr, null, Chain, Chain-frame, Chain-DistinctIn}
use elco_os.Kernel.State.{Task, Kernel, task_count, pid_all_tasks}
use elco_os.Kernel.Ready.Inv.{SameButQueues}
use elco_os.Kernel.Message.{last_sender}

-- the link of the lists of senders
abbrev pub sender_link : Kernel → Ptr → Ptr
sender_link k p = (k.task p).message_q_next

-- The tasks `xs`, first to last, wait in the list of `dest`.
pub record Inbox (k : Kernel) (dest : Ptr) (xs : List Ptr) : Type 0 where
  pub chain : Chain (sender_link k) (k.task dest).message_q_head xs
  pub waiting :
      (a : Ptr) → a ∈ xs → ((k.task a).sending ≡ true) × ((k.task a).message_send_to ≡ dest)
  pub in_table : (a : Ptr) → a ∈ xs → a ≤ task_count

pub Inbox-DistinctIn :
    (k : Kernel) (dest : Ptr) (xs : List Ptr) → Inbox k dest xs → DistinctIn task_count xs
Inbox-DistinctIn k dest xs b =
    Chain-DistinctIn task_count (sender_link k) (k.task dest).message_q_head xs b.chain b.in_table

pub length-Inbox :
    (k : Kernel) (dest : Ptr) (xs : List Ptr) → Inbox k dest xs → length xs ≤ task_count
length-Inbox k dest xs b = length-DistinctIn task_count xs (Inbox-DistinctIn k dest xs b)

-- Writes to the ready queues leave the lists of senders alone.
pub Inbox-SameButQueues :
    (k k' : Kernel) (dest : Ptr) (xs : List Ptr)
    → SameButQueues k k'
    → Inbox k dest xs
    → Inbox k' dest xs
Inbox-SameButQueues k k' dest xs s b = record {
  chain = rw (ap (λ (t : Task). t.message_q_head) (s.tasks dest)) (
      Chain-frame (sender_link k) (sender_link k') (k.task dest).message_q_head xs b.chain
        (λ a i. ap (λ (t : Task). t.message_q_next) (s.tasks a)));
  waiting = λ a i. (
    ap (λ (t : Task). t.sending) (s.tasks a) ∙ (b.waiting a i).0,
    ap (λ (t : Task). t.message_send_to) (s.tasks a) ∙ (b.waiting a i).1,
  );
  in_table = b.in_table;
}

-- With fuel for the list, the walk ends at its last entry.
pub last_sender-last_or :
    (fuel : ℕ) (k : Kernel) (p x : Ptr) (xs : List Ptr)
    → Chain (sender_link k) p (x ∷ xs)
    → length xs < fuel
    → last_sender fuel k x ≡ some (last_or x xs)
unfolding last_sender
last_sender-last_or zero k p x xs c f = absurd (omega arith)
last_sender-last_or (suc fuel) k p x [] c f = ground arith
last_sender-last_or (suc fuel) k p x (y ∷ ys) (e, ne, out, c) f =
    ground (arith, last_sender-last_or fuel k (sender_link k x) y ys c (omega arith))

abbrev pub fits : Kernel → ℕ → Ptr → Bool
fits k origin_pid a = origin_pid == pid_all_tasks || origin_pid == (k.task a).pid

-- the first waiting sender that a receiver of `origin_pid` accepts, NULL if there is none
abbrev pub first_fit : Kernel → ℕ → List Ptr → Ptr
first_fit k origin_pid [] = null
first_fit k origin_pid (x ∷ xs) = if fits k origin_pid x then x else first_fit k origin_pid xs
