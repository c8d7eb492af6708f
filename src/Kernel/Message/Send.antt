-- ===== src/Kernel/Message/Send.antt =====
-- What message_send of message.c promises on its three branches.
use elco_os.Base.{
  ℕ, ◌≡◌, ◌≢◌, ◌≤◌, refl, true, false, some, List, [], ◌∷◌, ◌++◌, arith, ◌∈◌, ◌∉◌, erase, last_or,
  last_or-mem, has-append, ◌==◌, upd, ap, ◌∙◌,
}
use elco_os.Chain.{Ptr, null, Chain-frame, Chain-snoc, not-mem_of_eq}
use elco_os.Kernel.State.{Task, Kernel, task_count}
use elco_os.Kernel.Ready.{block_task, unblock_task}
use elco_os.Kernel.Ready.Inv.{Queues, Queues-transfer}
use elco_os.Kernel.Ready.Refine.{enqueue_task-append, dequeue_task-erase}
use elco_os.Kernel.Tasks.{find_task}
use elco_os.Kernel.Tasks.Create.{find_task-le}
use elco_os.Kernel.Message.{
  message_send, append_sender, hand_over, post, set_q_head, set_q_next, waits_for, minus_one,
}
use elco_os.Kernel.Message.Inbox.{
  Inbox, sender_link, length-Inbox, Inbox-SameButQueues, last_sender-last_or,
}

-- the state after the list of `dest`, whose senders are `xs`, got `caller` as its last
abbrev appended : Kernel → Ptr → Ptr → List Ptr → Kernel
appended k dest caller [] = set_q_next (set_q_head k dest caller) caller null
appended k dest caller (x ∷ xs) = set_q_next (set_q_next k (last_or x xs) caller) caller null

append_sender-run :
    (k : Kernel) (dest caller : Ptr) (xs : List Ptr)
    → Inbox k dest xs
    → append_sender k dest caller ≡ some (appended k dest caller xs)
unfolding append_sender
append_sender-run k dest caller [] b = ground (arith, b.chain)
append_sender-run k dest caller (x ∷ xs) b = ground (
  arith,
  b.chain,
  last_sender-last_or task_count k (k.task dest).message_q_head x xs b.chain
      (length-Inbox k dest (x ∷ xs) b),
)

-- what the writes to the list leave alone
record SameButSenders (k k' : Kernel) : Type 0 where
  tasks :
      (a : Ptr)
      → k'.task a ≡ record (k.task a) {
        message_q_head = (k'.task a).message_q_head;
        message_q_next = (k'.task a).message_q_next;
      }
  others : k' ≡ record k { task = k'.task }

appended-SameButSenders :
    (k : Kernel) (dest caller : Ptr) (xs : List Ptr) → SameButSenders k (appended k dest caller xs)
unfolding set_q_head set_q_next
appended-SameButSenders k dest caller [] = record { tasks = λ a. ground arith; others = refl }
appended-SameButSenders k dest caller (x ∷ xs) = record { tasks = λ a. ground arith; others = refl }

appended-head :
    (k : Kernel) (dest caller x : Ptr) (xs : List Ptr) (a : Ptr)
    → ((appended k dest caller (x ∷ xs)).task a).message_q_head ≡ (k.task a).message_q_head
unfolding set_q_head set_q_next
appended-head k dest caller x xs a = ground arith

-- a waiting task stays one
waiting-kept :
    (k : Kernel) (dest caller : Ptr) (xs : List Ptr) (a : Ptr)
    → ((k.task a).sending ≡ true) × ((k.task a).message_send_to ≡ dest)
    → (((appended k dest caller xs).task a).sending ≡ true)
      × (((appended k dest caller xs).task a).message_send_to ≡ dest)
waiting-kept k dest caller xs a (s, t) =
    let same = (appended-SameButSenders k dest caller xs).tasks a in
    (ap (λ (u : Task). u.sending) same ∙ s, ap (λ (u : Task). u.message_send_to) same ∙ t)

mem-snoc :
    (k : Kernel) (dest caller : Ptr) (xs : List Ptr)
    → ((k.task caller).sending ≡ true) × ((k.task caller).message_send_to ≡ dest)
    → ((a : Ptr) → a ∈ xs → ((k.task a).sending ≡ true) × ((k.task a).message_send_to ≡ dest))
    → (a : Ptr) → a ∈ xs ++ caller ∷ []
    → ((k.task a).sending ≡ true) × ((k.task a).message_send_to ≡ dest)
mem-snoc k dest caller xs own w a i = ground (arith, has-append a xs (caller ∷ []), w a)

appended-Inbox :
    (k : Kernel) (dest caller : Ptr) (xs : List Ptr)
    → Inbox k dest xs
    → caller ≢ null
    → caller ≤ task_count
    → (k.task caller).sending ≡ true
    → (k.task caller).message_send_to ≡ dest
    → caller ∉ xs
    → Inbox (appended k dest caller xs) dest (xs ++ caller ∷ [])
unfolding set_q_head set_q_next
appended-Inbox k dest caller [] b ne small s t out = record {
  chain = ground arith;
  waiting = λ a i. (ground arith, ground arith);
  in_table = λ a i. ground arith;
}
appended-Inbox k dest caller (x ∷ xs) b ne small s t out =
    let k' = appended k dest caller (x ∷ xs) in
    let apart : (caller == last_or x xs) ≡ false =
      not-mem_of_eq caller (last_or x xs) (x ∷ xs) out (last_or-mem x xs) in
    record {
      chain = rw (appended-head k dest caller x xs dest) (
          Chain-snoc (sender_link k) (sender_link k') (k.task dest).message_q_head x caller xs
            b.chain ne out (ground arith) (ground (arith, apart)) (λ a n i. ground (arith, apart)));
      waiting = λ a i.
          waiting-kept k dest caller (x ∷ xs) a
            (mem-snoc k dest caller (x ∷ xs) (s, t) b.waiting a i);
      in_table = λ a i. ground (arith, has-append a (x ∷ xs) (caller ∷ []), b.in_table a);
    }

post-head :
    (k : Kernel) (caller dest : Ptr) (message : ℕ) (a : Ptr)
    → ((post k caller dest message).task a).message_q_head ≡ (k.task a).message_q_head
unfolding post
post-head k caller dest message a = ground arith

post-own :
    (k : Kernel) (caller dest : Ptr) (message : ℕ)
    → (((post k caller dest message).task caller).sending ≡ true)
      × (((post k caller dest message).task caller).message_send_to ≡ dest)
unfolding post
post-own k caller dest message = (ground arith, ground arith)

post-Inbox :
    (k : Kernel) (caller dest : Ptr) (message : ℕ) (xs : List Ptr)
    → Inbox k dest xs
    → Inbox (post k caller dest message) dest xs
unfolding post
post-Inbox k caller dest message xs b = record {
  chain = rw (post-head k caller dest message dest) (
      Chain-frame (sender_link k) (sender_link (post k caller dest message))
        (k.task dest).message_q_head xs b.chain (λ a i. ground arith));
  waiting = λ a i. ground (arith, b.waiting a i);
  in_table = b.in_table;
}

-- what the sender's part, before it blocks, leaves
queued-Queues :
    (k : Kernel) (caller dest : Ptr) (message : ℕ) (xs : List Ptr) (qs : ℕ → List Ptr)
    → Queues k qs
    → Queues (appended (post k caller dest message) dest caller xs) qs
unfolding post set_q_head set_q_next
queued-Queues k caller dest message [] qs q =
    Queues-transfer k (appended (post k caller dest message) dest caller []) qs q refl refl
      (λ a. ground arith) (λ a. ground arith)
queued-Queues k caller dest message (x ∷ xs) qs q =
    Queues-transfer k (appended (post k caller dest message) dest caller (x ∷ xs)) qs q refl refl
      (λ a. ground arith) (λ a. ground arith)

-- the fields of the sender after it queued
record Posted (k : Kernel) (caller dest : Ptr) (message : ℕ) (k' : Kernel) : Type 0 where
  buffer : (k'.task caller).message_buffer ≡ k.messages message
  prio : (k'.task caller).priority ≡ (k.task caller).priority
  messages : k'.messages ≡ k.messages

queued-Posted :
    (k : Kernel) (caller dest : Ptr) (message : ℕ) (xs : List Ptr)
    → Posted k caller dest message (appended (post k caller dest message) dest caller xs)
unfolding post set_q_head set_q_next
queued-Posted k caller dest message [] = record {
  buffer = ground arith;
  prio = ground arith;
  messages = refl;
}
queued-Posted k caller dest message (x ∷ xs) = record {
  buffer = ground arith;
  prio = ground arith;
  messages = refl;
}

-- the fields of the receiver that a message was handed to
record Handed (k : Kernel) (dest : Ptr) (message : ℕ) (k' : Kernel) : Type 0 where
  buffer : (k'.task dest).message_buffer ≡ k.messages message
  waits_no_more : (k'.task dest).receiving ≡ false
  delivers : (k'.task dest).delivering ≡ true
  after : (k'.task dest).after_switch ≡ true
  ptr : (k'.task dest).message_ptr ≡ (k.task dest).message_ptr
  prio : (k'.task dest).priority ≡ (k.task dest).priority
  messages : k'.messages ≡ k.messages

hand_over-Handed :
    (k : Kernel) (dest : Ptr) (message : ℕ) → Handed k dest message (hand_over k dest message)
unfolding hand_over
hand_over-Handed k dest message = record {
  buffer = ground arith;
  waits_no_more = ground arith;
  delivers = ground arith;
  after = ground arith;
  ptr = ground arith;
  prio = ground arith;
  messages = refl;
}

hand_over-Queues :
    (k : Kernel) (dest : Ptr) (message : ℕ) (qs : ℕ → List Ptr)
    → Queues k qs
    → Queues (hand_over k dest message) qs
unfolding hand_over
hand_over-Queues k dest message qs q =
    Queues-transfer k (hand_over k dest message) qs q refl refl (λ a. ground arith)
      (λ a. ground arith)

module _ (k : Kernel) (caller : Ptr) (dest_pid message : ℕ) (xs : List Ptr)
    (qs : ℕ → List Ptr) where
  -- A send to a task that exists and does not wait for the caller returns 0: the caller becomes
  -- the last of the receiver's waiting senders, holds the message in its buffer, and leaves its
  -- ready queue; the other ready queues stand, and no buffer that a task has lent is written.
  pub message_send-posts :
      find_task k dest_pid ≢ null
      → caller ≢ null
      → caller ≤ task_count
      → waits_for (k.task (find_task k dest_pid)) (k.task caller).pid ≡ false
      → Inbox k (find_task k dest_pid) xs
      → caller ∉ xs
      → Queues k qs
      → let prio = (k.task caller).priority in
        (k' : Kernel) × (message_send k caller dest_pid message ≡ some (0, k'))
        × Inbox k' (find_task k dest_pid) (xs ++ caller ∷ [])
        × ((k'.task caller).message_buffer ≡ k.messages message)
        × Queues k' (upd qs prio (erase caller (qs prio)))
        × (k'.messages ≡ k.messages)
  unfolding message_send block_task
  message_send-posts found ne small busy b out q =
      let dest = find_task k dest_pid in
      let k1 = post k caller dest message in
      let k2 = appended k1 dest caller xs in
      let p = queued-Posted k caller dest message xs in
      let (k3, run, q3, r3, same) =
        dequeue_task-erase k2 caller qs ne (queued-Queues k caller dest message xs qs q) in
      let b1 = post-Inbox k caller dest message xs b in
      let own : ((k1.task caller).sending ≡ true) × ((k1.task caller).message_send_to ≡ dest) =
        post-own k caller dest message in
      let b2 = appended-Inbox k1 dest caller xs b1 ne small own.0 own.1 out in
      (
        k3,
        ground (arith, append_sender-run k1 dest caller xs b1, run),
        Inbox-SameButQueues k2 k3 dest (xs ++ caller ∷ []) same b2,
        ap (λ (t : Task). t.message_buffer) (same.tasks caller) ∙ p.buffer,
        rw p.prio at q3,
        ap (λ (s : Kernel). s.messages) same.others ∙ p.messages,
      )

  -- A send to a task that waits for the caller, or for anyone, returns 0: the receiver, which was not
  -- queued, becomes the last of its ready queue, holds the message, waits no longer, and is marked for
  -- delivery. The other ready queues stand, and a new choice of the next task is asked for.
  pub message_send-wakes :
      find_task k dest_pid ≢ null
      → caller ≢ null
      → waits_for (k.task (find_task k dest_pid)) (k.task caller).pid ≡ true
      → Queues k qs
      → find_task k dest_pid ∉ qs (k.task (find_task k dest_pid)).priority
      → let dest = find_task k dest_pid in
        let prio = (k.task (find_task k dest_pid)).priority in
        (k' : Kernel) × (message_send k caller dest_pid message ≡ some (0, k'))
        × Queues k' (upd qs prio (qs prio ++ dest ∷ []))
        × ((k'.task dest).message_buffer ≡ k.messages message)
        × ((k'.task dest).receiving ≡ false)
        × ((k'.task dest).delivering ≡ true)
        × ((k'.task dest).after_switch ≡ true)
        × ((k'.task dest).message_ptr ≡ (k.task dest).message_ptr)
        × (k'.messages ≡ k.messages)
        × (k'.reschedule_needed ≡ true)
  unfolding message_send unblock_task
  message_send-wakes found ne waits q out =
      let dest = find_task k dest_pid in
      let k1 = hand_over k dest message in
      let h = hand_over-Handed k dest message in
      let (k2, run, q2, r2, same) =
        enqueue_task-append k1 dest qs found (find_task-le k dest_pid)
          (hand_over-Queues k dest message qs q) (rw h.prio out) in
      (
        k2,
        ground (arith, run),
        rw h.prio at q2,
        ap (λ (t : Task). t.message_buffer) (same.tasks dest) ∙ h.buffer,
        ap (λ (t : Task). t.receiving) (same.tasks dest) ∙ h.waits_no_more,
        ap (λ (t : Task). t.delivering) (same.tasks dest) ∙ h.delivers,
        ap (λ (t : Task). t.after_switch) (same.tasks dest) ∙ h.after,
        ap (λ (t : Task). t.message_ptr) (same.tasks dest) ∙ h.ptr,
        ap (λ (s : Kernel). s.messages) same.others ∙ h.messages,
        r2,
      )

  -- A send to a pid that no task has is refused with -1 and changes nothing.
  pub message_send-unknown :
      find_task k dest_pid ≡ null → message_send k caller dest_pid message ≡ some (minus_one, k)
  unfolding message_send
  message_send-unknown e = rw e
