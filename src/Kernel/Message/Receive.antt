-- ===== src/Kernel/Message/Receive.antt =====
-- What message_receive and message_deliver of message.c promise.
use elco_os.Base.{
  DistinctIn, erase_self, ℕ, zero, suc, ◌≡◌, ◌≢◌, ◌<◌, ◌⊎◌, inl, inr, refl, Bool, true, false, some,
  List, [], ◌∷◌, ◌++◌, arith, ◌∈◌, ◌∉◌, erase, length, if◌then◌else◌, ◌==◌, upd, ap, ◌∙◌,
  Bool-cases, mem_of_mem-erase, not-mem-erase, ==_iff, eq-cases,
}
use elco_os.Chain.{Ptr, null, Chain, Chain-frame, not-mem_of_eq}
use elco_os.Kernel.State.{Task, Kernel, task_count, pid_no_task, zero_message}
use elco_os.Kernel.Ready.{block_task, unblock_task}
use elco_os.Kernel.Ready.Inv.{Queues, Queues-transfer}
use elco_os.Kernel.Ready.Refine.{enqueue_task-append, dequeue_task-erase}
use elco_os.Kernel.Message.{
  message_receive, message_deliver, find_sender, take_message, await_message, QSlot, q_head, q_link,
  read_q,
}
use elco_os.Kernel.Message.Inbox.{
  Inbox, sender_link, length-Inbox, Inbox-DistinctIn, Inbox-SameButQueues, fits, first_fit,
}

abbrev SlotBefore : QSlot → List Ptr → Type 0
SlotBefore q_head xs = Unit {0}
SlotBefore (q_link q) xs = q ∉ xs

abbrev owns : QSlot → Ptr → Bool
owns q_head a = false
owns (q_link q) a = a == q

not-owns :
    (prev : QSlot) (xs : List Ptr) → SlotBefore prev xs → (a : Ptr) → a ∈ xs → owns prev a ≡ false
not-owns q_head xs b a i = refl
not-owns (q_link q) xs b a i = ground (arith, not-mem_of_eq q a xs b)

-- the state after the sender `s` was taken out of the list behind the slot `prev`
record Taken (k : Kernel) (caller s : Ptr) (message : ℕ) (prev : QSlot) (xs : List Ptr)
    (k' : Kernel) : Type 0 where
  chain : Chain (sender_link k') (read_q k' caller prev) (erase s xs)
  links : (a : Ptr) → a ∉ xs → owns prev a ≡ false → sender_link k' a ≡ sender_link k a
  head_kept :
      (q : Ptr) → prev ≡ q_link q → (k'.task caller).message_q_head ≡ (k.task caller).message_q_head

module _ (k : Kernel) (caller s : Ptr) (message : ℕ) where
  take-link :
      (prev : QSlot) (a : Ptr)
      → sender_link (take_message k caller s prev message) a
        ≡ (if a == s then null else if owns prev a then sender_link k s else sender_link k a)
  unfolding take_message
  take-link q_head a = ground arith
  take-link (q_link q) a = ground arith

  take-slot :
      (prev : QSlot)
      → owns prev s ≡ false
      → read_q (take_message k caller s prev message) caller prev ≡ sender_link k s
  unfolding take_message
  take-slot q_head o = ground arith
  take-slot (q_link q) o = ground arith

  take-head_kept :
      (prev : QSlot) (q : Ptr)
      → prev ≡ q_link q
      → ((take_message k caller s prev message).task caller).message_q_head
        ≡ (k.task caller).message_q_head
  unfolding take_message
  take-head_kept q_head q e = cc
  take-head_kept (q_link p) q e = ground arith

  erase_head : (xs : List ℕ) → erase s (s ∷ xs) ≡ xs
  erase_head xs = ground arith

  take-Taken :
      (prev : QSlot) (xs : List Ptr)
      → Chain (sender_link k) (read_q k caller prev) (s ∷ xs)
      → SlotBefore prev (s ∷ xs)
      → Taken k caller s message prev (s ∷ xs) (take_message k caller s prev message)
  take-Taken prev xs c b =
      let free : owns prev s ≡ false = not-owns prev (s ∷ xs) b s (ground arith) in
      record {
        chain =
            rw (erase_head xs, take-slot prev free)
              (Chain-frame (sender_link k) (sender_link (take_message k caller s prev message))
                (sender_link k s) xs c.3
                (λ a i. ground (
                  arith,
                  take-link prev a,
                  not-owns prev (s ∷ xs) b a,
                  not-mem_of_eq s a xs c.2 i,
                )));
        links = λ a o n. ground (arith, take-link prev a);
        head_kept = take-head_kept prev;
      }

  kept-slot :
      (k' : Kernel) (x : Ptr) (prev : QSlot) (xs : List Ptr)
      → Chain (sender_link k) (read_q k caller prev) (x ∷ xs)
      → SlotBefore prev (x ∷ xs)
      → Taken k caller s message (q_link x) xs k'
      → read_q k' caller prev ≡ x
  kept-slot k' x q_head xs c b u = u.head_kept x refl ∙ c.0
  kept-slot k' x (q_link q) xs c b u = u.links q (ground arith) (ground arith) ∙ c.0

  erase_skip : (x : ℕ) (xs : List ℕ) → (x == s) ≡ false → erase s (x ∷ xs) ≡ x ∷ erase s xs
  erase_skip x xs n = ground arith

  skip-Taken :
      (k' : Kernel) (x : Ptr) (prev : QSlot) (xs : List Ptr)
      → (x == s) ≡ false
      → Chain (sender_link k) (read_q k caller prev) (x ∷ xs)
      → SlotBefore prev (x ∷ xs)
      → Taken k caller s message (q_link x) xs k'
      → Taken k caller s message prev (x ∷ xs) k'
  skip-Taken k' x prev xs ne c b u = record {
    chain =
        rw (erase_skip x xs ne)
          (kept-slot k' x prev xs c b u, c.1, not-mem-erase s x xs c.2, u.chain);
    links = λ a o n. u.links a (ground arith) (ground arith);
    head_kept = λ q e. u.head_kept x refl;
  }

not-erased : (n s a : ℕ) (xs : List ℕ) → DistinctIn n xs → a ∈ erase s xs → (a == s) ≡ false
not-erased n s a xs d i = elim (eq-cases a s) [
  | inl e ↦ absurd (cc (erase_self n s xs d, rw ((==_iff a s).0 e) at i))
  | inr ne ↦ ne
]

first_fit-mem :
    (k : Kernel) (origin_pid : ℕ) (xs : List Ptr)
    → first_fit k origin_pid xs ≢ null
    → first_fit k origin_pid xs ∈ xs
first_fit-mem k origin_pid [] ne = absurd (ne refl)
first_fit-mem k origin_pid (x ∷ xs) ne = ground (arith, first_fit-mem k origin_pid xs)

skip-case :
    (k : Kernel) (caller : Ptr) (origin_pid message : ℕ) (prev found : QSlot) (x : Ptr)
    (xs : List Ptr)
    → Chain (sender_link k) (read_q k caller prev) (x ∷ xs)
    → SlotBefore prev (x ∷ xs)
    → let s = first_fit k origin_pid xs in
      let k' = take_message k caller (first_fit k origin_pid xs) found message in
      ((s ≡ null) ⊎ Taken k caller s message (q_link x) xs k')
      → (s ≡ null) ⊎ Taken k caller s message prev (x ∷ xs) k'
skip-case k caller origin_pid message prev found x xs c b (inl none) = inl none
skip-case k caller origin_pid message prev found x xs c b (inr taken) =
    let s : Ptr = first_fit k origin_pid xs in
    elim (eq-cases s null) [
      | inl e ↦ inl ((==_iff s null).0 e)
      | inr ne ↦ inr (
          skip-Taken k caller s message (take_message k caller s found message) x prev xs
            (not-mem_of_eq x s xs c.2 (first_fit-mem k origin_pid xs (ground arith))) c b taken)
    ]

-- With fuel for the list, the search finds the first sender that fits; taking that sender's
-- message from the slot found takes the sender out of the list.
find_sender-first_fit :
    (fuel : ℕ) (k : Kernel) (caller : Ptr) (origin_pid message : ℕ) (prev : QSlot) (xs : List Ptr)
    → Chain (sender_link k) (read_q k caller prev) xs
    → SlotBefore prev xs
    → length xs < fuel
    → let s = first_fit k origin_pid xs in
      (found : QSlot) × (find_sender fuel k caller origin_pid prev ≡ some (found, s))
      × ((s ≡ null) ⊎ Taken k caller s message prev xs (take_message k caller s found message))
unfolding find_sender
find_sender-first_fit zero k caller origin_pid message prev xs c b f = absurd (omega arith)
find_sender-first_fit (suc fuel) k caller origin_pid message prev [] c b f =
    (prev, ground arith, inl refl)
find_sender-first_fit (suc fuel) k caller origin_pid message prev (x ∷ xs) c b f =
    elim (Bool-cases (fits k origin_pid x)) [
      | inl e ↦
          let hit : first_fit k origin_pid (x ∷ xs) ≡ x = ground arith in
          (prev, ground (arith, c.0, c.1), inr (rw hit (take-Taken k caller x message prev xs c b)))
      | inr e ↦
          let later : first_fit k origin_pid (x ∷ xs) ≡ first_fit k origin_pid xs = ground arith in
          let (found, run, t) =
            find_sender-first_fit fuel k caller origin_pid message (q_link x) xs c.3 c.2
              (omega arith) in
          (
            found,
            ground (arith, c.0, c.1, run),
            rw later (skip-case k caller origin_pid message prev found x xs c b t),
          )
    ]

module _ (k : Kernel) (caller s : Ptr) (message : ℕ) where
  taken-fields :
      (prev : QSlot) (a : Ptr)
      → let t = (take_message k caller s prev message).task a in
        (t.sending ≡ (if a == s then false else (k.task a).sending))
        × (t.message_send_to ≡ (if a == s then null else (k.task a).message_send_to))
        × (t.priority ≡ (k.task a).priority)
        × (t.next_ready ≡ (k.task a).next_ready)
  unfolding take_message
  taken-fields q_head a = (ground arith, ground arith, ground arith, ground arith)
  taken-fields (q_link q) a = (ground arith, ground arith, ground arith, ground arith)

  taken-messages :
      (prev : QSlot)
      → (take_message k caller s prev message).messages
        ≡ upd k.messages message (k.task s).message_buffer
  unfolding take_message
  taken-messages q_head = refl
  taken-messages (q_link q) = refl

  taken-Queues :
      (prev : QSlot) (qs : ℕ → List Ptr)
      → Queues k qs
      → Queues (take_message k caller s prev message) qs
  unfolding take_message
  taken-Queues q_head qs q =
      Queues-transfer k (take_message k caller s q_head message) qs q refl refl
        (λ a. (taken-fields q_head a).3) (λ a. (taken-fields q_head a).2)
  taken-Queues (q_link p) qs q =
      Queues-transfer k (take_message k caller s (q_link p) message) qs q refl refl
        (λ a. (taken-fields (q_link p) a).3) (λ a. (taken-fields (q_link p) a).2)

  take_message-Inbox :
      (prev : QSlot) (xs : List Ptr)
      → Inbox k caller xs
      → Taken k caller s message q_head xs (take_message k caller s prev message)
      → Inbox (take_message k caller s prev message) caller (erase s xs)
  take_message-Inbox prev xs b t = record {
    chain = t.chain;
    waiting = λ a i.
        let apart : (a == s) ≡ false =
          not-erased task_count s a xs (Inbox-DistinctIn k caller xs b) i in
        let w = b.waiting a (mem_of_mem-erase s a xs i) in
        (ground (arith, taken-fields prev a, w), ground (arith, taken-fields prev a, w));
    in_table = λ a i. b.in_table a (mem_of_mem-erase s a xs i);
  }

fit-Taken :
    {k : Kernel} {caller s : Ptr} {message : ℕ} {prev : QSlot} {xs : List Ptr} {k' : Kernel}
    → s ≢ null
    → (s ≡ null) ⊎ Taken k caller s message prev xs k'
    → Taken k caller s message prev xs k'
fit-Taken ne (inl e) = absurd (ne e)
fit-Taken ne (inr t) = t

-- the state of a receiver that began to wait
record Awaiting (k : Kernel) (caller : Ptr) (origin_pid message : ℕ) (k' : Kernel) : Type 0 where
  flag : (k'.task caller).receiving ≡ true
  rec_pid : (k'.task caller).message_rec_pid ≡ origin_pid
  ptr : (k'.task caller).message_ptr ≡ message
  prio : (k'.task caller).priority ≡ (k.task caller).priority
  messages : k'.messages ≡ k.messages
  others : (a : Ptr) → a ≢ caller → k'.task a ≡ k.task a

await-Awaiting :
    (k : Kernel) (caller : Ptr) (origin_pid message : ℕ)
    → Awaiting k caller origin_pid message (await_message k caller origin_pid message)
unfolding await_message
await-Awaiting k caller origin_pid message = record {
  flag = ground arith;
  rec_pid = ground arith;
  ptr = ground arith;
  prio = ground arith;
  messages = refl;
  others = λ a ne. ground arith;
}

await-Queues :
    (k : Kernel) (caller : Ptr) (origin_pid message : ℕ) (qs : ℕ → List Ptr)
    → Queues k qs
    → Queues (await_message k caller origin_pid message) qs
unfolding await_message
await-Queues k caller origin_pid message qs q =
    Queues-transfer k (await_message k caller origin_pid message) qs q refl refl (λ a. ground arith)
      (λ a. ground arith)

await-head :
    (k : Kernel) (caller : Ptr) (origin_pid message : ℕ) (a : Ptr)
    → ((await_message k caller origin_pid message).task a).message_q_head
      ≡ (k.task a).message_q_head
unfolding await_message
await-head k caller origin_pid message a = ground arith

await-Inbox :
    (k : Kernel) (caller : Ptr) (origin_pid message : ℕ) (xs : List Ptr)
    → Inbox k caller xs
    → Inbox (await_message k caller origin_pid message) caller xs
unfolding await_message
await-Inbox k caller origin_pid message xs b = record {
  chain = rw (await-head k caller origin_pid message caller) (
      Chain-frame (sender_link k) (sender_link (await_message k caller origin_pid message))
        (k.task caller).message_q_head xs b.chain (λ a i. ground arith));
  waiting = λ a i. ground (arith, b.waiting a i);
  in_table = b.in_table;
}

module _ (k : Kernel) (caller : Ptr) (origin_pid message : ℕ) (xs : List Ptr)
    (qs : ℕ → List Ptr) where
  -- A receive for which a sender waits returns 0 at once: the first fitting sender's message is in
  -- the caller's buffer and no other buffer is written, the sender leaves the list, is no longer
  -- marked as sending, and becomes the last of its ready queue; the other ready queues stand.
  pub message_receive-takes :
      caller ≢ null
      → origin_pid ≢ pid_no_task
      → Inbox k caller xs
      → first_fit k origin_pid xs ≢ null
      → Queues k qs
      → first_fit k origin_pid xs ∉ qs (k.task (first_fit k origin_pid xs)).priority
      → let s = first_fit k origin_pid xs in
        let prio = (k.task (first_fit k origin_pid xs)).priority in
        (k' : Kernel) × (message_receive k caller origin_pid message ≡ some (0, k'))
        × (k'.messages ≡ upd k.messages message (k.task s).message_buffer)
        × Inbox k' caller (erase s xs)
        × ((k'.task s).sending ≡ false)
        × Queues k' (upd qs prio (qs prio ++ s ∷ []))
  unfolding message_receive unblock_task
  message_receive-takes ne valid b some_fit q out =
      let s : Ptr = first_fit k origin_pid xs in
      let (found, run, t) =
        find_sender-first_fit (suc task_count) k caller origin_pid message q_head xs b.chain tt
          (omega (arith, length-Inbox k caller xs b)) in
      let k1 = take_message k caller s found message in
      let taken : Taken k caller s message q_head xs k1 = fit-Taken some_fit t in
      let f = taken-fields k caller s message found s in
      let (k2, run2, q2, r2, same) =
        enqueue_task-append k1 s qs some_fit (b.in_table s (first_fit-mem k origin_pid xs some_fit))
          (taken-Queues k caller s message found qs q) (rw f.2 out) in
      (
        k2,
        ground (arith, run, run2),
        ap (λ (t : Kernel). t.messages) same.others ∙ taken-messages k caller s message found,
        Inbox-SameButQueues k1 k2 caller (erase s xs) same
            (take_message-Inbox k caller s message found xs b taken),
        ap (λ (t : Task). t.sending) (same.tasks s) ∙ ground (arith, f),
        rw f.2 at q2,
      )

  -- A receive for which no fitting sender waits returns 0: the caller is marked as receiving from
  -- the given pid into the given buffer and leaves its ready queue; the other ready queues and
  -- the waiting senders stand, and no buffer is written.
  pub message_receive-waits :
      caller ≢ null
      → origin_pid ≢ pid_no_task
      → Inbox k caller xs
      → first_fit k origin_pid xs ≡ null
      → Queues k qs
      → let prio = (k.task caller).priority in
        (k' : Kernel) × (message_receive k caller origin_pid message ≡ some (0, k'))
        × ((k'.task caller).receiving ≡ true)
        × ((k'.task caller).message_rec_pid ≡ origin_pid)
        × ((k'.task caller).message_ptr ≡ message)
        × Inbox k' caller xs
        × Queues k' (upd qs prio (erase caller (qs prio)))
        × (k'.messages ≡ k.messages)
  unfolding message_receive block_task
  message_receive-waits ne valid b no_fit q =
      let (found, run, t) =
        find_sender-first_fit (suc task_count) k caller origin_pid message q_head xs b.chain tt
          (omega (arith, length-Inbox k caller xs b)) in
      let k1 = await_message k caller origin_pid message in
      let w = await-Awaiting k caller origin_pid message in
      let (k2, run2, q2, r2, same) =
        dequeue_task-erase k1 caller qs ne (await-Queues k caller origin_pid message qs q) in
      (
        k2,
        ground (arith, run, run2),
        ap (λ (t : Task). t.receiving) (same.tasks caller) ∙ w.flag,
        ap (λ (t : Task). t.message_rec_pid) (same.tasks caller) ∙ w.rec_pid,
        ap (λ (t : Task). t.message_ptr) (same.tasks caller) ∙ w.ptr,
        Inbox-SameButQueues k1 k2 caller xs same (await-Inbox k caller origin_pid message xs b),
        rw w.prio at q2,
        ap (λ (s : Kernel). s.messages) same.others ∙ w.messages,
      )

abbrev delivered : Kernel → Ptr → Kernel
delivered k caller = record k {
  messages = upd k.messages (k.task caller).message_ptr (k.task caller).message_buffer;
  task = upd k.task caller (record (k.task caller) {
    message_buffer = zero_message;
    delivering = false;
    message_rec_pid = pid_no_task;
    message_ptr = 0;
  });
}

-- After a send handed a message to a waiting receiver, its delivery copies the message to the
-- buffer that the receiver gave, clears the receiver's own copy and its mark, and tells so.
pub message_deliver-copies :
    (k : Kernel) (caller : Ptr)
    → caller ≢ null
    → (k.task caller).delivering ≡ true
    → (k' : Kernel) × (message_deliver k caller ≡ some (true, k'))
      × (k'.messages ≡ upd k.messages (k.task caller).message_ptr (k.task caller).message_buffer)
      × ((k'.task caller).delivering ≡ false)
      × ((k'.task caller).message_buffer ≡ zero_message)
      × ((a : Ptr) → (a == caller) ≡ false → k'.task a ≡ k.task a)
unfolding message_deliver
message_deliver-copies k caller ne d =
    (delivered k caller, ground arith, refl, ground arith, ground arith, λ a n. ground arith)
