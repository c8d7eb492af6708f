-- ===== src/Kernel/Ready/Turns.antt =====
-- Turns: a task gives up the processor, and the next one gets it, by preempt of task.c and the lines of
-- `resume` in i386/i386.S from the call of scheduler to the change of current_task.
use elco_os.Base.{
  ℕ, zero, suc, ◌≡◌, ◌<◌, inl, inr, refl, sym, ap, ◌∙◌, true, false, Option, some, ◌>>=◌, List, [],
  ◌∷◌, ◌++◌, length, arith, eq-cases, ==_iff, upd, erase, DistinctIn, ◌∈◌, ltb, Bool-cases,
}
use mathlib.Core.Path.{subst}
use mathlib.Core.List.{append_assoc, append-nil}
use elco_os.Chain.{Ptr}
use elco_os.Kernel.State.{Kernel, task_count}
use elco_os.Kernel.Ready.{scheduler, preempt}
use elco_os.Kernel.Ready.Inv.{Queues, Queues-transfer, Ready-DistinctIn}
use elco_os.Kernel.Ready.Refine.{preempt-rotate}
use elco_os.Kernel.Ready.Schedule.{Chosen, scheduler-Chosen}

unfoldable pub resume : Kernel → Kernel
resume k = let s = scheduler k in record s { current_task = s.next_task }

-- preempt, and then resume
unfoldable pub turn : Kernel → Option Kernel
turn k = preempt k >>= λ k1. some (resume k1)

unfoldable pub turns : (n : ℕ) → Kernel → Option Kernel
turns zero k = some k
turns (suc n) k = turn k >>= λ k1. turns n k1

-- The current task is the first of the queue of its priority, and no queue above that has a task.
pub record Heads (k : Kernel) (qs : ℕ → List Ptr) (prio : ℕ) (cur : Ptr) (rest : List Ptr)
    : Type 0 where
  pub queues : Queues k qs
  pub mine : qs prio ≡ cur ∷ rest
  pub above : (p : ℕ) → p < prio → qs p ≡ []
  pub inside : prio < 17
  pub running : k.current_task ≡ cur

cons_empty : (y : Ptr) (ys : List Ptr) → y ∷ ys ≡ [] → true ≡ false
cons_empty y ys e = ap {A = List Ptr} (λ l. elim l [ [] ↦ false | x ∷ xs ↦ true ]) e

first_of : (x y : Ptr) (xs ys : List Ptr) → x ∷ xs ≡ y ∷ ys → x ≡ y
first_of x y xs ys e = ap {A = List Ptr} (λ l. elim l [ [] ↦ x | z ∷ zs ↦ z ]) e

rest_of : (x y : Ptr) (xs ys : List Ptr) → x ∷ xs ≡ y ∷ ys → xs ≡ ys
rest_of x y xs ys e = ap {A = List Ptr} (λ l. elim l [ [] ↦ xs | z ∷ zs ↦ zs ]) e

-- the first task of the one nonempty queue at the top is chosen
Chosen-first :
    (qs : ℕ → List Ptr) (prio : ℕ) (y : Ptr) (ys : List Ptr) (idle next : Ptr)
    → qs prio ≡ y ∷ ys
    → ((p : ℕ) → p < prio → qs p ≡ [])
    → prio < 17
    → Chosen qs 0 17 idle next
    → next ≡ y
Chosen-first qs prio y ys idle next mine above lt (inr (empty, e)) =
    absurd (ground (arith, cons_empty y ys (sym mine ∙ empty prio (omega arith) (omega arith))))
Chosen-first qs prio y ys idle next mine above lt (inl (p, xs, lo, hi, e, before)) =
    elim (eq-cases p prio) [
      | inl same ↦ first_of next y xs ys (sym e ∙ ap qs ((==_iff p prio).0 same) ∙ mine)
      | inr other ↦ elim (Bool-cases (ltb p prio)) [
        | inl higher ↦ absurd (ground (arith, cons_empty next xs (sym e ∙ above p (ground arith))))
        | inr lower ↦
            absurd (
              ground (arith, cons_empty y ys (sym mine ∙ before prio (omega arith) (ground arith))))
      ]
    ]

-- the list after a turn begins with the task that was second, or with the same task
rotated : (cur : Ptr) (rest : List Ptr) → (y : Ptr) × (ys : List Ptr) × (rest ++ cur ∷ [] ≡ y ∷ ys)
rotated cur [] = (cur, [], refl)
rotated cur (x ∷ xs) = (x, xs ++ cur ∷ [], refl)

erase_head : (cur : Ptr) (rest : List Ptr) → erase cur (cur ∷ rest) ≡ rest
erase_head cur rest = ground arith

resume-Heads :
    (k : Kernel) (qs : ℕ → List Ptr) (prio : ℕ) (y : Ptr) (ys : List Ptr)
    → Queues k qs
    → k.reschedule_needed ≡ true
    → qs prio ≡ y ∷ ys
    → ((p : ℕ) → p < prio → qs p ≡ [])
    → prio < 17
    → Heads (resume k) qs prio y ys
unfolding resume
resume-Heads k qs prio y ys q asked mine above lt = elim (scheduler-Chosen k qs q) [
  | inl (quiet, same) ↦ absurd (ground (arith, asked, quiet))
  | inr (asked', chosen, same) ↦
      let s = scheduler k in
      record {
        queues =
            Queues-transfer k (record s { current_task = s.next_task }) qs q
              (ap (λ (z : Kernel). z.queue_head) same) (ap (λ (z : Kernel). z.queue_tail) same)
              (λ a. ap (λ (z : Kernel). (z.task a).next_ready) same)
              (λ a. ap (λ (z : Kernel). (z.task a).priority) same);
        mine = mine;
        above = above;
        inside = lt;
        running = Chosen-first qs prio y ys k.idle_task s.next_task mine above lt chosen;
      }
]

upd_here : (qs : ℕ → List Ptr) (p : ℕ) (l : List Ptr) → upd qs p l p ≡ l
upd_here qs p l = ground arith

upd_above : (qs : ℕ → List Ptr) (p r : ℕ) (l : List Ptr) → p < r → qs p ≡ [] → upd qs r l p ≡ []
upd_above qs p r l lt e = ground (arith, e)

turn-Heads :
    (k : Kernel) (qs : ℕ → List Ptr) (prio : ℕ) (cur : Ptr) (rest : List Ptr) (y : Ptr)
    (ys : List Ptr)
    → Heads k qs prio cur rest
    → rest ++ cur ∷ [] ≡ y ∷ ys
    → (k' : Kernel) × (turn k ≡ some k') × Heads k' (upd qs prio (y ∷ ys)) prio y ys
unfolding turn
turn-Heads k qs prio cur rest y ys h e =
    let ready = h.queues prio in
    let member : cur ∈ qs prio = rw h.mine (ground arith) in
    let distinct = subst (DistinctIn task_count) h.mine (Ready-DistinctIn k prio (qs prio) ready) in
    let own : (k.task k.current_task).priority ≡ prio = rw h.running (ready.belongs cur member) in
    let (k1, run, q1, asked, same) =
      preempt-rotate k qs (rw h.running (omega (arith, distinct.0)))
        (rw h.running (ready.in_table cur member)) h.queues in
    let list : erase k.current_task (qs (k.task k.current_task).priority) ++ k.current_task ∷ []
        ≡ y ∷ ys =
      rw own (rw h.running (rw h.mine (rw (erase_head cur rest) e))) in
    let q2 : Queues k1 (upd qs prio (y ∷ ys)) =
      subst (λ p. Queues k1 (upd qs p (y ∷ ys))) own
        (subst (λ l. Queues k1 (upd qs (k.task k.current_task).priority l)) list q1) in
    (
      resume k1,
      rw run refl,
      resume-Heads k1 (upd qs prio (y ∷ ys)) prio y ys q2 asked (upd_here qs prio (y ∷ ys))
          (λ p lt. upd_above qs p prio (y ∷ ys) lt (h.above p lt)) h.inside,
    )

-- A task in the queue of the current task, where no queue above that has a task, gets the processor
-- when every task in front of it has had its turn: after as many turns as tasks stand in front of it.
-- The tasks that had their turn then stand at the end of the queue, in their order.
pub turns-served :
    (before : List Ptr) (k : Kernel) (qs : ℕ → List Ptr) (prio : ℕ) (tsk : Ptr) (after : List Ptr)
    (cur : Ptr) (rest : List Ptr)
    → Heads k qs prio cur rest
    → cur ∷ rest ≡ before ++ tsk ∷ after
    → (k' : Kernel) × (qs' : ℕ → List Ptr) × (turns (length before) k ≡ some k')
      × (k'.current_task ≡ tsk)
      × Heads k' qs' prio tsk (after ++ before)
unfolding turns
turns-served [] k qs prio tsk after cur rest h e =
    let same = subst (λ l. qs prio ≡ l) e h.mine in
    let first = first_of cur tsk rest after e in
    (
      k,
      qs,
      refl,
      h.running ∙ first,
      record {
        queues = h.queues;
        mine = same ∙ ap (λ l. tsk ∷ l) (sym (append-nil after));
        above = h.above;
        inside = h.inside;
        running = h.running ∙ first;
      },
    )
turns-served (b ∷ bs) k qs prio tsk after cur rest h e =
    let (y, ys, next) = rotated cur rest in
    let (k1, run, h1) = turn-Heads k qs prio cur rest y ys h next in
    let others = rest_of cur b rest (bs ++ tsk ∷ after) e in
    let last = first_of cur b rest (bs ++ tsk ∷ after) e in
    let list : y ∷ ys ≡ bs ++ tsk ∷ (after ++ b ∷ []) =
      sym next ∙ rw others (rw last (append_assoc bs (tsk ∷ after) (b ∷ []))) in
    let (k', qs', run', current, h') =
      turns-served bs k1 (upd qs prio (y ∷ ys)) prio tsk (after ++ b ∷ []) y ys h1 list in
    (
      k',
      qs',
      rw run run',
      current,
      subst (Heads k' qs' prio tsk) (append_assoc after (b ∷ []) bs) h',
    )
