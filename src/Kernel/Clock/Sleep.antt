-- ===== src/Kernel/Clock/Sleep.antt =====
-- What sleep_ms of clock.c promises.
use mathlib.Core.Path.{subst}
use elco_os.Base.{
  ℕ, zero, suc, ◌+◌, ◌^◌, ◌≡◌, ◌≢◌, ◌≤◌, ◌<◌, inl, inr, refl, Bool, true, false, Bool-cases, some,
  List, [], ◌∷◌, arith, ◌∈◌, ◌∉◌, length, if◌then◌else◌, ◌==◌, ltb, upd, ap, ◌∙◌, erase, eq-cases,
}
use elco_os.Chain.{Ptr, null, Chain, Chain-frame, not-mem_of_eq}
use elco_os.Kernel.State.{Task, Kernel, put_task, task_count}
use elco_os.Kernel.Ready.{block_task}
use elco_os.Kernel.Ready.Inv.{Queues, Queues-transfer}
use elco_os.Kernel.Ready.Refine.{dequeue_task-erase}
use elco_os.Kernel.Clock.{TSlot, t_head, t_link, read_t, find_slot, insert_at, expiry, sleep_ms}
use elco_os.Kernel.Clock.Timers.{
  Timers, timer_link, expire, insert, insert-IsSorted, IsSorted, has-insert, IsSorted-frame,
  Timers-SameButQueues, length-Timers,
}

abbrev prio_of : Kernel → Ptr → ℕ
prio_of k a = (k.task a).priority

abbrev SlotBefore : TSlot → List Ptr → Type 0
SlotBefore t_head xs = Unit {0}
SlotBefore (t_link q) xs = q ∉ xs

abbrev owns : TSlot → Ptr → Bool
owns t_head a = false
owns (t_link q) a = a == q

not-owns :
    (nxt : TSlot) (xs : List Ptr) → SlotBefore nxt xs → (a : Ptr) → a ∈ xs → owns nxt a ≡ false
not-owns t_head xs b a i = refl
not-owns (t_link q) xs b a i = ground (arith, not-mem_of_eq q a xs b)

-- `t` stands, in the list behind the slot `nxt`, before the first entry that wakes later
record Placed (k : Kernel) (ticks t : ℕ) (nxt : TSlot) (xs : List Ptr) (k' : Kernel) : Type 0 where
  chain : Chain (timer_link k') (read_t k' nxt) (insert (expire k) ticks t xs)
  links :
      (a : Ptr) → a ∉ xs → owns nxt a ≡ false → (a == t) ≡ false → timer_link k' a ≡ timer_link k a
  head_kept : (q : Ptr) → nxt ≡ t_link q → k'.next_timer_event ≡ k.next_timer_event

module _ (k : Kernel) (t : Ptr) where
  insert_at-link :
      (nxt : TSlot) (a : Ptr)
      → timer_link (insert_at k t nxt) a
        ≡ (if owns nxt a then t else if a == t then read_t k nxt else timer_link k a)
  unfolding insert_at
  insert_at-link t_head a = ground arith
  insert_at-link (t_link q) a = ground arith

  insert_at-slot : (nxt : TSlot) → read_t (insert_at k t nxt) nxt ≡ t
  unfolding insert_at
  insert_at-slot t_head = refl
  insert_at-slot (t_link q) = ground arith

  insert_at-head :
      (nxt : TSlot) (q : Ptr)
      → nxt ≡ t_link q
      → (insert_at k t nxt).next_timer_event ≡ k.next_timer_event
  unfolding insert_at
  insert_at-head t_head q e = cc
  insert_at-head (t_link p) q e = refl

  -- where the entries behind the slot are to stay behind `t`
  insert_at-Placed :
      (ticks : ℕ) (nxt : TSlot) (xs : List Ptr)
      → t ≢ null
      → t ∉ xs
      → owns nxt t ≡ false
      → Chain (timer_link k) (read_t k nxt) xs
      → SlotBefore nxt xs
      → insert (expire k) ticks t xs ≡ t ∷ xs
      → Placed k ticks t nxt xs (insert_at k t nxt)
  insert_at-Placed ticks nxt xs ne out free c b e = record {
    chain = rw e (
      insert_at-slot nxt,
      ne,
      out,
      rw (own_link nxt free) (
          Chain-frame (timer_link k) (timer_link (insert_at k t nxt)) (read_t k nxt) xs c (λ a i.
            ground (arith, insert_at-link nxt a, not-owns nxt xs b a, not-mem_of_eq t a xs out i))),
    );
    links = λ a o n m. ground (arith, insert_at-link nxt a);
    head_kept = insert_at-head nxt;
  }
    where
      own_link : (s : TSlot) → owns s t ≡ false → timer_link (insert_at k t s) t ≡ read_t k s
      own_link s f = ground (arith, insert_at-link s t)

  kept-slot :
      (ticks : ℕ) (k' : Kernel) (x : Ptr) (nxt : TSlot) (xs : List Ptr)
      → owns nxt t ≡ false
      → Chain (timer_link k) (read_t k nxt) (x ∷ xs)
      → SlotBefore nxt (x ∷ xs)
      → Placed k ticks t (t_link x) xs k'
      → read_t k' nxt ≡ x
  kept-slot ticks k' x t_head xs free c b u = u.head_kept x refl ∙ c.0
  kept-slot ticks k' x (t_link q) xs free c b u =
      u.links q (ground arith) (ground arith) (ground arith) ∙ c.0

not-mem-insert :
    (f : Ptr → ℕ) (ticks : ℕ) (t a : Ptr) (xs : List Ptr)
    → (a == t) ≡ false
    → a ∉ xs
    → a ∉ insert f ticks t xs
not-mem-insert f ticks t a xs ne out = ground (arith, has-insert f ticks t a xs)

insert_later :
    (f : Ptr → ℕ) (ticks t x : ℕ) (xs : List Ptr)
    → ltb ticks (f x) ≡ true
    → insert f ticks t (x ∷ xs) ≡ t ∷ x ∷ xs
insert_later f ticks t x xs e = ground arith

insert_sooner :
    (f : Ptr → ℕ) (ticks t x : ℕ) (xs : List Ptr)
    → ltb ticks (f x) ≡ false
    → insert f ticks t (x ∷ xs) ≡ x ∷ insert f ticks t xs
insert_sooner f ticks t x xs e = ground arith

skip-Placed :
    (k k' : Kernel) (ticks t x : ℕ) (nxt : TSlot) (xs : List Ptr)
    → (x == t) ≡ false
    → owns nxt t ≡ false
    → ltb ticks (expire k x) ≡ false
    → Chain (timer_link k) (read_t k nxt) (x ∷ xs)
    → SlotBefore nxt (x ∷ xs)
    → Placed k ticks t (t_link x) xs k'
    → Placed k ticks t nxt (x ∷ xs) k'
skip-Placed k k' ticks t x nxt xs ne free e c b u = record {
  chain = rw (insert_sooner (expire k) ticks t x xs e) (
    kept-slot k t ticks k' x nxt xs free c b u,
    c.1,
    not-mem-insert (expire k) ticks t x xs ne c.2,
    u.chain,
  );
  links = λ a o n m. u.links a (ground arith) (ground arith) m;
  head_kept = λ q eq. u.head_kept x refl;
}

-- With fuel for the list, the search finds the slot where the new sleeper belongs.
find_slot-Placed :
    (fuel : ℕ) (k : Kernel) (ticks t : ℕ) (nxt : TSlot) (xs : List Ptr)
    → t ≢ null
    → t ∉ xs
    → owns nxt t ≡ false
    → Chain (timer_link k) (read_t k nxt) xs
    → SlotBefore nxt xs
    → length xs < fuel
    → (found : TSlot) × (find_slot fuel k ticks nxt ≡ some found)
      × Placed k ticks t nxt xs (insert_at k t found)
unfolding find_slot
find_slot-Placed zero k ticks t nxt xs ne out free c b f = absurd (omega arith)
find_slot-Placed (suc fuel) k ticks t nxt [] ne out free c b f =
    (nxt, ground arith, insert_at-Placed k t ticks nxt [] ne out free c b refl)
find_slot-Placed (suc fuel) k ticks t nxt (x ∷ xs) ne out free c b f =
    elim (Bool-cases (ltb ticks (expire k x))) [
      | inl e ↦ (
        nxt,
        ground (arith, c.0, c.1),
        insert_at-Placed k t ticks nxt (x ∷ xs) ne out free c b
            (insert_later (expire k) ticks t x xs e),
      )
      | inr e ↦
          let (found, run, u) =
            find_slot-Placed fuel k ticks t (t_link x) xs ne (ground arith) (ground arith) c.3 c.2
              (omega arith) in
          (
            found,
            ground (arith, c.0, c.1, run),
            skip-Placed k (insert_at k t found) ticks t x nxt xs (ground arith) free e c b u,
          )
    ]

insert-cong :
    (f g : Ptr → ℕ) (ticks t : ℕ) (xs : List Ptr)
    → ((a : Ptr) → a ∈ xs → g a ≡ f a)
    → insert g ticks t xs ≡ insert f ticks t xs
insert-cong f g ticks t [] same = refl
insert-cong f g ticks t (x ∷ xs) same =
    ground (arith, same x, insert-cong f g ticks t xs (λ a i. same a (ground arith)))

insert_at-fields :
    (k : Kernel) (t : Ptr) (nxt : TSlot) (a : Ptr)
    → let u = (insert_at k t nxt).task a in
      (u.timer_expire ≡ (k.task a).timer_expire)
      × (u.priority ≡ (k.task a).priority)
      × (u.next_ready ≡ (k.task a).next_ready)
unfolding insert_at
insert_at-fields k t t_head a = (ground arith, ground arith, ground arith)
insert_at-fields k t (t_link q) a = (ground arith, ground arith, ground arith)

insert_at-Queues :
    (k : Kernel) (t : Ptr) (nxt : TSlot) (qs : ℕ → List Ptr)
    → Queues k qs
    → Queues (insert_at k t nxt) qs
unfolding insert_at
insert_at-Queues k t t_head qs q =
    Queues-transfer k (insert_at k t t_head) qs q refl refl (λ a. (insert_at-fields k t t_head a).2)
      (λ a. (insert_at-fields k t t_head a).1)
insert_at-Queues k t (t_link p) qs q =
    Queues-transfer k (insert_at k t (t_link p)) qs q refl refl
      (λ a. (insert_at-fields k t (t_link p) a).2) (λ a. (insert_at-fields k t (t_link p) a).1)

-- the state with the tick written at which the current task wakes
abbrev dated : Kernel → ℕ → Kernel
dated k ticks = put_task k k.current_task (record (k.task k.current_task) { timer_expire = ticks })

dated-Queues :
    (k : Kernel) (ticks : ℕ) (qs : ℕ → List Ptr) → Queues k qs → Queues (dated k ticks) qs
dated-Queues k ticks qs q =
    Queues-transfer k (dated k ticks) qs q refl refl (λ a. ground arith) (λ a. ground arith)

dated-Chain :
    (k : Kernel) (ticks : ℕ) (xs : List Ptr)
    → Timers k xs
    → Chain (timer_link (dated k ticks)) (dated k ticks).next_timer_event xs
dated-Chain k ticks xs t =
    Chain-frame (timer_link k) (timer_link (dated k ticks)) k.next_timer_event xs t.chain
      (λ a i. ground arith)

-- what the sleeper's part, before it blocks, leaves
insert_at-Timers :
    (k : Kernel) (ticks : ℕ) (found : TSlot) (xs : List Ptr)
    → k.current_task ≤ task_count
    → k.current_task ∉ xs
    → Timers k xs
    → Placed
        (dated k ticks)
        ticks
        k.current_task
        t_head
        xs
        (insert_at (dated k ticks) k.current_task found)
    → Timers
        (insert_at (dated k ticks) k.current_task found)
        (insert (expire k) ticks k.current_task xs)
insert_at-Timers k ticks found xs small awake t u =
    let cur = k.current_task in
    let k1 = dated k ticks in
    let k2 = insert_at k1 cur found in
    let wakes : (a : Ptr) → expire k2 a ≡ (if a == cur then ticks else expire k a) =
      λ a. (insert_at-fields k1 cur found a).0 ∙ ground arith in
    let same : insert (expire k1) ticks cur xs ≡ insert (expire k) ticks cur xs =
      insert-cong (expire k) (expire k1) ticks cur xs
        (λ a i. ground (arith, not-mem_of_eq cur a xs awake i)) in
    let same2 : insert (expire k2) ticks cur xs ≡ insert (expire k) ticks cur xs =
      insert-cong (expire k) (expire k2) ticks cur xs
        (λ a i. ground (arith, wakes a, not-mem_of_eq cur a xs awake i)) in
    let sorted2 : IsSorted (expire k2) xs =
      IsSorted-frame (expire k) (expire k2) xs
        (λ a i. ground (arith, wakes a, not-mem_of_eq cur a xs awake i)) t.sorted in
    record {
      chain = rw same at u.chain;
      sorted =
          rw same2 at
            (insert-IsSorted (expire k2) ticks cur xs (ground (arith, wakes cur)) sorted2);
      in_table = λ a i. elim (eq-cases a cur) [
        | inl e ↦ ground arith
        | inr n ↦ t.in_table a (has-insert (expire k) ticks cur a xs n i)
      ];
    }

-- A sleep of a positive time returns: the current task stands among the sleepers before the first
-- that wakes later, to wake at the tick that `expiry` computes, the sleepers stay sorted, and it
-- leaves its ready queue; the other ready queues stand.
pub sleep_ms-insert :
    (k : Kernel) (ms : ℕ) (xs : List Ptr) (qs : ℕ → List Ptr)
    → 0 < ms
    → ms < 2 ^ 31
    → k.current_task ≢ null
    → k.current_task ≤ task_count
    → k.current_task ∉ xs
    → Timers k xs
    → Queues k qs
    → let cur = k.current_task in
      let prio = (k.task k.current_task).priority in
      let ticks = expiry k.clock_ticks ms in
      (k' : Kernel) × (sleep_ms k ms ≡ some k')
      × Timers k' (insert (expire k) ticks cur xs)
      × (expire k' cur ≡ ticks)
      × Queues k' (upd qs prio (erase cur (qs prio)))
unfolding sleep_ms block_task
sleep_ms-insert k ms xs qs pos fits ne small awake t q =
    let cur = k.current_task in
    let ticks = expiry k.clock_ticks ms in
    let k1 = dated k ticks in
    let (found, run, u) =
      find_slot-Placed (suc task_count) k1 ticks cur t_head xs ne awake refl
        (dated-Chain k ticks xs t) tt (omega (arith, length-Timers k xs t)) in
    let k2 = insert_at k1 cur found in
    let f = insert_at-fields k1 cur found cur in
    let (k3, run3, q3, r3, same) =
      dequeue_task-erase k2 cur qs ne
        (insert_at-Queues k1 cur found qs (dated-Queues k ticks qs q)) in
    let prio : prio_of k2 cur ≡ prio_of k cur = f.1 ∙ ground arith in
    (
      k3,
      ground (arith, run, run3),
      Timers-SameButQueues k2 k3 (insert (expire k) ticks cur xs) same
          (insert_at-Timers k ticks found xs small awake t u),
      ap (λ (v : Task). v.timer_expire) (same.tasks cur) ∙ f.0 ∙ ground arith,
      subst (λ (p : ℕ). Queues k3 (upd qs p (erase cur (qs p)))) prio q3,
    )

-- A sleep that does not overflow lasts as many ticks as it has milliseconds.
pub expiry_exact :
    (clock_ticks ms : ℕ)
    → ms ≤ 4294966
    → clock_ticks + ms < 2 ^ 32
    → expiry clock_ticks ms ≡ clock_ticks + ms
unfolding expiry
expiry_exact clock_ticks ms fits room = omega arith

-- A sleep of 4294967 milliseconds or more is cut short: the product with the frequency wraps.
pub expiry_short :
    (clock_ticks ms : ℕ)
    → 4294967 ≤ ms
    → clock_ticks + ms < 2 ^ 32
    → expiry clock_ticks ms < clock_ticks + ms
unfolding expiry
expiry_short clock_ticks ms long room = omega arith
