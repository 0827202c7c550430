-- ===== src/Sched/Decision.antt =====
-- `calc_goodness` of hw2/Scheduler_VM/sjf_lib.c and `schedule` of schedule.c: which task comes to run.
use uth_operating_systems.Base.{
  ℕ, zero, suc, ◌+◌, ◌<◌, ◌≡◌, ◌≢◌, refl, ap, ◌∙◌, subst, true, false, List, [], ◌∷◌, arith, ok,
  Returns, ◌==◌, ==-refl, if◌then◌else◌, update, length, has, ◌∉◌, first_of_list, Bool-cases, inl,
  inr, ◌⊎◌,
}
use uth_operating_systems.Links.{Ptr}
use uth_operating_systems.Links.Chain.{Chain, Chain-next}
use uth_operating_systems.Sched.{Double, IsOrder, Task, Vm, sched_clock, set_task, context_switch}
use uth_operating_systems.Sched.Sjf.{goodness_of, goodness_loop, calc_goodness, sjf_algo}
use uth_operating_systems.Sched.Schedule.{update_current, switch_to, schedule}
use uth_operating_systems.Sched.Runqueue.{IsRunqueue, IsRunqueue-congr}
use uth_operating_systems.Sched.Choice.{
  Least, good, waits, expects, min_burst_max_waiting_in_rq-Minimum, sjf_algo-Least,
}

module _ {F : Double} where
  open F use {D, of_ull, sub, lt}

  -- The tasks after the loop of `calc_goodness` has gone over `ys`.
  abbrev scored : (e w clock : D) → List Ptr → (Ptr → Task F) → Ptr → Task F
  scored e w clock [] f = f
  scored e w clock (y ∷ ys) f =
      scored e w clock ys (update f y (record (f y) { goodness = goodness_of e w clock (f y) }))

  scored_lem :
      (e w clock : D) (ys : List Ptr) (f : Ptr → Task F) (a : Ptr)
      → scored e w clock ys f a
        ≡ (if has a ys then record (f a) { goodness = goodness_of e w clock (f a) } else f a)
  unfolding goodness_of
  scored_lem e w clock [] f a = refl
  scored_lem e w clock (y ∷ ys) f a =
      let g = update f y (record (f y) { goodness = goodness_of e w clock (f y) }) in
      let Goal : Ptr → Type 0 = λ b. scored e w clock (y ∷ ys) f b ≡ (
        if has b (y ∷ ys) then record (f b) { goodness = goodness_of e w clock (f b) } else f b) in
      let here : Goal y =
        rw (scored_lem e w clock ys g y, ==-refl y)
          (elim (Bool-cases (has y ys)) [ inl t ↦ rw t refl | inr t ↦ rw t refl ]) in
      elim (Bool-cases (a == y)) [
        | inl same ↦ let e' : y ≡ a = ground arith in subst Goal e' here
        | inr other ↦ rw (scored_lem e w clock ys g a, other) refl
      ]

  goodness_loop-scored :
      (fuel : ℕ) (e w : D) (s : Vm F) (p : Ptr) (ys : List Ptr)
      → Chain s.links p ys s.head
      → s.head ∉ ys
      → length ys < fuel
      → goodness_loop fuel e w s (first_of_list ys s.head)
        ≡ ok (record s { task = scored e w (of_ull (sched_clock s)) ys s.task })
  unfolding goodness_loop sched_clock
  goodness_loop-scored zero e w s p ys c h f = absurd (omega arith)
  goodness_loop-scored (suc fuel) e w s p [] c h f = rw (==-refl s.head) refl
  goodness_loop-scored (suc fuel) e w s p (y ∷ ys) c h f =
      let next = (Chain-next s.links y [] ys s.head c.2).0 in
      let inside : (y == s.head) ≡ false = ground arith in
      let t = s.task y in
      let g = goodness_of e w (of_ull (sched_clock s)) t in
      rw (inside, next)
        (goodness_loop-scored fuel e w (set_task y (record t { goodness = g }) s) y ys c.2
          (ground arith) (omega arith))

  -- The tasks that `schedule` compares: the current one brought up to date.
  abbrev pub compared : Vm F → Vm F
  compared s =
      update_current (set_task s.current (record (s.task s.current) { need_reschedule = false }) s)

  -- The goodness of a task, from the extremes that `schedule` computes.
  abbrev pub rank : Vm F → (e w : D) → Ptr → D
  rank s e w p = goodness_of e w (of_ull (sched_clock s)) (s.task p)

module _ {F : Double} (o : IsOrder F) where
  open F use {D, of_ull, sub, lt}

  Least-congr :
      (f g : Ptr → D) (v : D) (ys : List Ptr)
      → ((a : Ptr) → has a ys ≡ true → f a ≡ g a)
      → Least o f v ys
      → Least o g v ys
  Least-congr f g v [] e l = tt
  Least-congr f g v (y ∷ ys) e l =
      (rw (← e y (ground arith)) l.0, Least-congr f g v ys (λ a i. e a (ground arith)) l.1)

  -- What `schedule` has found when it switches.
  pub record Chosen (s : Vm F) (ys : List Ptr) (next : Ptr) : Type 0 where
    pub waiter : Ptr
    pub shortest : Ptr
    pub waiter_in : has waiter ys ≡ true
    pub waiter_first : Least o (waits (compared s)) (waits (compared s) waiter) ys
    pub shortest_in : has shortest ys ≡ true
    pub shortest_least : Least o (expects (compared s)) (expects (compared s) shortest) ys
    pub next_in : has next ys ≡ true
    pub next_least :
        let e = expects (compared s) shortest in
        let w = sub (of_ull (sched_clock s)) (waits (compared s) waiter) in
        Least o (rank (compared s) e w) (rank (compared s) e w next) ys

  -- The state after `calc_goodness` and the choice of `Sjf_algo`.
  choose :
      (fuel : ℕ) (s : Vm F) (x : Ptr) (xs : List Ptr)
      → IsRunqueue s (x ∷ xs)
      → length xs + 1 < fuel
      → (s1 : Vm F) × (next : Ptr) × (calc_goodness fuel (compared s) ≡ ok s1)
        × (sjf_algo fuel s1 ≡ ok next)
        × (s1 ≡ record s { task = s1.task })
        × Chosen s (x ∷ xs) next
  unfolding calc_goodness update_current sched_clock
  choose fuel s x xs q f =
      let (c, d, extremes, (i, l), (j, k)) =
        min_burst_max_waiting_in_rq-Minimum o (compared s) fuel x xs q.ring (omega arith) in
      let e = expects (compared s) d in
      let w = sub (of_ull (sched_clock s)) (waits (compared s) c) in
      let clock = of_ull (sched_clock s) in
      let ys : List Ptr = x ∷ xs in
      let s1 = record (compared s) { task = scored e w clock ys (compared s).task } in
      let walked =
        goodness_loop-scored fuel e w (compared s) s.head ys q.ring.chain q.ring.distinct.0
          (omega arith) in
      let r = rank (compared s) e w in
      let ranked : (a : Ptr) → has a ys ≡ true → good s1 a ≡ r a = λ a inside.
        ap (λ t. t.goodness) (scored_lem e w clock ys (compared s).task a) ∙ rw inside refl in
      let (next, run, (n, least)) = sjf_algo-Least o s1 fuel x xs q.ring (omega arith) in
      (
        s1,
        next,
        rw (extremes, q.ring.chain.0, walked) refl,
        run,
        refl,
        record {
          waiter = c;
          shortest = d;
          waiter_in = i;
          waiter_first = l;
          shortest_in = j;
          shortest_least = k;
          next_in = n;
          next_least =
              subst (λ v. Least o r v ys) (ranked next n)
                (Least-congr (good s1) r (good s1 next) ys ranked least);
        },
      )

-- The accounting of a task is as before.
pub record SameAccount {F : Double} (t t' : Task F) : Type 0 where
  pub burst : t'.burst ≡ t.burst
  pub exp_burst : t'.exp_burst ≡ t.exp_burst
  pub waiting_in_rq : t'.waiting_in_rq ≡ t.waiting_in_rq
  pub process_start_time : t'.process_start_time ≡ t.process_start_time

-- The task `next` has come to run: either it is the one that ran, and its accounting is as before, or
-- it is another, and its start time is the clock's.
pub record Switched {F : Double} (s : Vm F) (next : Ptr) (s' : Vm F) : Type 0 where
  pub now : s'.current ≡ next
  pub account :
      ((next ≡ s.current) × SameAccount (s.task s.current) (s'.task s.current))
      ⊎ ((next ≢ s.current) × ((s'.task next).process_start_time ≡ F.of_ull (sched_clock s)))

module _ {F : Double} where
  -- The current task as `schedule` finds it, with its flag reset.
  abbrev kept_task : Vm F → Task F
  kept_task s =
      (set_task s.current (record (s.task s.current) { need_reschedule = false }) s).task s.current

  kept_task-SameAccount : (s : Vm F) → SameAccount (s.task s.current) (kept_task s)
  kept_task-SameAccount s =
      rw (==-refl s.current)
        (record { burst = refl; exp_burst = refl; waiting_in_rq = refl; process_start_time = refl })

  switch_to-IsRunqueue :
      (old : Task F) (next : Ptr) (s : Vm F) (xs : List Ptr)
      → IsRunqueue s xs
      → IsRunqueue (switch_to old next s) xs
  unfolding switch_to context_switch
  switch_to-IsRunqueue old next s xs q = elim (Bool-cases (next == s.current)) [
    | inl t ↦ rw t (record { ring = q.ring; counted = q.counted })
    | inr t ↦ rw t (record { ring = q.ring; counted = q.counted })
  ]

  switch_to-Switched :
      (s s1 : Vm F) (old : Task F) (next : Ptr)
      → SameAccount (s.task s.current) old
      → s1.current ≡ s.current
      → s1.jiffies ≡ s.jiffies
      → Switched s next (switch_to old next s1)
  unfolding switch_to context_switch sched_clock
  switch_to-Switched s s1 old next a c j = elim (Bool-cases (next == s1.current)) [
    | inl t ↦ rw t (record {
      now = ground arith;
      account = inl (
        ground arith,
        record {
          burst = rw (c, ==-refl s.current) a.burst;
          exp_burst = rw (c, ==-refl s.current) a.exp_burst;
          waiting_in_rq = rw (c, ==-refl s.current) a.waiting_in_rq;
          process_start_time = rw (c, ==-refl s.current) a.process_start_time;
        },
      );
    })
    | inr t ↦ rw t (record {
      now = refl;
      account = inr (λ e. absurd (ground arith), rw (==-refl next, j) refl);
    })
  ]

module _ {F : Double} (o : IsOrder F) where
  -- For a strict order on the floating point values, a runqueue with tasks behind its head, and
  -- more fuel than there are such tasks, `schedule` returns; the task that then runs is one behind
  -- the head such that none there has a lesser goodness, where goodness is computed from the least
  -- expected burst and the longest wait of these tasks after the current one's values are brought
  -- up to date; if it is the task that ran its accounting is as before, and if not its start time
  -- is the clock's; the runqueue is the same list.
  pub schedule-Chosen :
      (fuel : ℕ) (s : Vm F) (x : Ptr) (xs : List Ptr)
      → IsRunqueue s (x ∷ xs)
      → length xs + 1 < fuel
      → Returns
          (λ s'. Chosen o s (x ∷ xs) s'.current × Switched s s'.current s' × IsRunqueue s' (x ∷ xs))
          (schedule fuel s)
  unfolding schedule
  schedule-Chosen fuel s x xs q f =
      let (s1, next, scored', chosen, same, c) = choose o fuel s x xs q f in
      let many : (s.nr_running == 1) ≡ false = ground (arith, q.counted) in
      let old = kept_task s in
      let q1 =
        IsRunqueue-congr s s1 (x ∷ xs) (ap (λ v. v.links) same) (ap (λ v. v.head) same)
          (ap (λ v. v.nr_running) same) q in
      let moved =
        switch_to-Switched s s1 old next (kept_task-SameAccount s) (ap (λ v. v.current) same)
          (ap (λ v. v.jiffies) same) in
      (
        switch_to old next s1,
        rw (many, scored', chosen) refl,
        (rw moved.now c, rw moved.now moved, switch_to-IsRunqueue old next s1 (x ∷ xs) q1),
      )

-- If the head is alone on the runqueue, `schedule` returns with any fuel, the head is the task that
-- runs, and the runqueue is as it was.
pub schedule-alone :
    {F : Double} (fuel : ℕ) (s : Vm F)
    → IsRunqueue s []
    → Returns (λ s'. (s'.current ≡ s.head) × IsRunqueue s' []) (schedule fuel s)
unfolding schedule context_switch
schedule-alone fuel s q =
    let one_task : (s.nr_running == 1) ≡ true = ground (arith, q.counted) in
    let s0 = set_task s.current (record (s.task s.current) { need_reschedule = false }) s in
    (
      context_switch s.head s0,
      rw one_task refl,
      (refl, record { ring = q.ring; counted = q.counted }),
    )
