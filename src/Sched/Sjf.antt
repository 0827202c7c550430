-- ===== src/Sched/Sjf.antt =====
-- The choice of the next task, hw2/Scheduler_VM/sjf_lib.c. The loops follow `next` to the head of the
-- runqueue, on fuel.
use uth_operating_systems.Base.{ℕ, zero, suc, Run, ok, out_of_fuel, ◌>>=◌, ◌==◌, if◌then◌else◌}
use uth_operating_systems.Links.{Ptr}
use uth_operating_systems.Sched.{Double, Task, Vm, set_task, sched_clock}

module _ {F : Double} where
  open F use {D, of_ull, one, factor, add, sub, mul, div, lt}

  -- The loop of `Sjf_algo`: `tmp` has the least goodness so far, which is `min_goodness`.
  unfoldable pub sjf_loop : ℕ → Vm F → (curr tmp : Ptr) → (min_goodness : D) → Run Ptr
  sjf_loop zero s curr tmp min_goodness = out_of_fuel
  sjf_loop (suc fuel) s curr tmp min_goodness =
      let less = lt (s.task curr).goodness min_goodness in
      let rest =
        sjf_loop fuel s (s.links.next curr) (if less then curr else tmp)
          (if less then (s.task curr).goodness else min_goodness) in
      if curr == s.head then ok tmp else rest

  unfoldable pub sjf_algo : ℕ → Vm F → Run Ptr
  unfolding sjf_loop
  sjf_algo fuel s =
      let first = s.links.next s.head in
      sjf_loop fuel s (s.links.next first) first (s.task first).goodness

  -- The loop of `min_burst_max_waiting_in_rq`: both values are least values so far.
  unfoldable pub min_loop : ℕ → Vm F → Ptr → (waiting exp_burst : D) → Run (D × D)
  min_loop zero s curr waiting exp_burst = out_of_fuel
  min_loop (suc fuel) s curr waiting exp_burst =
      let t = s.task curr in
      let rest =
        min_loop fuel s (s.links.next curr)
          (if lt t.waiting_in_rq waiting then t.waiting_in_rq else waiting)
          (if lt t.exp_burst exp_burst then t.exp_burst else exp_burst) in
      if curr == s.head then ok (exp_burst, waiting) else rest

  -- `*min_exp_burst` and `*max_waiting_in_rq`: the task that has waited longest has the least time
  -- in `waiting_in_rq`.
  unfoldable pub min_burst_max_waiting_in_rq : ℕ → Vm F → Run (D × D)
  unfolding min_loop
  min_burst_max_waiting_in_rq fuel s = do
    let first = s.links.next s.head
    least ←
        min_loop fuel s (s.links.next first) (s.task first).waiting_in_rq (s.task first).exp_burst
    ok (least.0, sub (of_ull (sched_clock s)) least.1)

  unfoldable pub calc_waiting_time_in_rq : Vm F → Ptr → D
  unfolding sched_clock
  calc_waiting_time_in_rq s curr =
      let curr_time = of_ull (sched_clock s) in
      if lt (s.task curr).waiting_in_rq curr_time then curr_time else (s.task curr).waiting_in_rq

  unfoldable pub calc_burst : Vm F → Ptr → D
  unfolding sched_clock
  calc_burst s current = sub (of_ull (sched_clock s)) (s.task current).process_start_time

  unfoldable pub calc_exp_burst : Vm F → Ptr → D
  calc_exp_burst s current =
      div (add (s.task current).burst (mul factor (s.task current).exp_burst)) (add one factor)

  -- The value that the loop of `calc_goodness` stores.
  unfoldable pub goodness_of : (min_exp_burst max_waiting clock : D) → Task F → D
  goodness_of min_exp_burst max_waiting clock t =
      mul (div (add one t.exp_burst) (add one min_exp_burst))
        (div (add one max_waiting) (add one (sub clock t.waiting_in_rq)))

  unfoldable pub goodness_loop : ℕ → (min_exp_burst max_waiting : D) → Vm F → Ptr → Run (Vm F)
  unfolding goodness_of sched_clock
  goodness_loop zero min_exp_burst max_waiting s curr = out_of_fuel
  goodness_loop (suc fuel) min_exp_burst max_waiting s curr =
      let t = s.task curr in
      let g = goodness_of min_exp_burst max_waiting (of_ull (sched_clock s)) t in
      let rest =
        goodness_loop fuel min_exp_burst max_waiting (set_task curr (record t { goodness = g }) s)
          (s.links.next curr) in
      if curr == s.head then ok s else rest

  unfoldable pub calc_goodness : ℕ → Vm F → Run (Vm F)
  unfolding min_burst_max_waiting_in_rq goodness_loop
  calc_goodness fuel s = do
    extremes ← min_burst_max_waiting_in_rq fuel s
    goodness_loop fuel extremes.0 extremes.1 s (s.links.next s.head)

  unfoldable pub start_time : Vm F → D
  unfolding sched_clock
  start_time s = of_ull (sched_clock s)
