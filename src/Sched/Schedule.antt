-- ===== src/Sched/Schedule.antt =====
-- The scheduler proper, hw2/Scheduler_VM/schedule.c.
use uth_operating_systems.Base.{
  ℕ, ◌+◌, ◌-◌, ◌%◌, ◌^◌, false, Run, ok, ◌>>=◌, ◌==◌, if◌then◌else◌, update,
}
use uth_operating_systems.Links.{Ptr, null, Links, set_next, set_prev}
use uth_operating_systems.Sched.{Double, Task, Vm, set_task, sched_clock, context_switch}
use uth_operating_systems.Sched.Sjf.{
  sjf_algo, calc_waiting_time_in_rq, calc_burst, calc_exp_burst, calc_goodness, start_time,
}

-- `nr_running++` and `nr_running--` on an unsigned long.
abbrev pub inc64 : ℕ → ℕ
inc64 n = (n + 1) % 2 ^ 64

abbrev pub dec64 : ℕ → ℕ
dec64 n = (n + 2 ^ 64 - 1) % 2 ^ 64

module _ {F : Double} where
  -- `initschedule`: the seed task alone is the runqueue.
  unfoldable pub initschedule : Ptr → Vm F → Vm F
  initschedule seed s = record s {
    links = set_next seed seed (set_prev seed seed s.links);
    head = seed;
    nr_running = inc64 s.nr_running;
  }

  unfoldable pub sched_fork : Ptr → Vm F → Vm F
  sched_fork p s = set_task p (record (s.task p) { time_slice = 100 }) s

  -- The four stores with which a task joins the runqueue behind its head.
  unfoldable pub link_behind_head : Ptr → Vm F → Links
  link_behind_head p s =
      let m = set_prev p s.head (set_next p (s.links.next s.head) s.links) in
      let m' = set_prev (m.next p) p m in set_next (m'.prev p) p m'

  unfoldable pub wake_up_new_task : Ptr → Vm F → Vm F
  unfolding link_behind_head sched_clock
  wake_up_new_task p s =
      let zero_d = F.of_ull 0 in
      record s {
        links = link_behind_head p s;
        task = update s.task p (record (s.task p) {
          burst = zero_d;
          exp_burst = zero_d;
          goodness = zero_d;
          process_start_time = zero_d;
          waiting_in_rq = F.of_ull (sched_clock s);
        });
        nr_running = inc64 s.nr_running;
      }

  unfoldable pub activate_task : Ptr → Vm F → Vm F
  unfolding link_behind_head calc_waiting_time_in_rq
  activate_task p s = record s {
    links = link_behind_head p s;
    nr_running = inc64 s.nr_running;
    task = update s.task p (record (s.task p) { waiting_in_rq = calc_waiting_time_in_rq s p });
  }

  unfoldable pub deactivate_task : Ptr → Vm F → Vm F
  unfolding calc_waiting_time_in_rq
  deactivate_task p s =
      let m = set_next (s.links.prev p) (s.links.next p) s.links in
      let m' = set_prev (m.next p) (m.prev p) m in
      record s {
        task = update s.task p (record (s.task p) { waiting_in_rq = calc_waiting_time_in_rq s p });
        links = set_next p null (set_prev p null m');
        nr_running = dec64 s.nr_running;
      }

  -- What `schedule` stores in a current task that is not the head, before it chooses. The three
  -- values are computed one after the other: the expected burst is that of the new burst.
  unfoldable pub update_current : Vm F → Vm F
  unfolding calc_waiting_time_in_rq calc_burst calc_exp_burst
  update_current s =
      let c = s.current in
      let s1 = set_task c (record (s.task c) { waiting_in_rq = calc_waiting_time_in_rq s c }) s in
      let s2 = set_task c (record (s1.task c) { burst = calc_burst s1 c }) s1 in
      let s3 = set_task c (record (s2.task c) { exp_burst = calc_exp_burst s2 c }) s2 in
      record s { task = if c == s.head then s.task else s3.task }

  -- The values that are kept from before the choice, put back.
  unfoldable pub restore : Task F → Ptr → Vm F → Vm F
  restore old c s =
      set_task c
        (record (s.task c) {
          waiting_in_rq = old.waiting_in_rq;
          burst = old.burst;
          exp_burst = old.exp_burst;
          process_start_time = old.process_start_time;
        })
        s

  -- The rest of `schedule` once `Sjf_algo` has chosen.
  unfoldable pub switch_to : Task F → Ptr → Vm F → Vm F
  unfolding restore context_switch start_time
  switch_to old curr s =
      let s1 = context_switch curr s in
      let started =
        set_task curr (record (s1.task curr) { process_start_time = start_time s1 }) s1 in
      if curr == s.current then restore old s.current s else started

  unfoldable pub schedule : ℕ → Vm F → Run (Vm F)
  unfolding update_current switch_to context_switch calc_goodness sjf_algo
  schedule fuel s =
      let c = s.current in
      let s0 = set_task c (record (s.task c) { need_reschedule = false }) s in
      if s.nr_running == 1 then ok (context_switch s.head s0) else do
        s1 ← calc_goodness fuel (update_current s0)
        curr ← sjf_algo fuel s1
        ok (switch_to (s0.task c) curr s1)

  -- `scheduler_tick`
  unfoldable pub scheduler_tick : ℕ → Vm F → Run (Vm F)
  unfolding schedule
  scheduler_tick fuel s = schedule fuel s
