-- ===== src/Sched/Cpu.antt =====
-- The simulated processor, hw2/Scheduler_VM/cpu.c: `cycle`, `interrupt` and `runcpu`.
use uth_operating_systems.Base.{
  ℕ, zero, suc, ◌+◌, ◌-◌, ◌%◌, Bool, true, not, ◌&&◌, List, [], ◌∷◌, ◌++◌, Run, ok, out_of_fuel,
  ◌>>=◌, ◌==◌, leb, if◌then◌else◌, ℤ, pos, is_positive, is_zero, is_negative, dec,
}
use uth_operating_systems.Links.{Ptr, null}
use uth_operating_systems.Sched.{
  Double, Vm, ThreadType, init_thread, interactive, noninteractive, untyped, ms_to_ticks, set_task,
  set_info, info_of,
}
use uth_operating_systems.Sched.Schedule.{activate_task, deactivate_task, scheduler_tick, schedule}
use uth_operating_systems.Sched.Tasks.{task_end, spawn_children, ticks_to_ms}

-- The count-downs of cpu.c stop at 0, and what is negative stays.
abbrev pub count_down : ℤ → ℤ
count_down z = if is_positive z then dec z else z

module _ {F : Double} where
  -- A tick of work of the current thread.
  unfoldable pub work : Vm F → Vm F
  work s =
      let t = (s.task s.current).thread_info in
      set_info t (record (s.info t) { work_duration = count_down (s.info t).work_duration }) s

  -- The timer of an interactive task: when it expires the task leaves the runqueue and waits.
  unfoldable pub sleep : Vm F → Vm F
  unfolding deactivate_task
  sleep s =
      let left = count_down s.int_wait_timer in
      let c = s.current in
      let s1 = record s { int_wait_timer = dec left; waiting = s.waiting ++ (c ∷ []) } in
      let s2 = deactivate_task c s1 in
      let slept = set_task c (record (s2.task c) { need_reschedule = true }) s2 in
      if is_zero left then slept else record s { int_wait_timer = left }

  -- The end of `cycle`: a time for the next interrupt, then the children.
  unfoldable pub cycle_end : Vm F → Vm F
  unfolding spawn_children
  cycle_end s =
      let drawn = ms_to_ticks (s.rand s.draws % 1000 + 50) in
      let s1 = record s {
        int_timer = if is_negative s.int_timer then pos drawn else s.int_timer;
        draws = if is_negative s.int_timer then s.draws + 1 else s.draws;
      } in
      spawn_children s.init (spawn_children s.current s1)

  -- What a task that works does: it ends when its work is done, and if not it goes on with `rest`.
  unfoldable pub working : (Vm F → Vm F) → Vm F → Vm F
  unfolding work task_end
  working rest s =
      let s1 = work s in
      let done = is_zero (info_of s1 s1.current).work_duration in
      let e = task_end s1 in if done then if e.0 then e.1 else rest e.1 else rest s1

  -- The switch on the type of the current thread.
  unfoldable pub run_task : ThreadType → Vm F → Vm F
  unfolding working sleep cycle_end
  run_task init_thread s = cycle_end s
  run_task interactive s = working (λ s'. cycle_end (sleep s')) s
  run_task noninteractive s = working cycle_end s
  run_task untyped s = cycle_end s

  -- `cycle` returns 0 on each of its paths.
  unfoldable pub cycle : Vm F → Vm F
  unfolding task_end run_task
  cycle s =
      let e = task_end s in if e.0 then e.1 else run_task (info_of e.1 e.1.current).thread_type e.1

  -- The loop of `interrupt` over `intwaitlist`.
  unfoldable pub wake_all : List Ptr → Vm F → Vm F
  unfolding activate_task
  wake_all [] s = s
  wake_all (p ∷ ps) s = wake_all ps (activate_task p s)

  -- The first timer: it fires every 5000 ticks.
  unfoldable pub tick_timer : ℕ → Vm F → Run (Vm F)
  unfolding scheduler_tick
  tick_timer fuel s =
      let left = s.timer - 1 in
      let fires = leb left 0 in
      let s1 = record s {
        timer = if fires then ms_to_ticks 10 else left;
        jiffies = if fires then s.jiffies + 1 else s.jiffies;
      } in
      if fires && not (s.links.next s.current == null) then scheduler_tick fuel s1 else ok s1

  -- The second timer: the event that all sleeping tasks wait for.
  unfoldable pub io_timer : Vm F → Vm F
  unfolding wake_all
  io_timer s =
      let left = count_down s.int_timer in
      let s1 = wake_all s.waiting (record s { int_timer = dec left; waiting = [] }) in
      let woken = set_task s1.current (record (s1.task s1.current) { need_reschedule = true }) s1 in
      if is_zero left then woken else record s { int_timer = left }

  -- `interrupt`: whether it asks for a `schedule`, and the state.
  unfoldable pub interrupt : ℕ → Vm F → Run (Bool × Vm F)
  unfolding tick_timer io_timer
  interrupt fuel s = do
    s1 ← tick_timer fuel s
    let s2 = io_timer s1
    ok ((s2.task s2.current).need_reschedule, s2)

  -- The ending condition of `runcpu`.
  unfoldable pub send_kill : Vm F → Vm F
  send_kill s =
      let t = (s.task s.init).thread_info in
      let over = not (s.info t).kill && leb s.endtime (ticks_to_ms s.clocktick) in
      set_info t (record (s.info t) { kill = if over then true else (s.info t).kill }) s

  -- One pass of the loop of `runcpu`.
  unfoldable pub run_once : ℕ → Vm F → Run (Vm F)
  unfolding cycle interrupt schedule send_kill
  run_once fuel s = do
    asked ← interrupt fuel (cycle s)
    let s1 = record asked.1 { clocktick = asked.1.clocktick + 1 }
    s2 ← (if asked.0 then schedule fuel s1 else ok s1)
    ok (send_kill s2)

  -- `runcpu`: `rounds` bounds the passes, each of which has `fuel` for the loops of the scheduler.
  unfoldable pub run_cpu : ℕ → ℕ → Vm F → Run (Vm F)
  unfolding run_once
  run_cpu zero fuel s = out_of_fuel
  run_cpu (suc rounds) fuel s = do
    s1 ← run_once fuel s
    if s1.nr_running == 0 then ok s1 else run_cpu rounds fuel s1
