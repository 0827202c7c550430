-- ===== src/Sched/Tasks.antt =====
-- How tasks come and go, hw2/Scheduler_VM/cpu.c and cpuinit.c: `createTask`, `createInfo`,
-- `__init_sched`, `forktask`, `spawnChildren`, `killtask` and `taskEnd`. `malloc` succeeds.
use uth_operating_systems.Base.{
  ℕ, zero, suc, ◌+◌, ◌-◌, ◌/◌, ◌%◌, ◌^◌, Bool, true, false, not, ◌&&◌, ◌||◌, List, [], ◌∷◌, ◌==◌,
  ltb, if◌then◌else◌, update, remove, ℤ, pos, negsuc, minus_one, is_zero, dec, inc, at_most,
}
use uth_operating_systems.Links.{Ptr, null, set_next, set_prev}
use uth_operating_systems.Sched.{
  Double, Info, Vm, init_thread, untyped, ms_to_ticks, set_task, set_info, info_of,
}
use uth_operating_systems.Sched.Schedule.{
  initschedule, sched_fork, wake_up_new_task, deactivate_task,
}

-- The conversion of an unsigned int to int.
abbrev pub to_int : ℕ → ℤ
to_int n = if ltb n (2 ^ 31) then pos n else negsuc (2 ^ 32 - 1 - n)

-- `MS_TO_TICKS` of a signed number of milliseconds.
abbrev pub signed_ticks : ℤ → ℤ
signed_ticks (pos n) = pos (ms_to_ticks n)
signed_ticks (negsuc n) = negsuc (ms_to_ticks (suc n) - 1)

-- A thread's `work_duration` in ticks; -1, no limit, is kept.
abbrev pub work_ticks : ℤ → ℤ
work_ticks (negsuc zero) = minus_one
work_ticks z = signed_ticks z

-- `TICKS_TO_MS`
abbrev pub ticks_to_ms : ℕ → ℕ
ticks_to_ms t = t / 500

-- The thread of a new task, and a parent with one child more.
abbrev pub numbered : ℕ → Info → Info
numbered number i = record i {
  id = to_int number;
  children = pos 0;
  kill = false;
  work_duration = work_ticks i.work_duration;
}

abbrev pub with_child : Info → Info
with_child i = record i { children = inc i.children }

module _ {F : Double} where
  -- `malloc` of the address `fresh`.
  unfoldable pub alloc : Vm F → Vm F
  alloc s = record s { live = update s.live s.fresh true; fresh = s.fresh + 1 }

  unfoldable pub free : Ptr → Vm F → Vm F
  free p s = record s { live = update s.live p false }

  -- `createTask`: the task is the old `fresh`, its `thread_info` the address after it. The other
  -- fields hold what the memory held.
  unfoldable pub create_task : Vm F → Vm F
  unfolding alloc
  create_task s =
      let p = s.fresh in
      let s1 = alloc (alloc s) in
      set_task p (record (s.task p) { thread_info = p + 1; need_reschedule = false })
        (record s1 { links = set_next p null (set_prev p null s1.links) })

  -- `createInfo`: the thread is the old `fresh`.
  unfoldable pub create_info : Vm F → Vm F
  unfolding alloc
  create_info s =
      let p = s.fresh in
      let s1 = record (alloc s) { process_id = (s.process_id + 1) % 2 ^ 32 } in
      set_info p
        (record (s.info p) {
          id = to_int s.process_id;
          parent = null;
          spawns = false;
          kill = false;
          work_duration = minus_one;
          thread_type = untyped;
          children = pos 0;
        })
        s1

  -- A task made by `createTask` with a thread made by `createInfo`.
  unfoldable pub new_task : Vm F → Vm F
  unfolding create_task create_info
  new_task s =
      let p = s.fresh in
      let s1 = create_task s in
      let t = s1.fresh in
      let s2 = create_info s1 in set_task p (record (s2.task p) { thread_info = t }) s2

  -- `__init_sched`; the runqueue is not allocated in this memory.
  unfoldable pub init_sched : Vm F → Vm F
  unfolding new_task initschedule
  init_sched s =
      let p = s.fresh in
      let s1 = new_task s in
      let t = (s1.task p).thread_info in
      let s2 =
        set_info t (record (s1.info t) { thread_type = init_thread; kill_time = minus_one }) s1 in
      let s3 = record s2 {
        links = set_next p null (set_prev p null s2.links);
        to_spawn = update s2.to_spawn t [];
        init = p;
        nr_running = 0;
        head = null;
      } in
      let s4 = initschedule p s3 in
      let s5 = new_task s4 in
      record s5 {
        idle = s4.fresh;
        process_id = (s5.process_id + 2 ^ 32 - 1) % 2 ^ 32;
        current = s4.fresh;
        waiting = [];
      }

  -- `forktask` before its calls of the scheduler, without the names.
  unfoldable pub prepare_task : Ptr → Vm F → Vm F
  unfolding create_task
  prepare_task thread s =
      let p = s.fresh in
      let s1 = create_task s in
      let s2 = set_task p (record (s1.task p) { thread_info = thread }) s1 in
      let s3 =
        set_info thread (numbered s2.process_id (s2.info thread))
          (record s2 { process_id = (s2.process_id + 1) % 2 ^ 32 }) in
      let up = (s3.info thread).parent in
      let counted = set_info up (with_child (s3.info up)) s3 in
      record s3 { info = if up == null then s3.info else counted.info }

  unfoldable pub fork_task : Ptr → Vm F → Vm F
  unfolding prepare_task sched_fork wake_up_new_task
  fork_task thread s =
      let p = s.fresh in
      let s5 = wake_up_new_task p (sched_fork p (prepare_task thread s)) in
      set_task s5.current (record (s5.task s5.current) { need_reschedule = true }) s5

  -- `owner` has forked `child`, which leaves the list of threads that it is to spawn.
  unfoldable pub spawn_child : (owner child : Ptr) → Vm F → Vm F
  unfolding fork_task
  spawn_child owner child s =
      let s1 = fork_task child s in
      record s1 { to_spawn = update s1.to_spawn owner (remove child (s1.to_spawn owner)) }

  -- The spawn time of a thread has come.
  abbrev pub due : Vm F → Ptr → Bool
  due s child = at_most (signed_ticks (s.info child).spawn_time) s.clocktick

  unfoldable pub spawn_if_due : (owner child : Ptr) → Vm F → Vm F
  unfolding spawn_child
  spawn_if_due owner child s = if due s child then spawn_child owner child s else s

  -- The loop of `spawnChildren` over the threads that `owner` is to spawn.
  unfoldable pub spawn_loop : (owner : Ptr) → List Ptr → Vm F → Vm F
  unfolding spawn_if_due
  spawn_loop owner [] s = s
  spawn_loop owner (child ∷ rest) s = spawn_loop owner rest (spawn_if_due owner child s)

  unfoldable pub spawn_children : Ptr → Vm F → Vm F
  unfolding spawn_loop
  spawn_children parent s =
      let owner = (s.task parent).thread_info in
      let s1 = spawn_loop owner (s.to_spawn owner) s in if (info_of s parent).spawns then s1 else s

  -- `killtask(&current)`
  unfoldable pub kill_task : Vm F → Vm F
  unfolding free
  kill_task s =
      let j = s.current in
      let t = (s.task j).thread_info in
      let up = (s.info t).parent in
      let counted = set_info up (record (s.info up) { children = dec (s.info up).children }) s in
      let s1 = record s { info = if up == null then s.info else counted.info } in
      let s2 = record (free j (free t s1)) { current = s.idle } in
      let i = s.idle in
      set_task i
        (record (s2.task i) {
          need_reschedule = if s.nr_running == 0 then (s2.task i).need_reschedule else true;
        })
        s2

  -- The condition of `taskEnd`.
  unfoldable pub must_end : Vm F → Bool
  must_end s =
      let i = info_of s s.current in
      i.kill
      || (not (i.parent == null) && (s.info i.parent).kill)
      || kill_time_passed i.kill_time (ticks_to_ms s.clocktick)
      || is_zero i.work_duration
    where
      kill_time_passed : ℤ → ℕ → Bool
      kill_time_passed (pos k) now = at_most (pos k) now
      kill_time_passed (negsuc k) now = false

  -- `taskEnd` has marked the current thread.
  unfoldable pub mark_killed : Vm F → Vm F
  mark_killed s =
      let t = (s.task s.current).thread_info in set_info t (record (s.info t) { kill = true }) s

  -- `taskEnd`: whether the current task has ended.
  unfoldable pub task_end : Vm F → Bool × Vm F
  unfolding must_end mark_killed kill_task deactivate_task
  task_end s =
      let s1 = mark_killed s in
      let childless = is_zero (info_of s s.current).children in
      let gone = kill_task (deactivate_task s.current s1) in
      if must_end s then if childless then (true, gone) else (false, s1) else (false, s)
