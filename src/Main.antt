-- ===== src/Main.antt =====
-- The program itself, hw2/Scheduler_VM/cpu.c: `main`, `shutdowncpu`, `badshutdowncpu` and
-- `cleanuptask`. The profile is parsed into the memory of the machine, and `killschedule` does
-- nothing. Freeing what is not allocated stops at `bug`; the names are not modelled.
pub mod Forest
pub mod Cleanup
pub mod Plant
pub mod Nursery
pub mod Parsed
pub mod Layout
pub mod Refused
use uth_operating_systems.Base.{
  ℕ, zero, suc, Bool, true, false, List, [], ◌∷◌, ◌&&◌, ◌||◌, Option, none, Run, ok, bug,
  out_of_fuel, ◌>>=◌, ◌==◌, ltb, leb, if◌then◌else◌, update, remove, ℤ, pos, negsuc,
}
use uth_operating_systems.Links.{Ptr, null}
use uth_operating_systems.Sched.{Double, Vm, ms_to_ticks}
use uth_operating_systems.Sched.Schedule.{schedule}
use uth_operating_systems.Sched.Tasks.{free, init_sched}
use uth_operating_systems.Sched.Cpu.{run_cpu}
use uth_operating_systems.Profile.Commands.{Profile}
use uth_operating_systems.Profile.Parse.{read_profile}

-- What does not come from the program: the contents of files, the stream that a seed makes `rand`
-- return, and what the memory of fresh names and nice values holds.
pub record Outside : Type 0 where
  pub open_file : List ℕ → Option (List ℕ)
  pub stream : ℤ → ℕ → ℕ
  pub garbage : ℤ
  pub nice_value : Ptr → ℤ
  pub process_name : Ptr → Option (List ℕ)

-- `TICKS_TO_MS(clocktick) >= endtime` holds of a negative `endtime` at once, as of 0.
abbrev pub end_ms : ℤ → ℕ
end_ms (pos n) = n
end_ms (negsuc n) = 0

module _ {F : Double} where
  -- `free`
  unfoldable pub release : Ptr → Vm F → Run (Vm F)
  unfolding free
  release p s = if p == null then ok s else if s.live p then ok (free p s) else bug

  -- The loop of `cleanuptask` over the threads on the list of `p`, `below` being the recursive call.
  unfoldable pub cleanup_loop :
      (below : Ptr → Vm F → Run (Vm F)) (p : Ptr) → List Ptr → Vm F → Run (Vm F)
  unfolding release
  cleanup_loop below p [] s = ok s
  cleanup_loop below p (temp ∷ rest) s = do
    s1 ← below temp (record s { to_spawn = update s.to_spawn p (remove temp (s.to_spawn p)) })
    s2 ← release temp s1
    cleanup_loop below p rest s2

  -- `cleanuptask`; the fuel bounds the depth of the recursion.
  unfoldable pub cleanup_task : ℕ → Ptr → Vm F → Run (Vm F)
  unfolding cleanup_loop
  cleanup_task zero p s = out_of_fuel
  cleanup_task (suc fuel) p s = cleanup_loop (cleanup_task fuel) p (s.to_spawn p) s

  unfoldable pub bad_shutdown_cpu : ℕ → Vm F → Run (Vm F)
  unfolding cleanup_task release
  bad_shutdown_cpu fuel s = do
    s1 ← cleanup_task fuel (s.task s.init).thread_info s
    s2 ← release (s1.task s1.init).thread_info s1
    release s2.init s2

  unfoldable pub shutdown_cpu : Vm F → Run (Vm F)
  unfolding release
  shutdown_cpu s = do s1 ← release (s.task s.idle).thread_info s; release s1.idle s1

  -- The variables of the parser in the memory of the machine, and the machine after it has
  -- allocated its threads. `top` and `newtask` are set by the parser.
  unfoldable pub to_profile : Outside → Vm F → Profile
  to_profile o s = record {
    file = record { before = []; rest = []; eof = false };
    info = s.info;
    nice_value = o.nice_value;
    process_name = o.process_name;
    to_spawn = s.to_spawn;
    fresh = s.fresh;
    cycletime = pos 10;
    ran_seed = pos 42;
    end_time = pos 1;
    newtask = null;
    top = null;
    children = pos 0;
  }

  unfoldable pub from_profile : Profile → Vm F → Vm F
  from_profile r s = record s {
    info = r.info;
    to_spawn = r.to_spawn;
    endtime = end_ms r.end_time;
    fresh = r.fresh;
    live = λ p. s.live p || (leb s.fresh p && ltb p r.fresh);
  }

  module _ (o : Outside) (fuel : ℕ) where
    -- The profile has been read: the machine runs, and returns 0.
    unfoldable pub start : Profile → Vm F → Run (ℕ × Vm F)
    unfolding shutdown_cpu
    start r s = do
      s1 ← schedule fuel (record s { rand = o.stream r.ran_seed; draws = 0 })
      s2 ← run_cpu fuel fuel (record s1 { timer = ms_to_ticks 10 })
      s3 ← shutdown_cpu s2
      ok (0, s3)

    -- The code behind `ERROR`.
    unfoldable pub give_up : Vm F → Run (ℕ × Vm F)
    unfolding bad_shutdown_cpu shutdown_cpu
    give_up s = do s1 ← bad_shutdown_cpu fuel s; s2 ← shutdown_cpu s1; ok (1, s2)

    unfoldable pub run_file : List ℕ → Vm F → Run (ℕ × Vm F)
    unfolding start give_up to_profile from_profile read_profile init_sched
    run_file path s = do
      let s1 = init_sched s
      read ←
          read_profile o.garbage fuel (o.open_file path) (s1.task s1.init).thread_info
            (to_profile o s1)
      let s2 = from_profile read.1 s1
      if read.0 then start read.1 s2 else give_up s2

    -- `main` with the arguments `argv`: what it returns, and the memory.
    unfoldable pub main : (argv : List (List ℕ)) → Vm F → Run (ℕ × Vm F)
    unfolding run_file
    main [] s = ok (1, s)
    main (program ∷ []) s = ok (1, s)
    main (program ∷ path ∷ more) s = run_file path s
