-- ===== src/Tests/Main.antt =====
-- The program with a profile in which the children of a thread are not closed.
use uth_operating_systems.Base.{ℕ, refl, arith, Bool, false, List, ◌++◌, some, none, Run, ok, pos}
use uth_operating_systems.Sched.{Vm}
use uth_operating_systems.Sched.Tasks.{init_sched, new_task, create_task, create_info, alloc}
use uth_operating_systems.Sched.Schedule.{initschedule}
use uth_operating_systems.Profile.{codes}
use uth_operating_systems.Profile.Commands.{Profile}
use uth_operating_systems.Profile.Parse.{read_profile}
use uth_operating_systems.Main.{Outside, to_profile}
use uth_operating_systems.Main.Nursery.{Nursery}
use uth_operating_systems.Main.Parsed.{read_profile-Nursery}
use uth_operating_systems.Profile.Keeps.{Safely}
use uth_operating_systems.Tests.Sched.{halves, vm}

abbrev text : List ℕ
text =
    codes "#NEWPROCESS\n#SPAWN\n#NEWPROCESS\n#NAME kid\n#ENDPROCESS\n"
    ++ codes "#NEWPROCESS\n#SPAWNTIME 9\n"

abbrev outside : Outside
outside = record {
  open_file = λ path. some text;
  stream = λ seed n. n;
  garbage = pos 0;
  nice_value = λ p. pos 0;
  process_name = λ p. none;
}

-- Nothing is allocated.
abbrev empty : Vm halves
empty = record vm { live = λ p. false }

abbrev at_first : Profile
at_first = to_profile outside (init_sched empty)

-- The threads are at 56, under init, and at 57 and 58 under it.
abbrev the_threads : Run (Bool × Profile) → Profile
the_threads (ok (b, r)) = r
the_threads _ = at_first

abbrev refused : Profile
refused = the_threads (read_profile (pos 0) 100 (some text) 52 at_first)

read_profile-Nursery_example :
    Safely (λ r. Nursery 52 56 r.1) (read_profile (pos 0) 100 (some text) 52 at_first)
unfolding to_profile init_sched new_task create_task create_info alloc initschedule
read_profile-Nursery_example =
    read_profile-Nursery 52 56 (omega arith) (omega arith) (pos 0) 100 (some text) at_first refl
      refl refl
