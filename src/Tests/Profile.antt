-- ===== src/Tests/Profile.antt =====
-- Profiles that the parser reads: two threads, the second with one child; and the two ends of a
-- file that it does not expect.
use uth_operating_systems.Base.{
  ℕ, ◌≡◌, refl, arith, Bool, true, false, List, [], ◌∷◌, ◌++◌, Option, none, some, Run, ok,
  out_of_fuel, ◌>>=◌, ℤ, pos, is_zero,
}
use uth_operating_systems.Links.{Ptr, null}
use uth_operating_systems.Sched.{untyped}
use uth_operating_systems.Profile.{
  codes, forward, seek_back, first_from, skip_spaces, scan_digits, scan_sign, readint, word_length,
  readstring,
}
use uth_operating_systems.Profile.Commands.{find_option, Profile, execute, end_spawn, coptions}
use uth_operating_systems.Profile.Parse.{
  skip_comment, read_option, ended, parse, turn, read_profile,
}
use uth_operating_systems.Profile.Nice.{Ends}
use uth_operating_systems.Profile.Edges.{parse-endless, parse-last_command}

-- The thread of init is at 1; memory is filled with 0.
abbrev blank : Profile
blank = record {
  file = record { before = []; rest = []; eof = false };
  info = λ p. record {
    id = pos 0;
    spawn_time = pos 0;
    kill_time = pos 0;
    spawns = false;
    children = pos 0;
    kill = false;
    work_duration = pos 0;
    thread_type = untyped;
    parent = null;
  };
  nice_value = λ p. pos 0;
  process_name = λ p. none;
  to_spawn = λ p. [];
  fresh = 10;
  cycletime = pos 10;
  ran_seed = pos 42;
  end_time = pos 1;
  newtask = null;
  top = null;
  children = pos 0;
}

abbrev text : List ℕ
text =
    codes "; two\n#SEED\t43\n#NEWPROCESS\n#NAME a\n#NICE -25\n#ENDPROCESS\n"
    ++ codes "#NEWPROCESS\n#TYPE INTERACTIVE\n#NICE 7\n#SPAWN\n#NEWPROCESS\n#NAME kid\n"
    ++ codes "#SPAWNTIME 200\n#ENDPROCESS\n#ENDSPAWN\n#ENDPROCESS\n"

-- What is looked at in the result: the answer, the seed, the threads of init and of the second
-- one, the name and the spawn time of the child, and two nice values.
abbrev seen :
    Run (Bool × Profile) → Run (Bool × ℤ × List Ptr × List Ptr × Option (List ℕ) × ℤ × ℤ × ℤ)
seen r = r >>= λ (b, s). ok (
  b,
  s.ran_seed,
  s.to_spawn 1,
  s.to_spawn 11,
  s.process_name 12,
  (s.info 12).spawn_time,
  s.nice_value 10,
  s.nice_value 11,
)

reads_text :
    seen (read_profile (pos 0) 300 (some text) 1 blank)
    ≡ ok (true, pos 43, 10 ∷ 11 ∷ [], 12 ∷ [], some (codes "kid"), pos 200, pos 0, pos 7)
unfolding read_profile parse turn execute skip_comment read_option find_option first_from readint
    skip_spaces scan_sign scan_digits readstring word_length forward seek_back
reads_text = refl

abbrev at_comment : Profile
at_comment = record blank { file = record { before = 10 ∷ []; rest = codes "; end"; eof = false } }

parse-endless_example : parse (pos 0) 50 at_comment ≡ out_of_fuel
parse-endless_example = parse-endless (pos 0) at_comment 50 (10 ∷ []) (codes " end") refl refl

-- A thread's children have been read, and ENDSPAWN is on the last line.
abbrev at_end : Profile
at_end = record blank {
  file = record { before = 10 ∷ []; rest = codes "#ENDSPAWN\n"; eof = false };
  children = pos 1;
}

option_found : find_option coptions (codes "ENDSPAWN") ≡ some end_spawn
unfolding find_option
option_found = refl

parse-last_command_example : parse (pos 0) 50 at_end ≡ ok (is_zero at_end.children, ended at_end)
parse-last_command_example =
    parse-last_command (pos 0) at_end 50 (10 ∷ []) (codes "ENDSPAWN") end_spawn refl refl
      (omega arith) option_found (omega arith)
