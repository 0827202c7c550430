-- ===== src/Profile/Parse.antt =====
-- The loop of `readProfile`, hw2/Scheduler_VM/cpuinit.c. Messages are output only.
use uth_operating_systems.Base.{
  ℕ, zero, suc, ◌+◌, Bool, true, false, List, [], ◌∷◌, not, Option, none, some, Run, ok,
  out_of_fuel, ◌>>=◌, ◌==◌, leb, if◌then◌else◌, ℤ, pos, is_zero,
}
use uth_operating_systems.Links.{Ptr, null}
use uth_operating_systems.Sched.{Info}
use uth_operating_systems.Profile.{isspace, first_from, seek_back}
use uth_operating_systems.Profile.Commands.{
  Command, coptions, find_option, Profile, set_info, execute,
}

-- The option behind `#`: more than fits in the buffer, cut off by the end of the file, or a word
-- with the bytes on its two sides.
pub data Reading : Type 0 where
  too_long cut_off : Reading
  word : List ℕ → List ℕ → List ℕ → Reading

abbrev pub longer : ℕ → Reading → Reading
longer c too_long = too_long
longer c cut_off = cut_off
longer c (word w b r) = word (c ∷ w) b r

-- `i` bytes are in the buffer.
unfoldable pub read_option : ℕ → List ℕ → List ℕ → Reading
read_option i b [] = if leb 48 i then too_long else cut_off
read_option i b (c ∷ r) =
    let further = longer c (read_option (i + 1) (c ∷ b) r) in
    if leb 48 i then too_long else if isspace c then word [] (c ∷ b) r else further

-- `while(*copt != '\n') if(!fread(copt, 1, 1, fp)) continue;`
unfoldable pub skip_comment : ℕ → (copt : ℕ) → List ℕ → List ℕ → Run (List ℕ × List ℕ)
skip_comment zero copt b r = out_of_fuel
skip_comment (suc fuel) copt b [] =
    let again = skip_comment fuel copt b [] in if copt == 10 then ok (b, []) else again
skip_comment (suc fuel) copt b (c ∷ r) =
    let further = skip_comment fuel c (c ∷ b) r in if copt == 10 then ok (b, c ∷ r) else further

-- What one turn of the loop does: the loop goes on, or the function returns.
pub data Turn : Type 0 where
  next : Profile → Turn
  failed : Profile → Turn

abbrev pub at : List ℕ → List ℕ → Profile → Profile
at b r s = record s { file = record { before = b; rest = r; eof = false } }

-- A read at the end of the file has set the flag.
abbrev pub ended : Profile → Profile
ended s = record s { file = record s.file { rest = []; eof = true } }

module _ (garbage : ℤ) where
  -- The value, of which the first byte is put back, if there is one.
  unfoldable pub run_value : Command → Profile → Option (ℕ × List ℕ × List ℕ) → Run Turn
  run_value c s none = ok (next (ended s))
  run_value c s (some (x, b, r)) =
      let here = at b r s in
      execute garbage c (record here { file = seek_back 1 here.file }) >>= λ s'. ok (next s')

  -- The option that the word is; white space behind it is eaten.
  unfoldable pub run_command : Option Command → Profile → List ℕ → List ℕ → Run Turn
  unfolding run_value
  run_command none s b r = ok (failed s)
  run_command (some c) s b r = run_value c s (first_from b r)

  unfoldable pub run_option : Profile → Reading → Run Turn
  unfolding run_command
  run_option s too_long = ok (failed s)
  run_option s cut_off = ok (next (ended s))
  run_option s (word copt b r) = run_command (find_option coptions copt) s b r

  -- The byte `c` behind the white space, if there is one.
  unfoldable pub turn_at : ℕ → Profile → Option (ℕ × List ℕ × List ℕ) → Run Turn
  unfolding run_option
  turn_at fuel s none = ok (next (ended s))
  turn_at fuel s (some (c, b, r)) =
      if c == b';'
      then (skip_comment fuel c b r >>= λ m. ok (next (at m.0 m.1 s)))
      else if not (c == b'#')
      then ok (failed s)
      else run_option s (read_option 0 b r)

  unfoldable pub turn : ℕ → Profile → Run Turn
  unfolding turn_at
  turn fuel s = turn_at fuel s (first_from s.file.before s.file.rest)

  -- `while(!feof(fp))`, and the check that each SPAWN has its ENDSPAWN.
  unfoldable pub parse : ℕ → Profile → Run (Bool × Profile)
  parse zero s = out_of_fuel
  parse (suc fuel) s =
      let more =
        turn fuel s >>= λ t. elim t [ next s' ↦ parse fuel s' | failed s' ↦ ok (false, s') ] in
      if s.file.eof then ok (is_zero s.children, s) else more

  -- `readProfile`: `text` is what the file holds, if it can be opened, `top` the thread of init.
  unfoldable pub read_profile : ℕ → Option (List ℕ) → (top : Ptr) → Profile → Run (Bool × Profile)
  unfolding parse
  read_profile fuel text top s =
      let i : Info = record (s.info top) { spawns = true } in
      let s1 : Profile = record (set_info top i s) {
        newtask = null;
        top = top;
        children = pos 0;
      } in
      elim text [ none ↦ ok (false, s1) | some bytes ↦ parse fuel (at [] bytes s1) ]
