-- ===== src/Profile/Keeps.antt =====
-- What the commands of a profile keep is kept by its parser (`readProfile` of
-- hw2/Scheduler_VM/cpuinit.c).
use uth_operating_systems.Base.{
  ℕ, zero, suc, ◌≡◌, subst, Bool, true, false, List, Option, none, some, Run, ok, bug, out_of_fuel,
  ◌>>=◌, ◌==◌, not, if◌then◌else◌, ℤ,
}
use uth_operating_systems.Profile.{Stream, first_from, seek_back}
use uth_operating_systems.Profile.Commands.{Command, coptions, find_option, Profile, execute}
use uth_operating_systems.Profile.Parse.{
  Reading, too_long, cut_off, word, read_option, skip_comment, Turn, next, failed, at, run_value,
  run_command, run_option, turn_at, turn, parse,
}

-- What is returned, if the code returns, satisfies `P`.
abbrev pub Safely {ℓ} : {A : Type ℓ} → (A → Type 0) → Run A → Type 0
Safely P (ok a) = P a
Safely P bug = Unit {0}
Safely P out_of_fuel = Unit {0}

pub Safely-bind {ℓ κ} :
    {A : Type ℓ} {B : Type κ} (P : A → Type 0) (Q : B → Type 0) (m : Run A) (k : A → Run B)
    → Safely P m
    → ((a : A) → P a → Safely Q (k a))
    → Safely Q (m >>= k)
Safely-bind P Q (ok a) k h f = f a h
Safely-bind P Q bug k h f = tt
Safely-bind P Q out_of_fuel k h f = tt

Safely-anything {ℓ} : {A : Type ℓ} (r : Run A) → Safely (λ a. Unit {0}) r
Safely-anything (ok a) = tt
Safely-anything bug = tt
Safely-anything out_of_fuel = tt

Safely-if {ℓ} :
    {A : Type ℓ} (P : A → Type 0) (b : Bool) (x y : Run A)
    → Safely P x
    → Safely P y
    → Safely P (if b then x else y)
Safely-if P true x y h k = h
Safely-if P false x y h k = k

pub Safely-result {ℓ} :
    {A : Type ℓ} (P : A → Type 0) (r : Run A) (a : A) → r ≡ ok a → Safely P r → P a
Safely-result P r a e h = subst (Safely P) e h

-- A property of the state that the position in the file plays no part in, and that each command
-- keeps.
pub record IsKept (garbage : ℤ) (P : Profile → Type 0) : Type 0 where
  pub moved : (s : Profile) (f : Stream) → P s → P (record s { file = f })
  pub commands : (c : Command) (s : Profile) → P s → Safely P (execute garbage c s)

module _ (garbage : ℤ) (P : Profile → Type 0) (k : IsKept garbage P) where
  abbrev After : Turn → Type 0
  After (next s) = P s
  After (failed s) = P s

  run_value-After :
      (c : Command) (s : Profile) (o : Option (ℕ × List ℕ × List ℕ))
      → P s
      → Safely After (run_value garbage c s o)
  unfolding run_value
  run_value-After c s none p = k.moved s _ p
  run_value-After c s (some (x, b, r)) p =
      let here : Profile = record (at b r s) { file = seek_back 1 (at b r s).file } in
      Safely-bind P After (execute garbage c here) (λ s'. ok (next s'))
        (k.commands c here (k.moved s _ p)) (λ s' h. h)

  run_option-After : (s : Profile) (o : Reading) → P s → Safely After (run_option garbage s o)
  unfolding run_option run_command
  run_option-After s too_long p = p
  run_option-After s cut_off p = k.moved s _ p
  run_option-After s (word copt b r) p = command (find_option coptions copt)
    where
      command : (o : Option Command) → Safely After (run_command garbage o s b r)
      command none = p
      command (some c) = run_value-After c s (first_from b r) p

  turn_at-After :
      (fuel : ℕ) (s : Profile) (o : Option (ℕ × List ℕ × List ℕ))
      → P s
      → Safely After (turn_at garbage fuel s o)
  unfolding turn_at
  turn_at-After fuel s none p = k.moved s _ p
  turn_at-After fuel s (some (c, b, r)) p =
      Safely-if After (c == b';') _ _
        (Safely-bind (λ _. Unit {0}) After (skip_comment fuel c b r) _
          (Safely-anything (skip_comment fuel c b r)) (λ m h. k.moved s _ p))
        (Safely-if After (not (c == b'#')) _ _ p (run_option-After s (read_option 0 b r) p))

  parse-next :
      (fuel : ℕ) (t : Turn)
      → After t
      → ((s : Profile) → P s → Safely (λ r. P r.1) (parse garbage fuel s))
      → Safely {A = Bool × Profile}
          (λ r. P r.1)
          (elim t [ next s' ↦ parse garbage fuel s' | failed s' ↦ ok (false, s') ])
  parse-next fuel (next s) h again = again s h
  parse-next fuel (failed s) h again = h

  pub parse-Safely : (fuel : ℕ) (s : Profile) → P s → Safely (λ r. P r.1) (parse garbage fuel s)
  unfolding parse turn
  parse-Safely zero s p = tt
  parse-Safely (suc fuel) s p =
      let o = first_from s.file.before s.file.rest in
      Safely-if (λ r. P r.1) s.file.eof _ _ p
        (Safely-bind After (λ r. P r.1) (turn_at garbage fuel s o) _ (turn_at-After fuel s o p)
          (λ t h. parse-next fuel t h (parse-Safely fuel)))
