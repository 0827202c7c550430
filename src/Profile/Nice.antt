-- ===== src/Profile/Nice.antt =====
-- What a command of a profile leaves: nice values in their range, and no more to read than before
-- (`readProfile` of hw2/Scheduler_VM/cpuinit.c).
use uth_operating_systems.Base.{
  ℕ, ◌≡◌, inl, inr, refl, Bool, true, false, List, arith, Option, none, some, Run, ok, bug,
  out_of_fuel, ◌>>=◌, ◌==◌, if◌then◌else◌, Bool-cases, length, update, ℤ, pos,
}
use uth_operating_systems.Links.{Ptr, null}
use uth_operating_systems.Profile.{readint, readstring}
use uth_operating_systems.Profile.Commands.{Command, Profile, is_nice, clamp, execute}
use uth_operating_systems.Profile.Progress.{ends_line, Within, readint-Within, readstring-Within}

-- The code comes to an end, with a result that satisfies `P` or at a write through `NULL`.
abbrev pub Ends {ℓ} : {A : Type ℓ} → (A → Type 0) → Run A → Type 0
Ends P (ok a) = P a
Ends P bug = Unit {0}
Ends P out_of_fuel = ⊥

pub Ends-bind {ℓ κ} :
    {A : Type ℓ} {B : Type κ} (P : A → Type 0) (Q : B → Type 0) (m : Run A) (k : A → Run B)
    → Ends P m
    → ((a : A) → P a → Ends Q (k a))
    → Ends Q (m >>= k)
Ends-bind P Q (ok a) k h f = f a h
Ends-bind P Q bug k h f = tt
Ends-bind P Q out_of_fuel k h f = h

-- The nice value of every thread is from -19 to 20.
abbrev pub AllNice : Profile → Type 0
AllNice s = (p : Ptr) → is_nice (s.nice_value p) ≡ true

is_nice-clamp : (z : ℤ) → is_nice (clamp z) ≡ true
is_nice-clamp z = elim (Bool-cases (is_nice z)) [ inl e ↦ rw (e, e) refl | inr e ↦ rw e refl ]

-- A state behind a command: nice values in range, and no more than `n` bytes left to read.
pub record Fine (n : ℕ) (s : Profile) : Type 0 where
  pub all_nice : AllNice s
  pub left : Within n s.file.rest

pub Ends-if :
    (b : Bool) (P : Bool × Profile → Type 0) {x : Bool × Profile} (y : Run (Bool × Profile))
    → P x
    → Ends P y
    → Ends P (if b then ok x else y)
Ends-if true P y h k = h
Ends-if false P y h k = k

Ends-guard :
    (null_pointer : Bool) (P : Profile → Type 0) {t : Profile}
    → P t
    → Ends P (if null_pointer then bug else ok t)
Ends-guard true P h = tt
Ends-guard false P h = h

Ends-option :
    (o : Option (List ℕ)) (P : Profile → Type 0) (f : List ℕ → Run Profile)
    → ((temp : List ℕ) → Ends P (f temp))
    → Ends P (elim o [ none ↦ bug | some temp ↦ f temp ])
Ends-option none P f h = tt
Ends-option (some temp) P f h = h temp

nice-update :
    (f : Ptr → ℤ) (p : Ptr) (z : ℤ) (a : Ptr)
    → is_nice (f a) ≡ true
    → is_nice z ≡ true
    → is_nice (update f p z a) ≡ true
nice-update f p z a h k = elim (Bool-cases (a == p)) [ inl e ↦ rw e k | inr e ↦ rw e h ]

module _ (garbage : ℤ) where
  pub execute-Fine :
      (c : Command) (s : Profile)
      → AllNice s
      → ends_line s.file.rest ≡ true
      → Ends (Fine (length s.file.rest)) (execute garbage c s)
  unfolding execute
  execute-Fine Command.cycle_time s n c = record {
    all_nice = n;
    left = readint-Within garbage s.file c;
  }
  execute-Fine Command.seed s n c = record { all_nice = n; left = readint-Within garbage s.file c }
  execute-Fine Command.endtime s n c = record {
    all_nice = n;
    left = readint-Within garbage s.file c;
  }
  execute-Fine Command.end_process s n c = record {
    all_nice = n;
    left = record { closed = c; short = omega arith };
  }
  execute-Fine Command.spawn_time s n c =
      Ends-guard (s.newtask == null) (Fine (length s.file.rest))
        (record { all_nice = n; left = readint-Within garbage s.file c })
  execute-Fine Command.kill_time s n c =
      Ends-guard (s.newtask == null) (Fine (length s.file.rest))
        (record { all_nice = n; left = readint-Within garbage s.file c })
  execute-Fine Command.work_duration s n c =
      Ends-guard (s.newtask == null) (Fine (length s.file.rest))
        (record { all_nice = n; left = readint-Within garbage s.file c })
  execute-Fine Command.name s n c =
      Ends-guard (s.newtask == null) (Fine (length s.file.rest))
        (record { all_nice = n; left = readstring-Within s.file.before s.file.rest s.file.eof c })
  execute-Fine Command.nice s n c =
      Ends-guard (s.newtask == null) (Fine (length s.file.rest)) (record {
        all_nice = λ a. nice-update s.nice_value s.newtask (clamp v) a (n a) (is_nice-clamp v);
        left = readint-Within garbage s.file c;
      })
    where
      v : ℤ
      v = (readint garbage s.file).0
  execute-Fine Command.spawn s n c =
      Ends-guard (s.newtask == null) (Fine (length s.file.rest))
        (record { all_nice = n; left = record { closed = c; short = omega arith } })
  execute-Fine Command.thread_type s n c =
      Ends-option (readstring s.file).0 (Fine (length s.file.rest)) _ (λ temp.
        Ends-guard (s.newtask == null) (Fine (length s.file.rest)) (record {
          all_nice = n;
          left = readstring-Within s.file.before s.file.rest s.file.eof c;
        }))
  execute-Fine Command.new_process s n c =
      Ends-guard (s.top == null) (Fine (length s.file.rest)) (record {
        all_nice = λ a. nice-update s.nice_value s.fresh (pos 0) a (n a) refl;
        left = record { closed = c; short = omega arith };
      })
  execute-Fine Command.end_spawn s n c =
      Ends-guard (s.top == null) (Fine (length s.file.rest))
        (record { all_nice = n; left = record { closed = c; short = omega arith } })
