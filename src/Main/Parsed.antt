-- ===== src/Main/Parsed.antt =====
-- What `readProfile` of hw2/Scheduler_VM/cpuinit.c leaves is a forest of threads: each command
-- keeps it.
use uth_operating_systems.Base.{
  ℕ, ◌<◌, ◌≡◌, refl, ap, ◌∙◌, Bool, true, false, List, [], arith, Option, none, some, Run, ok, bug,
  ◌==◌, ==-eq, if◌then◌else◌, ℤ,
}
use uth_operating_systems.Links.{Ptr, null}
use uth_operating_systems.Profile.{readstring}
use uth_operating_systems.Profile.Commands.{Command, Profile, execute}
use uth_operating_systems.Profile.Parse.{read_profile}
use uth_operating_systems.Profile.Keeps.{Safely, IsKept, parse-Safely}
use uth_operating_systems.Main.Forest.{bare}
use uth_operating_systems.Main.Nursery.{
  known, Nursery, same_parent, Nursery-congr, field_written, new_thread-Nursery,
}

Safely-guard :
    (null_pointer : Bool) (P : Profile → Type 0) {t : Profile}
    → (null_pointer ≡ false → P t)
    → Safely P (if null_pointer then bug else ok t)
Safely-guard true P h = tt
Safely-guard false P h = h refl

Safely-option :
    (o : Option (List ℕ)) (P : Profile → Type 0) (f : List ℕ → Run Profile)
    → ((temp : List ℕ) → Safely P (f temp))
    → Safely P (elim o [ none ↦ bug | some temp ↦ f temp ])
Safely-option none P f h = tt
Safely-option (some temp) P f h = h temp

module _ (top first : Ptr) (behind_null : 0 < top) (behind_top : top < first) where
  module _ (garbage : ℤ) where
    execute-Nursery :
        (c : Command) (s : Profile)
        → Nursery top first s
        → Safely (Nursery top first) (execute garbage c s)
    unfolding execute
    execute-Nursery Command.cycle_time s h =
        field_written top first s h _ refl refl refl refl (λ x. refl)
    execute-Nursery Command.seed s h = field_written top first s h _ refl refl refl refl (λ x. refl)
    execute-Nursery Command.endtime s h =
        field_written top first s h _ refl refl refl refl (λ x. refl)
    execute-Nursery Command.end_process s h =
        Nursery-congr top first s _ refl refl refl h.known_top (λ x. refl) h
    execute-Nursery Command.spawn_time s h =
        Safely-guard (s.newtask == null) (Nursery top first) (λ o.
          field_written top first s h _ refl refl refl refl
            (λ x. same_parent s.info s.newtask x _ refl))
    execute-Nursery Command.kill_time s h =
        Safely-guard (s.newtask == null) (Nursery top first) (λ o.
          field_written top first s h _ refl refl refl refl
            (λ x. same_parent s.info s.newtask x _ refl))
    execute-Nursery Command.work_duration s h =
        Safely-guard (s.newtask == null) (Nursery top first) (λ o.
          field_written top first s h _ refl refl refl refl
            (λ x. same_parent s.info s.newtask x _ refl))
    execute-Nursery Command.name s h =
        Safely-guard (s.newtask == null) (Nursery top first)
          (λ o. field_written top first s h _ refl refl refl refl (λ x. refl))
    execute-Nursery Command.nice s h =
        Safely-guard (s.newtask == null) (Nursery top first)
          (λ o. field_written top first s h _ refl refl refl refl (λ x. refl))
    execute-Nursery Command.thread_type s h =
        Safely-option (readstring s.file).0 (Nursery top first) _ (λ temp.
          Safely-guard (s.newtask == null) (Nursery top first) (λ o.
            field_written top first s h _ refl refl refl refl
              (λ x. same_parent s.info s.newtask x _ refl)))
    execute-Nursery Command.spawn s h = Safely-guard (s.newtask == null) (Nursery top first) (λ o.
        Nursery-congr top first s _ refl refl h.known_newtask h.known_newtask
          (λ x. same_parent s.info s.newtask x _ refl) h)
    execute-Nursery Command.new_process s h =
        Safely-guard (s.top == null) (Nursery top first)
          (new_thread-Nursery top first behind_null behind_top s h)
    execute-Nursery Command.end_spawn s h = Safely-guard (s.top == null) (Nursery top first) (λ o.
        Nursery-congr top first s _ refl refl h.known_top (h.parents s.top o h.known_top)
          (λ x. refl) h)

    pub Nursery-IsKept : IsKept garbage (Nursery top first)
    Nursery-IsKept = record {
      moved = λ s f h. field_written top first s h _ refl refl refl refl (λ x. refl);
      commands = execute-Nursery;
    }

    started :
        (s : Profile)
        → s.to_spawn top ≡ []
        → (s.info top).parent ≡ null
        → s.fresh ≡ first
        → s.newtask ≡ null
        → s.top ≡ top
        → Nursery top first s
    started s e u f n t = record {
      forest = bare;
      list = e;
      spans = tt;
      distinct = tt;
      addresses = λ x. ground (arith, f);
      size = omega (arith, f);
      known_newtask = ground (arith, n);
      known_top = ground (arith, t);
      parents = λ x o k. root x (ground (arith, o, k, f));
    }
      where
        root : (x : Ptr) → (x == top) ≡ true → known top first s.fresh (s.info x).parent ≡ true
        root x k = ground (arith, ap (λ y. (s.info y).parent) (==-eq x top k), u)

    -- If the thread of init is above `NULL` and below the next address, has no parent and no
    -- children, then what `readProfile` leaves, if it returns, is a forest of the threads that it
    -- has allocated.
    pub read_profile-Nursery :
        (fuel : ℕ) (text : Option (List ℕ)) (s : Profile)
        → s.to_spawn top ≡ []
        → (s.info top).parent ≡ null
        → s.fresh ≡ first
        → Safely (λ r. Nursery top first r.1) (read_profile garbage fuel text top s)
    unfolding read_profile
    read_profile-Nursery fuel none s e u f =
        started _ e (same_parent s.info top top _ refl ∙ u) f refl refl
    read_profile-Nursery fuel (some bytes) s e u f =
        parse-Safely garbage (Nursery top first) Nursery-IsKept fuel _
          (started _ e (same_parent s.info top top _ refl ∙ u) f refl refl)
