-- ===== src/Registry/Change.antt =====
-- What becomes of a queue's elevator when it is switched, set by name or set at the start
-- (hw4/elevator.c).
use uth_operating_systems.Base.{
  ℕ, suc, ◌≡◌, ◌≢◌, inl, inr, refl, ap, ◌∙◌, Bool, true, false, List, [], ◌∷◌, not, arith, ◌==◌,
  ==-eq, if◌then◌else◌, Bool-cases,
}
use uth_operating_systems.Links.{Ptr}
use uth_operating_systems.Registry.{Name, System, Kernel, Event, log, bypass_start, bypass_end}
use uth_operating_systems.Registry.Types.{elevator_put}
use uth_operating_systems.Registry.Switch.{
  elevator_switch, start_switch, finish_switch, restore_old, elv_register_queue, create_files,
  elevator_exit, elevator_release, elv_unregister_queue, set_elevator,
}

-- The bypasses that have been started, and those that have been ended.
abbrev pub started : List Event → ℕ
started [] = 0
started (bypass_start ∷ es) = suc (started es)
started (_ ∷ es) = started es

abbrev pub ended : List Event → ℕ
ended [] = 0
ended (bypass_end ∷ es) = suc (ended es)
ended (_ ∷ es) = ended es

ne_of_test : (n : ℕ) → (n == 0) ≡ false → n ≢ 0
ne_of_test n h = ground arith

module _ {Mods : Type 0} where
  -- The branches of `finish_switch`.
  finish_branches :
      (P : ℕ × System Mods → Type 0) {failed plain done undone : ℕ × System Mods}
      (good registered added : Bool)
      → (good ≡ false → P failed)
      → (good ≡ true → P plain)
      → (good ≡ true → P done)
      → (added ≡ false → P undone)
      → P (
          if not good
          then failed
          else if not registered
          then plain
          else if added
          then done
          else undone)
  finish_branches P false r d a b c e = a refl
  finish_branches P true false d a b c e = b refl
  finish_branches P true true true a b c e = c refl
  finish_branches P true true false a b c e = e refl

  start_switch-same :
      (s : System Mods)
      → (started (start_switch s).events ≡ suc (started s.events))
        × (ended (start_switch s).events ≡ ended s.events)
  unfolding start_switch elv_unregister_queue
  start_switch-same s = elim (Bool-cases (s.equeue s.queue.elevator).registered) [
    | inl z ↦ rw z (refl, refl)
    | inr z ↦ rw z (refl, refl)
  ]

  -- Two states with the same bypasses.
  pub record SameBypass (s s' : System Mods) : Type 0 where
    pub starts : started s'.events ≡ started s.events
    pub ends : ended s'.events ≡ ended s.events

  -- The functions of an elevator type do not bypass the queue, and its exit function leaves the
  -- queue its elevator.
  pub record IsQuiet (k : Kernel Mods) : Type 0 where
    pub init : (e : Ptr) (s : System Mods) → SameBypass s (k.elevator_init_fn e s).1
    pub exit : (e : Ptr) (s : System Mods) → SameBypass s (k.elevator_exit_fn e s)
    pub keeps :
        (e : Ptr) (s : System Mods) → (k.elevator_exit_fn e s).queue.elevator ≡ s.queue.elevator

  create_files-same :
      (k : Kernel Mods) (eq : Ptr) (attrs : List Name) (s : System Mods)
      → (started (create_files k eq attrs s).events ≡ started s.events)
        × (ended (create_files k eq attrs s).events ≡ ended s.events)
        × ((create_files k eq attrs s).queue.elevator ≡ s.queue.elevator)
  unfolding create_files
  create_files-same k eq [] s = (refl, refl, refl)
  create_files-same k eq (a ∷ attrs) s =
      let rest = create_files-same k eq attrs (log (Event.file_created eq a) s) in
      elim (Bool-cases (k.sysfs_create_file eq a)) [
        | inl e ↦ rw e rest
        | inr e ↦ rw e (refl, refl, refl)
      ]

  elv_register_queue-same :
      (k : Kernel Mods) (s : System Mods)
      → let s' = (elv_register_queue k s).1 in
        (started s'.events ≡ started s.events)
        × (ended s'.events ≡ ended s.events)
        × (s'.queue.elevator ≡ s.queue.elevator)
  unfolding elv_register_queue
  elv_register_queue-same k s =
      let e = s.queue.elevator in
      let rest = create_files-same k e (s.etype (s.equeue e).type_of).elevator_attrs s in
      elim (Bool-cases (k.kobject_add e == 0)) [
        | inl z ↦ rw z rest
        | inr z ↦ rw z (refl, refl, refl)
      ]

  module _ (k : Kernel Mods) (quiet : IsQuiet k) where
    elevator_exit-same :
        (eq : Ptr) (s : System Mods)
        → let s' = elevator_exit k eq s in
          (started s'.events ≡ started s.events)
          × (ended s'.events ≡ ended s.events)
          × (s'.queue.elevator ≡ s.queue.elevator)
    unfolding elevator_exit elevator_release elevator_put
    elevator_exit-same eq s =
        let t = (s.equeue eq).type_of in
        let same = quiet.exit t s in
        let kept = quiet.keeps t s in
        elim (Bool-cases (k.last_reference eq)) [
          | inl z ↦ rw z (same.starts, same.ends, kept)
          | inr z ↦ rw z (same.starts, same.ends, kept)
        ]

    -- How a switch from the elevator of `s` ends, where `made` is what the new type's
    -- `elevator_init_fn` returns.
    pub data Switched (s : System Mods) (made : ℕ × System Mods) : ℕ × System Mods → Type 0 where
      switched :
          {s' : System Mods}
          → made.0 ≡ 0
          → s'.queue.elevator ≡ made.1.queue.elevator
          → started s'.events ≡ suc (started s.events)
          → ended s'.events ≡ suc (ended s.events)
          → Switched s made (0, s')
      kept :
          {s' : System Mods} {err : ℕ}
          → err ≢ 0
          → s'.queue.elevator ≡ s.queue.elevator
          → started s'.events ≡ suc (started s.events)
          → ended s'.events ≡ suc (ended s.events)
          → Switched s made (err, s')

    restore_old-kept :
        (s : System Mods) (made : ℕ × System Mods) (s1 : System Mods) (err : ℕ)
        → err ≢ 0
        → started s1.events ≡ suc (started s.events)
        → ended s1.events ≡ ended s.events
        → Switched s made (restore_old k s.queue.elevator err s1)
    unfolding restore_old
    restore_old-kept s made s1 err n a b =
        let same = elv_register_queue-same k (set_elevator s.queue.elevator s1) in
        kept n same.2 (same.0 ∙ a) (ap suc (same.1 ∙ b))

    exit-Switched :
        (s : System Mods) (made : ℕ × System Mods) (s1 : System Mods)
        → made.0 ≡ 0
        → s1.queue.elevator ≡ made.1.queue.elevator
        → started s1.events ≡ suc (started s.events)
        → ended s1.events ≡ ended s.events
        → Switched s made (0, log bypass_end (elevator_exit k s.queue.elevator s1))
    exit-Switched s made s1 z e a b =
        let same = elevator_exit-same s.queue.elevator s1 in
        switched z (same.2 ∙ e) (same.0 ∙ a) (ap suc (same.1 ∙ b))

    finish_switch-Switched :
        (s : System Mods) (registered : Bool) (err : ℕ) (s1 : System Mods)
        → started s1.events ≡ suc (started s.events)
        → ended s1.events ≡ ended s.events
        → Switched s (err, s1) (finish_switch k s.queue.elevator registered err s1)
    unfolding finish_switch
    finish_switch-Switched s registered err s1 a b =
        let added = elv_register_queue k s1 in
        let same = elv_register_queue-same k s1 in
        let gone = elevator_exit-same added.1.queue.elevator added.1 in
        finish_branches (Switched s (err, s1)) (err == 0) registered (added.0 == 0)
          (λ z. restore_old-kept s (err, s1) s1 err (ne_of_test err z) a b)
          (λ z. exit-Switched s (err, s1) s1 (==-eq err 0 z) refl a b)
          (λ z. exit-Switched s (err, s1) added.1 (==-eq err 0 z) same.2 (same.0 ∙ a) (same.1 ∙ b))
          (λ z.
            restore_old-kept s (err, s1) (elevator_exit k added.1.queue.elevator added.1) added.0
              (ne_of_test added.0 z) (gone.0 ∙ same.0 ∙ a) (gone.1 ∙ same.1 ∙ b))

    -- If no function of an elevator type bypasses the queue, and exit functions leave the queue its
    -- elevator, then `elevator_switch` has one of two ends: it answers 0, the new type's
    -- `elevator_init_fn` has answered 0, and the queue has the elevator that this function has set;
    -- or it answers an error, and the queue has its old elevator. In both the queue's bypass has
    -- been started once and ended once more than before.
    pub elevator_switch-Switched :
        (s : System Mods) (new_e : Ptr)
        → Switched s (k.elevator_init_fn new_e (start_switch s)) (elevator_switch k s new_e)
    unfolding elevator_switch
    elevator_switch-Switched s new_e =
        let s1 = start_switch s in
        let quiet_init = quiet.init new_e s1 in
        let same = start_switch-same s in
        finish_switch-Switched s (s.equeue s.queue.elevator).registered
          (k.elevator_init_fn new_e s1).0 (k.elevator_init_fn new_e s1).1
          (quiet_init.starts ∙ same.0) (quiet_init.ends ∙ same.1)
