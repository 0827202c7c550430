-- ===== src/Registry/Switch.antt =====
-- The elevator of a request queue: `elevator_init` at the queue's start, `elevator_switch` and
-- what leads to it from a name that a user writes (hw4/elevator.c).
use uth_operating_systems.Base.{
  ℕ, zero, suc, Bool, true, false, List, [], ◌∷◌, ◌++◌, ◌||◌, not, Option, none, some, Run, ok, bug,
  out_of_fuel, ◌>>=◌, ◌==◌, if◌then◌else◌, update, ◌-◌,
}
use uth_operating_systems.Links.{Ptr, null, init_list_head}
use uth_operating_systems.Registry.{
  Name, same, ElevatorQueue, System, Kernel, log, set_queue, set_registered, bypass_start,
  bypass_end, icq_cleared, uevent_add, uevent_remove, kobject_deleted, freed, file_created,
}
use uth_operating_systems.Registry.Types.{name_of, einval, elevator_get, elevator_put}

-- `ENXIO`
abbrev pub enxio : ℕ
enxio = 6

-- `"noop"`
abbrev pub noop_name : Name
noop_name = 110 ∷ 111 ∷ 111 ∷ 112 ∷ []

-- The first `n` bytes.
abbrev pub take : ℕ → Name → Name
take zero xs = []
take (suc n) [] = []
take (suc n) (x ∷ xs) = x ∷ take n xs

-- `strlcpy(elevator_name, name, ELV_NAME_MAX)`, with the byte that ends the string.
abbrev pub elv_name_max : ℕ
elv_name_max = 16

-- What `elv_iosched_store` returns: the count of the bytes, or an error.
pub data Stored : Type 0 where
  accepted refused : ℕ → Stored

module _ {Mods : Type 0} where
  abbrev pub set_elevator : Ptr → System Mods → System Mods
  set_elevator eq s = set_queue (record s.queue { elevator = eq }) s

  -- The fields that `elevator_init` sets.
  unfoldable pub reset_queue : System Mods → System Mods
  reset_queue s =
      set_queue
        (record s.queue {
          links = init_list_head s.queue.queue_head s.queue.links;
          last_merge = null;
          end_sector = 0;
          boundary_rq = null;
        })
        s

  -- `elv_unregister_queue`
  unfoldable pub elv_unregister_queue : System Mods → System Mods
  elv_unregister_queue s =
      let e = s.queue.elevator in
      set_registered e false (log (kobject_deleted e) (log (uevent_remove e) s))

  -- What comes first: the queue is drained and bypassed, the old elevator unregistered.
  unfoldable pub start_switch : System Mods → System Mods
  unfolding elv_unregister_queue
  start_switch s =
      let s1 = log bypass_start s in
      log icq_cleared
        (if (s.equeue s.queue.elevator).registered then elv_unregister_queue s1 else s1)

  -- The names, each behind the last, with the queue's own one in brackets.
  unfoldable pub show_loop : ℕ → System Mods → (own : Name) → (cur : Ptr) → Run Name
  show_loop zero s own cur = out_of_fuel
  show_loop (suc fuel) s own cur =
      let name = name_of s cur in
      let shown = if same own name then b'[' ∷ own ++ b']' ∷ b' ' ∷ [] else name ++ b' ' ∷ [] in
      let rest = show_loop fuel s own (s.queue.links.next cur) >>= λ text. ok (shown ++ text) in
      if cur == s.elv_list then ok (10 ∷ []) else rest

  -- The text; what the function returns is its length. `stackable` is `blk_queue_stackable`.
  unfoldable pub elv_iosched_show : ℕ → (stackable : Bool) → System Mods → Run Name
  unfolding show_loop
  elv_iosched_show fuel stackable s =
      if s.queue.elevator == null || not stackable
      then ok (110 ∷ 111 ∷ 110 ∷ 101 ∷ 10 ∷ [])
      else show_loop fuel s (name_of s (s.equeue s.queue.elevator).type_of)
          (s.queue.links.next s.elv_list)

  module _ (k : Kernel Mods) where
    -- `kzalloc_node` clears the new object; its hash, which `hash_init` empties, is left out.
    unfoldable pub elevator_alloc : Ptr → System Mods → Ptr × System Mods
    unfolding elevator_put
    elevator_alloc e s =
        let eq = k.kzalloc_node s in
        let fresh : ElevatorQueue = record { type_of = e; registered = false } in
        if eq == null
        then (null, elevator_put k e s)
        else (eq, record s { equeue = update s.equeue eq fresh })

    unfoldable pub elevator_release : Ptr → System Mods → System Mods
    unfolding elevator_put
    elevator_release eq s = log (freed eq) (elevator_put k (s.equeue eq).type_of s)

    -- `kobject_put` calls `elevator_release` for the last reference.
    unfoldable pub elevator_exit : Ptr → System Mods → System Mods
    unfolding elevator_release
    elevator_exit eq s =
        let s1 = k.elevator_exit_fn (s.equeue eq).type_of s in
        if k.last_reference eq then elevator_release eq s1 else s1

    -- `if (!e) e = elevator_get(name, false);`
    unfoldable pub or_get : ℕ → Name → Ptr × System Mods → Run (Ptr × System Mods)
    or_get fuel name (e, s) = if e == null then elevator_get k fuel name false s else ok (e, s)

    -- The fall-backs behind the name that the caller gives. Messages are output only.
    unfoldable pub init_default : ℕ → Ptr × System Mods → Run (ℕ × System Mods)
    init_default fuel (e, s) = do
      (e1, s1) ←
          (if same s.chosen_elevator [] then ok (e, s) else or_get fuel s.chosen_elevator (e, s))
      (e2, s2) ← or_get fuel k.default_iosched (e1, s1)
      (e3, s3) ← or_get fuel noop_name (e2, s2)
      (if e3 == null then bug else ok (0, (k.elevator_init_fn e3 s3).1))

    unfoldable pub init_named : ℕ → Ptr × System Mods → Run (ℕ × System Mods)
    init_named fuel (e, s) = if e == null then ok (einval, s) else init_default fuel (e, s)

    -- A type that is `NULL` when its `elevator_init_fn` is read stops at `bug`.
    unfoldable pub elevator_init : ℕ → Option Name → System Mods → Run (ℕ × System Mods)
    elevator_init fuel name s = if not (s.queue.elevator == null) then ok (0, s) else elim name [
      | none ↦ init_default fuel (null, reset_queue s)
      | some n ↦ (elevator_get k fuel n true (reset_queue s) >>= λ r. init_named fuel r)
    ]

    -- The attributes, up to one that cannot be created.
    unfoldable pub create_files : Ptr → List Name → System Mods → System Mods
    create_files eq [] s = s
    create_files eq (a ∷ attrs) s =
        let rest = create_files eq attrs (log (file_created eq a) s) in
        if k.sysfs_create_file eq a then rest else s

    unfoldable pub elv_register_queue : System Mods → ℕ × System Mods
    unfolding create_files
    elv_register_queue s =
        let e = s.queue.elevator in
        let error = k.kobject_add e in
        let s1 = create_files e (s.etype (s.equeue e).type_of).elevator_attrs s in
        (error, if error == 0 then set_registered e true (log (uevent_add e) s1) else s)

    -- `fail_init`: the old elevator is put back, and registered.
    unfoldable pub restore_old : Ptr → ℕ → System Mods → ℕ × System Mods
    unfolding elv_register_queue
    restore_old old err s = (err, log bypass_end (elv_register_queue (set_elevator old s)).1)

    -- The part of `elevator_switch` behind `elevator_init_fn`.
    unfoldable pub finish_switch :
        (old : Ptr) (registered : Bool) → ℕ → System Mods → ℕ × System Mods
    unfolding restore_old elevator_exit elv_register_queue
    finish_switch old registered err s =
        let added = elv_register_queue s in
        if not (err == 0)
        then restore_old old err s
        else if not registered
        then (0, log bypass_end (elevator_exit old s))
        else if added.0 == 0
        then (0, log bypass_end (elevator_exit old added.1))
        else restore_old old added.0 (elevator_exit added.1.queue.elevator added.1)

    unfoldable pub elevator_switch : System Mods → (new_e : Ptr) → ℕ × System Mods
    unfolding start_switch finish_switch
    elevator_switch s new_e =
        let (err, s1) = k.elevator_init_fn new_e (start_switch s) in
        finish_switch s.queue.elevator (s.equeue s.queue.elevator).registered err s1

    -- `name` is what the buffer holds behind `strstrip`, `e` the type that was found.
    unfoldable pub change_to : (name : Name) → Ptr × System Mods → ℕ × System Mods
    unfolding elevator_switch elevator_put
    change_to name (e, s) =
        if e == null
        then (einval, s)
        else if same name (name_of s (s.equeue s.queue.elevator).type_of)
        then (0, elevator_put k e s)
        else elevator_switch s e

    -- `__elevator_change`; `elevator_change` is the same under a lock.
    unfoldable pub elevator_change : ℕ → System Mods → Name → Run (ℕ × System Mods)
    elevator_change fuel s name =
        let (buffer, stripped) = k.strstrip (take (elv_name_max - 1) name) in
        if s.queue.elevator == null
        then ok (enxio, s)
        else do r ← elevator_get k fuel stripped true s; ok (change_to buffer r)

    unfoldable pub elv_iosched_store :
        ℕ → System Mods → Name → (count : ℕ) → Run (Stored × System Mods)
    elv_iosched_store fuel s name count =
        if s.queue.elevator == null then ok (accepted count, s) else do
          (ret, s') ← elevator_change fuel s name
          ok (if ret == 0 then accepted count else refused ret, s')
