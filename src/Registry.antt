-- ===== src/Registry.antt =====
-- The I/O schedulers that are registered with the block layer, and the one that a request queue
-- uses: the list `elv_list` of hw4/elevator.c with `struct elevator_type` and
-- `struct elevator_queue` of hw4/elevator.h.
pub mod Types
pub mod Switch
pub mod Names
pub mod Registration
pub mod Change
pub mod Lookup
use uth_operating_systems.Base.{
  ℕ, Bool, true, false, List, [], ◌∷◌, ◌&&◌, ◌==◌, if◌then◌else◌, update,
}
use uth_operating_systems.Links.{Ptr, null}
use uth_operating_systems.Elevator.{Queue}

-- The bytes of a string, without the one that ends it.
abbrev pub Name : Type 0
Name = List ℕ

-- `!strcmp(a, b)`
abbrev pub same : Name → Name → Bool
same [] [] = true
same [] (y ∷ ys) = false
same (x ∷ xs) [] = false
same (x ∷ xs) (y ∷ ys) = (x == y) && same xs ys

-- `struct elevator_type`; `owner` is the number of its module, `attrs` the names of its attributes.
pub record ElevatorType : Type 0 where
  pub icq_cache : Ptr
  pub icq_size : ℕ
  pub icq_align : ℕ
  pub elevator_attrs : List Name
  pub elevator_name : Name
  pub elevator_owner : ℕ

-- `struct elevator_queue`, less its hash and the scheduler's data.
pub record ElevatorQueue : Type 0 where
  pub type_of : Ptr
  pub registered : Bool

-- What is done outside these sources, in the order of time, the newest first.
pub data Event : Type 0 where
  bypass_start bypass_end icq_cleared : Event
  cache_destroyed uevent_add uevent_remove kobject_deleted freed : Ptr → Event
  file_created : Ptr → Name → Event

-- The memory and the globals. The address of an elevator type is also that of its `list`, whose
-- links are those of the queue's memory. `mods` is the state of the modules' reference counts.
pub record System (Mods : Type 0) : Type 0 where
  pub queue : Queue
  pub elv_list : Ptr
  pub chosen_elevator : Name
  pub etype : Ptr → ElevatorType
  pub equeue : Ptr → ElevatorQueue
  pub mods : Mods
  pub events : List Event

-- What the code calls outside these sources: the module loader, the slab and kobject functions,
-- and the function pointers `elevator_init_fn` and `elevator_exit_fn` of the type at an address.
-- An error is the number behind the minus sign, and 0 where there is none.
pub record Kernel (Mods : Type 0) : Type 0 where
  pub try_module_get : ℕ → Mods → Bool × Mods
  pub module_put : ℕ → Mods → Mods
  pub request_module : Name → System Mods → System Mods
  pub kmem_cache_create : ElevatorType → Ptr
  pub kzalloc_node : System Mods → Ptr
  pub kobject_add : Ptr → ℕ
  pub sysfs_create_file : Ptr → Name → Bool
  pub last_reference : Ptr → Bool
  pub elevator_init_fn : Ptr → System Mods → ℕ × System Mods
  pub elevator_exit_fn : Ptr → System Mods → System Mods
  pub icq_min_size : ℕ
  pub icq_min_align : ℕ
  pub default_iosched : Name
  pub strstrip : Name → Name × Name

module _ {Mods : Type 0} where
  abbrev pub log : Event → System Mods → System Mods
  log e s = record s { events = e ∷ s.events }

  abbrev pub set_queue : Queue → System Mods → System Mods
  set_queue q s = record s { queue = q }

  abbrev pub set_cache : Ptr → Ptr → System Mods → System Mods
  set_cache e c s = record s { etype = update s.etype e (record (s.etype e) { icq_cache = c }) }

  abbrev pub set_registered : Ptr → Bool → System Mods → System Mods
  set_registered eq r s = record s {
    equeue = update s.equeue eq (record (s.equeue eq) { registered = r });
  }
