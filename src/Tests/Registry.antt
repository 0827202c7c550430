-- ===== src/Tests/Registry.antt =====
-- The registry with the types "clook" (at 10) and "noop" (at 20) on the list, a queue whose
-- elevator (at 60) is of the first type, and a type "x" (at 30) that is not registered. Setting up
-- "noop" fails in the kernel `failing`.
use uth_operating_systems.Base.{
  ℕ, ◌+◌, ◌-◌, ◌≡◌, refl, arith, true, [], ◌∷◌, ok, Returns, ◌==◌, if◌then◌else◌,
}
use uth_operating_systems.Links.{null, init_list_head}
use uth_operating_systems.Registry.{Name, ElevatorType, System, Kernel}
use uth_operating_systems.Registry.Types.{elevator_find, elv_register, elv_unregister}
use uth_operating_systems.Registry.Switch.{noop_name, set_elevator, elevator_switch, start_switch}
use uth_operating_systems.Registry.Registration.{
  IsRegistry, Registered, elv_register-Registered, elv_unregister-IsRegistry,
}
use uth_operating_systems.Registry.Change.{IsQuiet, Switched, elevator_switch-Switched}
use uth_operating_systems.Tests.Block.{queue}

abbrev clook_name : Name
clook_name = 99 ∷ 108 ∷ 111 ∷ 111 ∷ 107 ∷ []

abbrev typed : Name → ℕ → ElevatorType
typed n m = record {
  icq_cache = null;
  icq_size = 0;
  icq_align = 0;
  elevator_attrs = [];
  elevator_name = n;
  elevator_owner = m;
}

-- The modules' references are one count.
abbrev system : System ℕ
system = record {
  queue = record queue {
    links = record {
      next = λ a. if a == 5 then 10 else if a == 10 then 20 else 5;
      prev = λ a. if a == 5 then 20 else if a == 10 then 5 else 10;
    };
    elevator = 60;
  };
  elv_list = 5;
  chosen_elevator = [];
  etype = λ e.
      if e == 10
      then typed clook_name 1
      else if e == 20
      then typed noop_name 2
      else typed (120 ∷ []) 3;
  equeue = λ eq. record { type_of = 10; registered = true };
  mods = 7;
  events = [];
}

abbrev failing : Kernel ℕ
failing = record {
  try_module_get = λ m n. (true, n + 1);
  module_put = λ m n. n - 1;
  request_module = λ n s. s;
  kmem_cache_create = λ t. 0;
  kzalloc_node = λ s. 70;
  kobject_add = λ eq. 0;
  sysfs_create_file = λ eq n. true;
  last_reference = λ eq. true;
  elevator_init_fn = λ e s. if e == 20 then (12, s) else (0, set_elevator 70 s);
  elevator_exit_fn = λ e s. s;
  icq_min_size = 56;
  icq_min_align = 8;
  default_iosched = noop_name;
  strstrip = λ n. (n, n);
}

system-IsRegistry : IsRegistry system (10 ∷ 20 ∷ [])
system-IsRegistry = record {
  ring = record {
    chain = (refl, refl, (refl, refl, (refl, refl)));
    distinct = (refl, (refl, (refl, tt)));
  };
  proper = refl;
  differ = (refl, (refl, tt));
}

failing-IsQuiet : IsQuiet failing
failing-IsQuiet = record {
  init = λ e s. record { starts = ground arith; ends = ground arith };
  exit = λ e s. record { starts = refl; ends = refl };
  keeps = λ e s. refl;
}

elv_register-Registered_example :
    Returns (Registered 30 (10 ∷ 20 ∷ [])) (elv_register failing 9 system 30)
elv_register-Registered_example =
    elv_register-Registered failing 9 system 30 (10 ∷ 20 ∷ []) system-IsRegistry refl
      (λ z. omega arith) (omega arith)

elv_unregister-IsRegistry_example :
    IsRegistry (elv_unregister 20 system) (10 ∷ [])
    × (elevator_find 9 (elv_unregister 20 system) noop_name ≡ ok null)
elv_unregister-IsRegistry_example =
    elv_unregister-IsRegistry system (10 ∷ []) 20 [] 9 system-IsRegistry (omega arith)

elevator_switch-Switched_example :
    Switched failing failing-IsQuiet system
      (failing.elevator_init_fn 20 (start_switch system))
      (elevator_switch failing system 20)
elevator_switch-Switched_example = elevator_switch-Switched failing failing-IsQuiet system 20

abbrev starting : System ℕ
starting = record system { queue = record system.queue { elevator = null } }

starting-IsRegistry : IsRegistry starting (10 ∷ 20 ∷ [])
starting-IsRegistry = record {
  ring = system-IsRegistry.ring;
  proper = refl;
  differ = system-IsRegistry.differ;
}

abbrev no_types : System ℕ
no_types = record starting {
  queue = record starting.queue { links = init_list_head 5 starting.queue.links };
}

no_types-IsRegistry : IsRegistry no_types []
unfolding init_list_head
no_types-IsRegistry = record {
  ring = record { chain = (refl, refl); distinct = (refl, tt) };
  proper = refl;
  differ = tt;
}
