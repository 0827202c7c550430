-- ===== src/Registry/Lookup.antt =====
-- Taking an elevator type by its name with a reference to its module, and the two callers that
-- name one: `elevator_change` and `elevator_init` (hw4/elevator.c).
use uth_operating_systems.Base.{
  ℕ, ◌≡◌, ◌≢◌, ◌<◌, refl, inl, inr, Bool-cases, ◌∙◌, Bool, true, false, List, [], ◌∷◌, arith, none,
  none, ok, bug, ==-ne, length, ◌∉◌,
}
use uth_operating_systems.Links.{Ptr, null, init_list_head}
use uth_operating_systems.Links.Ops.{Ring-frame}
use uth_operating_systems.Registry.{Name, same, System, Kernel}
use uth_operating_systems.Registry.Types.{name_of, take_module, elevator_get}
use uth_operating_systems.Registry.Switch.{
  elevator_init, init_default, or_get, reset_queue, noop_name,
}
use uth_operating_systems.Registry.Names.{first_named}
use uth_operating_systems.Registry.Registration.{IsRegistry, elevator_find-first_named}

module _ {Mods : Type 0} (k : Kernel Mods) (fuel : ℕ) where
  module _ (s : System Mods) (n : Name) (xs : List Ptr) (r : IsRegistry s xs)
      (enough : length xs < fuel) where
    elevator_get-found :
        (e : Ptr) (ms : Mods) (try_loading : Bool)
        → first_named (name_of s) n xs ≡ e
        → e ≢ null
        → k.try_module_get (s.etype e).elevator_owner s.mods ≡ (true, ms)
        → elevator_get k fuel n try_loading s ≡ ok (e, record s { mods = ms })
    unfolding elevator_get take_module
    elevator_get-found e ms b h ne got =
        rw (elevator_find-first_named fuel s n xs r enough, h, ==-ne e null ne, got) refl

    elevator_get-missing :
        first_named (name_of s) n xs ≡ null → elevator_get k fuel n false s ≡ ok (null, s)
    unfolding elevator_get take_module
    elevator_get-missing h = rw (elevator_find-first_named fuel s n xs r enough, h) refl

  -- The queue of `elevator_init` keeps the list of types.
  reset_queue-IsRegistry :
      (s : System Mods) (xs : List Ptr)
      → IsRegistry s xs
      → s.queue.queue_head ∉ (s.elv_list ∷ xs)
      → IsRegistry (reset_queue s) xs
  unfolding reset_queue init_list_head
  reset_queue-IsRegistry s xs r o = record {
    ring = Ring-frame _ r.ring (λ a i. (ground (arith, o, i), ground (arith, o, i)));
    proper = r.proper;
    differ = r.differ;
  }

  -- One step down the list of names that `elevator_init` tries.
  or_get-found :
      (s : System Mods) (n : Name) (xs : List Ptr) (e : Ptr) (ms : Mods)
      → IsRegistry s xs
      → length xs < fuel
      → first_named (name_of s) n xs ≡ e
      → e ≢ null
      → k.try_module_get (s.etype e).elevator_owner s.mods ≡ (true, ms)
      → or_get k fuel n (null, s) ≡ ok (e, record s { mods = ms })
  unfolding or_get
  or_get-found s n xs e ms r enough h ne got =
      elevator_get-found s n xs r enough e ms false h ne got

  or_get-none :
      (s : System Mods) (n : Name)
      → IsRegistry s []
      → 0 < fuel
      → or_get k fuel n (null, s) ≡ ok (null, s)
  unfolding or_get
  or_get-none s n r enough = elevator_get-missing s n [] r enough refl

  elevator_init-start :
      (s : System Mods)
      → s.queue.elevator ≡ null
      → elevator_init k fuel none s ≡ init_default k fuel (null, reset_queue s)
  unfolding elevator_init
  elevator_init-start s z = rw z refl

  init_default-found :
      (s : System Mods) (xs : List Ptr) (e : Ptr) (ms : Mods)
      → IsRegistry s xs
      → length xs < fuel
      → s.chosen_elevator ≡ []
      → first_named (name_of s) k.default_iosched xs ≡ e
      → e ≢ null
      → k.try_module_get (s.etype e).elevator_owner s.mods ≡ (true, ms)
      → init_default k fuel (null, s) ≡ ok (0, (k.elevator_init_fn e (record s { mods = ms })).1)
  unfolding init_default or_get
  init_default-found s xs e ms r enough c found ne got =
      simp (c, or_get-found s k.default_iosched xs e ms r enough found ne got, ==-ne e null ne)

  init_default-no_types :
      (s : System Mods) → IsRegistry s [] → 0 < fuel → init_default k fuel (null, s) ≡ bug
  unfolding init_default
  init_default-no_types s r enough = elim (Bool-cases (same s.chosen_elevator [])) [
    | inl c ↦
        rw (c, or_get-none s k.default_iosched r enough)
          (rw (or_get-none s noop_name r enough) refl)
    | inr c ↦
        rw (c, or_get-none s s.chosen_elevator r enough)
          (rw (or_get-none s k.default_iosched r enough)
            (rw (or_get-none s noop_name r enough) refl))
  ]

  -- If the queue has no elevator, neither the caller nor the boot parameter names one, and the
  -- default type is on the well-formed list of fewer types than the fuel and its module can be
  -- taken, then `elevator_init` runs the type's `elevator_init_fn` on the queue that it has reset,
  -- and answers 0 whatever that function answers.
  pub elevator_init-default :
      (s : System Mods) (xs : List Ptr) (e : Ptr) (ms : Mods)
      → IsRegistry s xs
      → length xs < fuel
      → s.queue.queue_head ∉ (s.elv_list ∷ xs)
      → s.queue.elevator ≡ null
      → s.chosen_elevator ≡ []
      → first_named (name_of s) k.default_iosched xs ≡ e
      → e ≢ null
      → k.try_module_get (s.etype e).elevator_owner s.mods ≡ (true, ms)
      → elevator_init k fuel none s
        ≡ ok (0, (k.elevator_init_fn e (record (reset_queue s) { mods = ms })).1)
  unfolding reset_queue
  elevator_init-default s xs e ms r enough o z c found ne got =
      elevator_init-start s z
      ∙ init_default-found (reset_queue s) xs e ms (reset_queue-IsRegistry s xs r o) enough c found
          ne got

  -- If no elevator type is registered and the queue has none, `elevator_init` without a name comes
  -- to read the functions of a type that is `NULL`.
  pub elevator_init-no_types :
      (s : System Mods)
      → IsRegistry s []
      → 0 < fuel
      → s.queue.queue_head ≢ s.elv_list
      → s.queue.elevator ≡ null
      → elevator_init k fuel none s ≡ bug
  elevator_init-no_types s r enough o z =
      elevator_init-start s z
      ∙ init_default-no_types (reset_queue s) (reset_queue-IsRegistry s [] r (ground arith)) enough
