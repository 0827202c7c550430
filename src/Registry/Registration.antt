-- ===== src/Registry/Registration.antt =====
-- Registering and unregistering an elevator type (hw4/elevator.c): the list of types stays a list
-- of different names, and a type is found by its name just while it is registered.
use uth_operating_systems.Base.{
  append-nil, ==-eq, ltb, ℕ, zero, suc, ◌≡◌, ◌≢◌, ◌<◌, inl, inr, refl, sym, ap, ◌∙◌, Bool, true,
  false, List, [], ◌∷◌, ◌++◌, ◌||◌, arith, Run, ok, Returns, ◌==◌, ==-refl, if◌then◌else◌,
  Bool-cases, length, ◌∉◌, has-append,
}
use uth_operating_systems.Links.{Ptr, null, list_del_init}
use uth_operating_systems.Links.Chain.{Chain, Ring}
use uth_operating_systems.Registry.{Name, System, Kernel, set_cache}
use uth_operating_systems.Registry.Types.{
  name_of, find_loop, elevator_find, register_type, elv_register, elv_unregister, link_type,
}
use uth_operating_systems.Registry.{cache_destroyed, log}
use uth_operating_systems.Links.Ops.{list_add_tail-Ring_at, list_del_init-Ring}
use uth_operating_systems.Registry.Names.{
  first_named, NamesDiffer, first_named-cong, NamesDiffer-cong, NamesDiffer-snoc,
  NamesDiffer-remove,
}

module _ {Mods : Type 0} where
  -- The loop finds what the list of addresses says.
  find_loop-Chain :
      (fuel : ℕ) (s : System Mods) (n : Name) (p : Ptr) (xs : List Ptr)
      → Chain s.queue.links p xs s.elv_list
      → s.elv_list ∉ xs
      → length xs < fuel
      → find_loop fuel s n (s.queue.links.next p) ≡ ok (first_named (name_of s) n xs)
  unfolding find_loop
  find_loop-Chain zero s n p xs c o h = elim h [ ]
  find_loop-Chain (suc fuel) s n p [] c o h = rw (c.0, ==-refl s.elv_list) refl
  find_loop-Chain (suc fuel) s n p (x ∷ xs) c o h =
      let rest = find_loop-Chain fuel s n x xs c.2 (ground arith) (omega arith) in
      rw (c.0, rest) (ground arith)

  -- The list of types, whose names are all different.
  pub record IsRegistry (s : System Mods) (xs : List Ptr) : Type 0 where
    pub ring : Ring s.queue.links s.elv_list xs
    pub proper : null ∉ xs
    pub differ : NamesDiffer (name_of s) xs

  pub elevator_find-first_named :
      (fuel : ℕ) (s : System Mods) (n : Name) (xs : List Ptr)
      → IsRegistry s xs
      → length xs < fuel
      → elevator_find fuel s n ≡ ok (first_named (name_of s) n xs)
  unfolding elevator_find
  elevator_find-first_named fuel s n xs r h =
      find_loop-Chain fuel s n s.elv_list xs r.ring.chain r.ring.distinct.0 h

  -- A registration: done with the type last on the list, or refused with the list as it was.
  pub data Registered (e : Ptr) (xs : List Ptr) : ℕ × System Mods → Type 0 where
    appended : {s : System Mods} → IsRegistry s (xs ++ e ∷ []) → Registered e xs (0, s)
    rejected : {s : System Mods} {err : ℕ} → err ≢ 0 → IsRegistry s xs → Registered e xs (err, s)

  link_type-IsRegistry :
      (s : System Mods) (e : Ptr) (xs : List Ptr)
      → IsRegistry s xs
      → e ∉ (s.elv_list ∷ xs)
      → e ≢ null
      → first_named (name_of s) (name_of s e) xs ≡ null
      → IsRegistry (link_type e s) (xs ++ e ∷ [])
  link_type-IsRegistry s e xs r o n h = record {
    ring = list_add_tail-Ring_at e xs [] (rw append-nil r.ring) (rw append-nil o);
    proper = ground (arith, r.proper, has-append null xs (e ∷ []));
    differ = NamesDiffer-snoc (name_of s) xs e r.proper r.differ h;
  }

  dropped-IsRegistry :
      (s : System Mods) (b : Bool) (c : Ptr) (xs : List Ptr)
      → IsRegistry s xs
      → IsRegistry (if b then s else log (cache_destroyed c) s) xs
  dropped-IsRegistry s true c xs r = r
  dropped-IsRegistry s false c xs r = record { ring = r.ring; proper = r.proper; differ = r.differ }

  name-set_cache :
      (e c : Ptr) (s : System Mods) (a : Ptr) → name_of (set_cache e c s) a ≡ name_of s a
  name-set_cache e c s a = ground arith

  -- The branches of `elv_register`.
  branches :
      {P : ℕ × System Mods → Type 0} {plain small nomem full : Run (ℕ × System Mods)}
      (no_cache misfit failed : Bool)
      → Returns P plain
      → Returns P small
      → Returns P nomem
      → Returns P full
      → Returns P
          (if no_cache then plain else if misfit then small else if failed then nomem else full)
  branches true m f a b c d = a
  branches false true f a b c d = b
  branches false false true a b c d = c
  branches false false false a b c d = d

  register_type-Registered :
      (fuel : ℕ) (s : System Mods) (e : Ptr) (xs : List Ptr)
      → IsRegistry s xs
      → e ∉ (s.elv_list ∷ xs)
      → e ≢ null
      → length xs < fuel
      → Returns (Registered e xs) (register_type fuel s e)
  unfolding register_type
  register_type-Registered fuel s e xs r o n h =
      rw (elevator_find-first_named fuel s (name_of s e) xs r h)
        (elim (Bool-cases (first_named (name_of s) (name_of s e) xs == null)) [
          | inl free ↦
              let absent = ==-eq (first_named (name_of s) (name_of s e) xs) null free in
              rw free
                ((0, link_type e s), refl, appended (link_type-IsRegistry s e xs r o n absent))
          | inr taken ↦ rw taken (
            _,
            refl,
            rejected (λ z. omega arith)
                (dropped-IsRegistry s ((s.etype e).icq_cache == null) (s.etype e).icq_cache xs r),
          )
        ])

  set_cache-IsRegistry :
      (e c : Ptr) (s : System Mods) (xs : List Ptr)
      → IsRegistry s xs
      → IsRegistry (set_cache e c s) xs
  set_cache-IsRegistry e c s xs r = record {
    ring = r.ring;
    proper = r.proper;
    differ =
        NamesDiffer-cong (name_of s) (name_of (set_cache e c s)) xs
          (λ a. sym (name-set_cache e c s a)) r.differ;
  }

  -- If the list of elevator types is a circular list of types with different names, the new type is
  -- at an address of its own, and there is more fuel than types, then `elv_register` returns:
  -- either it answers 0, the new type is the last of the list, and all names are still different;
  -- or it answers an error, and the list is as it was.
  pub elv_register-Registered :
      (k : Kernel Mods) (fuel : ℕ) (s : System Mods) (e : Ptr) (xs : List Ptr)
      → IsRegistry s xs
      → e ∉ (s.elv_list ∷ xs)
      → e ≢ null
      → length xs < fuel
      → Returns (Registered e xs) (elv_register k fuel s e)
  unfolding elv_register
  elv_register-Registered k fuel s e xs r o n h =
      let cache = k.kmem_cache_create (s.etype e) in
      let s1 = set_cache e cache s in
      let r1 = set_cache-IsRegistry e cache s xs r in
      branches ((s.etype e).icq_size == 0)
        (ltb (s.etype e).icq_size k.icq_min_size || ltb (s.etype e).icq_align k.icq_min_align)
        (cache == null) (register_type-Registered fuel s e xs r o n h)
        (_, refl, rejected (λ z. omega arith) r) (_, refl, rejected (λ z. omega arith) r1)
        (register_type-Registered fuel s1 e xs r1 o n h)

  -- What `elv_unregister` does behind the unlinking changes no list and no name.
  abbrev without_cache : Bool → Ptr → Ptr → System Mods → System Mods
  without_cache no_cache e c s =
      if no_cache then s else set_cache e null (log (cache_destroyed c) s)

  name-without_cache :
      (b : Bool) (e c : Ptr) (s : System Mods) (a : Ptr)
      → name_of (without_cache b e c s) a ≡ name_of s a
  name-without_cache true e c s a = refl
  name-without_cache false e c s a = name-set_cache e null (log (cache_destroyed c) s) a

  without_cache-IsRegistry :
      (b : Bool) (e c : Ptr) (s : System Mods) (xs : List Ptr)
      → IsRegistry s xs
      → IsRegistry (without_cache b e c s) xs
  without_cache-IsRegistry true e c s xs r = r
  without_cache-IsRegistry false e c s xs r =
      set_cache-IsRegistry e null (log (cache_destroyed c) s) xs
        (record { ring = r.ring; proper = r.proper; differ = r.differ })

  -- If the list of elevator types is a circular list of types with different names, then after
  -- `elv_unregister` of one of them it is the list of the others in their order, with different
  -- names, and `elevator_find` (with more fuel than types that are left) returns `NULL` for the
  -- name of the one that is gone.
  pub elv_unregister-IsRegistry :
      (s : System Mods) (us : List Ptr) (e : Ptr) (vs : List Ptr) (fuel : ℕ)
      → IsRegistry s (us ++ e ∷ vs)
      → length (us ++ vs) < fuel
      → IsRegistry (elv_unregister e s) (us ++ vs)
        × (elevator_find fuel (elv_unregister e s) (name_of s e) ≡ ok null)
  unfolding elv_unregister
  elv_unregister-IsRegistry s us e vs fuel r h =
      let s1 : System Mods = record s {
        queue = record s.queue { links = list_del_init e s.queue.links };
      } in
      let c = (s.etype e).icq_cache in
      let (differ, absent) = NamesDiffer-remove (name_of s) us e vs r.proper r.differ in
      let gone : IsRegistry s1 (us ++ vs) = record {
        ring = (list_del_init-Ring us e vs r.ring).0;
        proper = ground (arith, r.proper, has-append null us vs, has-append null us (e ∷ vs));
        differ = differ;
      } in
      let r' = without_cache-IsRegistry (c == null) e c s1 (us ++ vs) gone in
      let s' = without_cache (c == null) e c s1 in
      (
        r',
        elevator_find-first_named fuel s' (name_of s e) (us ++ vs) r' h
            ∙ ap ok (
                first_named-cong (name_of s') (name_of s) (name_of s e) (us ++ vs)
                  (name-without_cache (c == null) e c s1)
                ∙ absent),
      )
