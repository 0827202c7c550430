-- ===== src/Registry/Types.antt =====
-- The list of elevator types: finding a type by its name with a reference to its module,
-- registering and unregistering it (hw4/elevator.c).
use uth_operating_systems.Base.{
  ℕ, zero, suc, Bool, [], ◌&&◌, ◌||◌, not, Run, ok, out_of_fuel, ◌>>=◌, ltb, ◌==◌, if◌then◌else◌,
}
use uth_operating_systems.Links.{Ptr, null, list_add_tail, list_del_init}
use uth_operating_systems.Registry.{
  Name, same, System, Kernel, log, set_queue, set_cache, cache_destroyed,
}

-- `ENOMEM`, `EBUSY`, `EINVAL`
abbrev pub enomem : ℕ
enomem = 12

abbrev pub ebusy : ℕ
ebusy = 16

abbrev pub einval : ℕ
einval = 22

module _ {Mods : Type 0} where
  abbrev pub name_of : System Mods → Ptr → Name
  name_of s e = (s.etype e).elevator_name

  -- `list_for_each_entry(e, &elv_list, list)`, from `cur`.
  unfoldable pub find_loop : ℕ → System Mods → Name → (cur : Ptr) → Run Ptr
  find_loop zero s name cur = out_of_fuel
  find_loop (suc fuel) s name cur =
      let rest = find_loop fuel s name (s.queue.links.next cur) in
      if cur == s.elv_list then ok null else if same (name_of s cur) name then ok cur else rest

  unfoldable pub elevator_find : ℕ → System Mods → Name → Run Ptr
  unfolding find_loop
  elevator_find fuel s name = find_loop fuel s name (s.queue.links.next s.elv_list)

  -- `list_add_tail(&e->list, &elv_list)`
  abbrev pub link_type : Ptr → System Mods → System Mods
  link_type e s = set_queue (record s.queue { links = list_add_tail e s.elv_list s.queue.links }) s

  -- The part of `elv_register` under the lock. The message is output only.
  unfoldable pub register_type : ℕ → System Mods → Ptr → Run (ℕ × System Mods)
  unfolding elevator_find
  register_type fuel s e = do
    found ← elevator_find fuel s (name_of s e)
    let cache = (s.etype e).icq_cache
    let dropped = if cache == null then s else log (cache_destroyed cache) s
    ok (if not (found == null) then (ebusy, dropped) else (0, link_type e s))

  unfoldable pub elv_unregister : Ptr → System Mods → System Mods
  elv_unregister e s =
      let s1 = set_queue (record s.queue { links = list_del_init e s.queue.links }) s in
      let cache = (s.etype e).icq_cache in
      if cache == null then s1 else set_cache e null (log (cache_destroyed cache) s1)

  module _ (k : Kernel Mods) where
    unfoldable pub elevator_put : Ptr → System Mods → System Mods
    elevator_put e s = record s { mods = k.module_put (s.etype e).elevator_owner s.mods }

    -- `if (e && !try_module_get(e->elevator_owner)) e = NULL;`
    unfoldable pub take_module : Ptr → System Mods → Ptr × System Mods
    take_module e s =
        let got = k.try_module_get (s.etype e).elevator_owner s.mods in
        if e == null then (null, s) else (if got.0 then e else null, record s { mods = got.1 })

    unfoldable pub elevator_get :
        ℕ → Name → (try_loading : Bool) → System Mods → Run (Ptr × System Mods)
    unfolding elevator_find take_module
    elevator_get fuel name try_loading s = do
      e ← elevator_find fuel s name
      let s1 = k.request_module name s
      let again = elevator_find fuel s1 name >>= λ e'. ok (take_module e' s1)
      (if (e == null) && try_loading then again else ok (take_module e s))

    -- At boot, when the `elevator=` parameter names a type.
    unfoldable pub load_default_elevator_module : ℕ → System Mods → Run (System Mods)
    unfolding elevator_find
    load_default_elevator_module fuel s = if same s.chosen_elevator [] then ok s else do
      e ← elevator_find fuel s s.chosen_elevator
      ok (if e == null then k.request_module s.chosen_elevator s else s)

    unfoldable pub elv_register : ℕ → System Mods → Ptr → Run (ℕ × System Mods)
    unfolding register_type
    elv_register fuel s e =
        let t = s.etype e in
        let cache = k.kmem_cache_create t in
        let s1 = set_cache e cache s in
        if t.icq_size == 0
        then register_type fuel s e
        else if ltb t.icq_size k.icq_min_size || ltb t.icq_align k.icq_min_align
        then ok (einval, s)
        else if cache == null
        then ok (enomem, s1)
        else register_type fuel s1 e
