-- ===== src/Profile/Commands.antt =====
-- The commands of a profile and what each does to the threads (`readProfile` of
-- hw2/Scheduler_VM/cpuinit.c). A command that writes through a `NULL` pointer stops at `bug`.
use uth_operating_systems.Base.{
  ℕ, ◌+◌, Bool, true, false, List, [], ◌∷◌, ◌++◌, ◌&&◌, Option, none, some, Run, ok, bug, ◌==◌, leb,
  if◌then◌else◌, update, ℤ, pos, negsuc, minus_one, inc, dec,
}
use uth_operating_systems.Links.{Ptr, null}
use uth_operating_systems.Sched.{Info, ThreadType, interactive, noninteractive}
use uth_operating_systems.Profile.{codes, Stream, readint, readstring}

pub data Command : Type 0 where
  cycle_time new_process end_process spawn_time name thread_type seed endtime : Command
  kill_time nice spawn end_spawn work_duration : Command

-- `strcmp(a, b) == 0`
abbrev pub str_eq : List ℕ → List ℕ → Bool
str_eq [] [] = true
str_eq [] (y ∷ ys) = false
str_eq (x ∷ xs) [] = false
str_eq (x ∷ xs) (y ∷ ys) = (x == y) && str_eq xs ys

-- `coptions`, in its order.
abbrev pub coptions : List (List ℕ × Command)
coptions =
    (codes "CYCLE_TIME", cycle_time)
    ∷ (codes "NEWPROCESS", new_process)
    ∷ (codes "ENDPROCESS", end_process)
    ∷ (codes "SPAWNTIME", spawn_time)
    ∷ (codes "NAME", name)
    ∷ (codes "TYPE", thread_type)
    ∷ (codes "SEED", seed)
    ∷ (codes "ENDTIME", endtime)
    ∷ (codes "KILLTIME", kill_time)
    ∷ (codes "NICE", nice)
    ∷ (codes "SPAWN", spawn)
    ∷ (codes "ENDSPAWN", end_spawn)
    ∷ (codes "WORKDURATION", work_duration)
    ∷ []

-- The first option that is the word.
unfoldable pub find_option : List (List ℕ × Command) → List ℕ → Option Command
find_option [] copt = none
find_option ((o, c) ∷ os) copt = if str_eq copt o then some c else find_option os copt

-- The variables of `readProfile`, the globals it sets, and the memory of the threads. `nice` is
-- the `niceValue` of each, `process_name` its name; `to_spawn` lists the threads on its `list`;
-- `fresh` is the next address that `malloc` returns, and succeeds with.
pub record Profile : Type 0 where
  pub file : Stream
  pub info : Ptr → Info
  pub nice_value : Ptr → ℤ
  pub process_name : Ptr → Option (List ℕ)
  pub to_spawn : Ptr → List Ptr
  pub fresh : Ptr
  pub cycletime : ℤ
  pub ran_seed : ℤ
  pub end_time : ℤ
  pub newtask : Ptr
  pub top : Ptr
  pub children : ℤ

abbrev pub set_info : Ptr → Info → Profile → Profile
set_info p i s = record s { info = update s.info p i }

-- A write to the thread `newtask`.
abbrev pub with_task : Profile → Profile → Run Profile
with_task s written = if s.newtask == null then bug else ok written

-- `niceValue < -19 || niceValue > 20`
abbrev pub is_nice : ℤ → Bool
is_nice (pos n) = leb n 20
is_nice (negsuc n) = leb n 18

abbrev pub clamp : ℤ → ℤ
clamp z = if is_nice z then z else pos 0

-- `ttype` and `tint`: the later of two equal names would win; a bad type leaves what was there.
unfoldable pub type_named : List ℕ → ThreadType → ThreadType
type_named temp old =
    if str_eq (codes "NONINTERACTIVE") temp
    then noninteractive
    else if str_eq (codes "INTERACTIVE") temp
    then interactive
    else old

-- `NEWPROCESS`: the fields that are not set hold what the memory held.
unfoldable pub new_thread : Profile → Run Profile
new_thread s =
    let p = s.fresh in
    let i : Info = record (s.info p) {
      kill_time = minus_one;
      work_duration = minus_one;
      parent = s.top;
    } in
    let emptied = update s.to_spawn p [] in
    let made : Profile = record (set_info p i s) {
      newtask = p;
      fresh = p + 1;
      nice_value = update s.nice_value p (pos 0);
      to_spawn = update emptied s.top (emptied s.top ++ p ∷ []);
    } in
    if s.top == null then bug else ok made

unfoldable pub begin_children : Profile → Run Profile
begin_children s =
    let t = s.newtask in
    let i : Info = record (s.info t) { spawns = true } in
    with_task s (record (set_info t i s) { children = inc s.children; top = t })

-- `ENDSPAWN` reads `top->parent`.
unfoldable pub end_children : Profile → Run Profile
end_children s =
    let outer : Profile = record s {
      children = dec s.children;
      newtask = s.top;
      top = (s.info s.top).parent;
    } in
    if s.top == null then bug else ok outer

-- A value that is read into the thread, `set` being the write.
abbrev pub set_field : (garbage : ℤ) → Profile → (Info → ℤ → Info) → Run Profile
set_field garbage s set =
    let (v, file) = readint garbage s.file in
    let t = s.newtask in with_task s (record (set_info t (set (s.info t) v) s) { file = file })

-- The `switch` on the option. `strcmp` with a `NULL` string stops at `bug`.
module _ (garbage : ℤ) where
  unfoldable pub execute : Command → Profile → Run Profile
  unfolding new_thread begin_children end_children type_named
  execute cycle_time s =
      let (v, file) = readint garbage s.file in ok (record s { cycletime = v; file = file })
  execute new_process s = new_thread s
  execute end_process s = ok (record s { newtask = null })
  execute spawn_time s = set_field garbage s (λ i v. record i { spawn_time = v })
  execute name s =
      let (str, file) = readstring s.file in
      with_task s (record s { process_name = update s.process_name s.newtask str; file = file })
  execute thread_type s =
      let (str, file) = readstring s.file in
      let t = s.newtask in
      let typed = λ (temp : List ℕ). record (s.info t) {
        thread_type = type_named temp (s.info t).thread_type;
      } in
      elim str [
        | none ↦ bug
        | some temp ↦ with_task s (record (set_info t (typed temp) s) { file = file })
      ]
  execute seed s =
      let (v, file) = readint garbage s.file in ok (record s { ran_seed = v; file = file })
  execute endtime s =
      let (v, file) = readint garbage s.file in ok (record s { end_time = v; file = file })
  execute kill_time s = set_field garbage s (λ i v. record i { kill_time = v })
  execute nice s =
      let (v, file) = readint garbage s.file in
      with_task s (record s { nice_value = update s.nice_value s.newtask (clamp v); file = file })
  execute spawn s = begin_children s
  execute end_spawn s = end_children s
  execute work_duration s = set_field garbage s (λ i v. record i { work_duration = v })
