-- ===== src/Sched/Runqueue.antt =====
-- The runqueue of hw2/Scheduler_VM/schedule.c as a circular list: joining it and leaving it.
use uth_operating_systems.Base.{
  ◌+◌, ◌^◌, ◌<◌, ◌≡◌, ◌∙◌, List, [], ◌∷◌, ◌++◌, arith, length, ◌∉◌, length-append,
}
use uth_operating_systems.Links.{Ptr, null, list_add, list_del}
use uth_operating_systems.Links.Chain.{Ring, Chain-next, Chain-neighbours, first_of_list-ne}
use uth_operating_systems.Links.Ops.{Ring-frame, list_add-Ring_at, list_del-Ring}
use uth_operating_systems.Sched.{Double, Vm}
use uth_operating_systems.Sched.Schedule.{
  initschedule, wake_up_new_task, activate_task, deactivate_task, link_behind_head,
}

-- The runqueue holds the tasks `xs` behind its head, and `nr_running` counts all of them.
pub record IsRunqueue {F : Double} (s : Vm F) (xs : List Ptr) : Type 0 where
  pub ring : Ring s.links s.head xs
  pub counted : s.nr_running ≡ length xs + 1

module _ {F : Double} where
  -- The runqueue depends on the links, the head and the count only.
  pub IsRunqueue-congr :
      (s s' : Vm F) (xs : List Ptr)
      → s'.links ≡ s.links
      → s'.head ≡ s.head
      → s'.nr_running ≡ s.nr_running
      → IsRunqueue s xs
      → IsRunqueue s' xs
  IsRunqueue-congr s s' xs l h n q = record { ring = rw (l, h) q.ring; counted = n ∙ q.counted }

module _ {F : Double} (s : Vm F) where
  link_behind_head-Ring :
      (p : Ptr) (xs : List Ptr)
      → Ring s.links s.head xs
      → p ∉ (s.head ∷ xs)
      → Ring (link_behind_head p s) s.head (p ∷ xs)
  unfolding link_behind_head list_add
  link_behind_head-Ring p xs r o =
      let e = (Chain-next s.links s.head [] xs s.head r.chain).0 in
      let n = first_of_list-ne [] xs s.head p (ground arith) (ground arith) in
      Ring-frame _ (list_add-Ring_at p [] xs r o) (λ a i. (ground arith, ground arith))

  -- The seed task makes an empty runqueue, with one task in all.
  pub initschedule-IsRunqueue :
      (seed : Ptr) → s.nr_running ≡ 0 → IsRunqueue (initschedule seed s) []
  unfolding initschedule
  initschedule-IsRunqueue seed z = record {
    ring = record { chain = (ground arith, ground arith); distinct = (ground arith, tt) };
    counted = omega arith;
  }

  module _ (xs : List Ptr) (q : IsRunqueue s xs) where
    -- If a task is not on the runqueue and there is room in the count of tasks, then after
    -- `wake_up_new_task` it stands first behind the head, the others follow in their order, and
    -- `nr_running` counts them all.
    pub wake_up_new_task-IsRunqueue :
        (p : Ptr)
        → p ∉ (s.head ∷ xs)
        → length xs + 2 < 2 ^ 64
        → IsRunqueue (wake_up_new_task p s) (p ∷ xs)
    unfolding wake_up_new_task
    wake_up_new_task-IsRunqueue p o few = record {
      ring = link_behind_head-Ring p xs q.ring o;
      counted = omega (arith, q.counted);
    }

    pub activate_task-IsRunqueue :
        (p : Ptr)
        → p ∉ (s.head ∷ xs)
        → length xs + 2 < 2 ^ 64
        → IsRunqueue (activate_task p s) (p ∷ xs)
    unfolding activate_task
    activate_task-IsRunqueue p o few = record {
      ring = link_behind_head-Ring p xs q.ring o;
      counted = omega (arith, q.counted);
    }

  -- If a task is on the runqueue, which has fewer than 2^64 tasks, then after `deactivate_task` the
  -- runqueue is the circular list of the others in their order, `nr_running` counts them, and both
  -- pointers of the task are `NULL`.
  pub deactivate_task-IsRunqueue :
      (us vs : List Ptr) (p : Ptr)
      → IsRunqueue s (us ++ p ∷ vs)
      → length (us ++ p ∷ vs) + 1 < 2 ^ 64
      → IsRunqueue (deactivate_task p s) (us ++ vs)
        × ((deactivate_task p s).links.next p ≡ null)
        × ((deactivate_task p s).links.prev p ≡ null)
  unfolding deactivate_task list_del
  deactivate_task-IsRunqueue us vs p q few =
      let gone = list_del-Ring us p vs q.ring in
      let nb = Chain-neighbours s.links s.head us p vs s.head q.ring.chain in
      let sum = length-append us (p ∷ vs) in
      let sum' = length-append us vs in
      (
        record {
          ring = Ring-frame _ gone.0 (λ a i. (ground arith, ground arith));
          counted = omega (arith, q.counted);
        },
        ground arith,
        ground arith,
      )
