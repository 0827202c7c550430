-- ===== src/Tests/Front.antt =====
-- The front end of the allocator on the page of the other tests.
use uth_operating_systems.Base.{
  ◌+◌, ◌*◌, ◌≡◌, refl, true, none, arith, Run, ok, bug, out_of_fuel, Returns,
}
use uth_operating_systems.Links.{Ptr}
use uth_operating_systems.Slob.{Slob, slob_units_of, virt_to_page}
use uth_operating_systems.Slob.Free.{slob_free}
use uth_operating_systems.Slob.Alloc.{slob_alloc}
use uth_operating_systems.Slob.Front.{align, kmalloc, kfree, ksize, KmemCache}
use uth_operating_systems.Slob.Sizes.{kmalloc-kfree}
use uth_operating_systems.Tests.Slob.{slob}

-- kmalloc of 4 bytes with a header of 8 bytes: no block has room, and a page at 8192 is taken.
abbrev state_of : Run (Ptr × Slob) → Slob
state_of (ok r) = r.1
state_of bug = slob
state_of out_of_fuel = slob

abbrev allocated : Slob
allocated = state_of (slob_alloc 4 12 4 8192 slob)

allocated_run : slob_alloc 4 12 4 8192 slob ≡ ok (8192, allocated)
unfolding slob_alloc
allocated_run = refl

allocated_slab : allocated.page_slab (virt_to_page (8192 + 4)) ≡ true
unfolding slob_alloc
allocated_slab = refl

kmalloc-kfree_example :
    Returns
      (λ r.
        (ksize 4 (λ p. 0) r.0 r.1 ≡ ok (slob_units_of 4 * 2))
        × (kfree 4 9 r.0 r.1 ≡ slob_free 9 8192 (4 + align 4) r.1))
      (kmalloc 4 4 4 8192 slob)
kmalloc-kfree_example =
    kmalloc-kfree 4 4 4 8192 8192 slob allocated (λ p. 0) 9 (omega arith) (omega arith)
      allocated_run (omega arith) allocated_slab

-- A cache of objects of 8 bytes, with 24 bytes behind each for the callback.
abbrev cache : KmemCache
cache = record { size = 32; align_units = 4; destroy_by_rcu = true; ctor = none }
