-- ===== src/Tests/Pages.antt =====
-- The page of three free blocks, for hw3: an allocation of 3 units, and one that is freed.
use uth_operating_systems.Base.{
  ◌≡◌, ◌≢◌, refl, sym, subst, false, ◌==◌, ==-eq, if◌then◌else◌, ◌∷◌, [], List, ◌⊎◌, arith, Returns,
  All,
}
use uth_operating_systems.Links.{Ptr, null}
use uth_operating_systems.Slob.FirstFit.{slob_page_alloc}
use uth_operating_systems.Slob.Free.{slob_free}
use uth_operating_systems.Slob.Blocks.{Block, fits}
use uth_operating_systems.Slob.Insert.{covers}
use uth_operating_systems.Slob.Invariant.{IsPage, Less, slob_page_alloc-IsPage}
use uth_operating_systems.Slob.Restore.{slob_page_alloc-slob_free}
use uth_operating_systems.Slob.Alloc.{slob_alloc}
use uth_operating_systems.Slob.Heap.{IsHeap}
use uth_operating_systems.Slob.Allocation.{Listed, Allocated, slob_alloc-Allocated}
use uth_operating_systems.Tests.Slob.{slob, slob-Seg}

abbrev blocks : List Block
blocks = (4100, 2) ∷ (4110, 6) ∷ (4200, 1) ∷ []

slob-IsPage : IsPage slob 2 blocks
slob-IsPage = record { list = λ o. slob-Seg; counted = refl; flagged = refl }

slob_page_alloc-IsPage_example :
    Returns
      (λ r.
        ((r ≡ (null, slob)) × All (λ b. fits 3 2 b ≡ false) blocks)
        ⊎ ((left : List Block) × IsPage r.1 2 left × Less 6144 r.0 3 blocks left × (r.0 ≢ null)))
      (slob_page_alloc 4 2 6 2 slob)
slob_page_alloc-IsPage_example =
    slob_page_alloc-IsPage 4 2 6 2 (4100, 2) ((4110, 6) ∷ (4200, 1) ∷ []) slob slob-IsPage
      (omega arith) (omega arith) (omega arith)

slob_page_alloc-slob_free_example :
    Returns
      (λ r.
        (r ≡ (null, slob))
        ⊎ Returns
            (λ st'.
              (bs' : List Block) × IsPage st' 2 bs' × ((x : Ptr) → covers bs' x ≡ covers blocks x))
            (slob_free 10 r.0 6 r.1))
      (slob_page_alloc 10 2 6 2 slob)
slob_page_alloc-slob_free_example =
    slob_page_alloc-slob_free 10 2 6 2 (4100, 2) ((4110, 6) ∷ (4200, 1) ∷ []) slob slob-IsPage
      (λ e. absurd (ground arith)) (omega arith) (omega arith) (omega arith)

-- The page is the only one of the allocator.
abbrev blocks_at : Ptr → List Block
blocks_at k = if k == 2 then blocks else []

slob-IsHeap : IsHeap slob blocks_at
slob-IsHeap k owned =
    let here : k ≡ 2 = ==-eq k 2 owned in
    subst (λ j. IsPage slob j (blocks_at j)) (sym here) slob-IsPage

slob-Listed : Listed 4 blocks_at slob 2
slob-Listed = record { owned = refl; some_free = refl; high = omega arith; short = omega arith }

slob_alloc-Allocated_example : Returns (Allocated 8192 3 blocks_at) (slob_alloc 4 6 2 8192 slob)
slob_alloc-Allocated_example =
    slob_alloc-Allocated 4 6 2 8192 blocks_at (omega arith) (omega arith) (omega arith)
      (omega arith) (omega arith) slob slob-IsHeap (slob-Listed, tt)
