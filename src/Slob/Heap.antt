-- ===== src/Slob/Heap.antt =====
-- The invariant of all pages of hw3/slob.c, kept by `slob_page_alloc` and `slob_free`.
use uth_operating_systems.Base.{
  ℕ, ◌<◌, ◌≡◌, ◌≢◌, refl, sym, ◌∙◌, subst, true, false, ◌⊎◌, inl, inr, List, ◌∷◌, Returns, length,
  ◌==◌, ==-eq, update, Bool-cases, All,
}
use uth_operating_systems.Links.{Ptr, null}
use uth_operating_systems.Slob.{Slob, slob_units_of}
use uth_operating_systems.Slob.FirstFit.{slob_page_alloc}
use uth_operating_systems.Slob.Blocks.{Block, fits}
use uth_operating_systems.Slob.Invariant.{end_of, IsPage, Less, slob_page_alloc-IsPage}
use uth_operating_systems.Slob.Frame.{OtherPages, OtherPages-IsPage}
use uth_operating_systems.Slob.Others.{slob_page_alloc-OtherPages}

-- Each page of the allocator has the free blocks that `blocks` gives.
abbrev pub IsHeap : Slob → (Ptr → List Block) → Type 0
IsHeap st blocks = (k : Ptr) → st.page_slab k ≡ true → IsPage st k (blocks k)

-- One page has new free blocks, and no other page has changed.
pub IsHeap-page :
    (sp : Ptr) (st st' : Slob) (blocks : Ptr → List Block) (new : List Block)
    → IsHeap st blocks
    → OtherPages sp st st'
    → IsPage st' sp new
    → IsHeap st' (update blocks sp new)
IsHeap-page sp st st' blocks new h o y k owned = elim (Bool-cases (k == sp)) [
  | inl e ↦ rw e (subst (λ j. IsPage st' j new) (sym (==-eq k sp e)) y)
  | inr e ↦
      rw e (OtherPages-IsPage sp k st st' (blocks k) o e (h k (sym (o.page_slab k e) ∙ owned)))
]

-- If each page of the allocator has the free blocks `blocks`, a page of it other than the first has
-- some, and there is more fuel than those behind the first of them, then `slob_page_alloc` of a size on that page
-- returns, and either answers `NULL`, has changed nothing and no free block of the page has room, or answers a block of the units of
-- the size that is taken from the free blocks of that page; the other pages have the free blocks
-- that they had.
pub slob_page_alloc-IsHeap :
    (fuel sp size align : ℕ) (c : Block) (bs : List Block) (blocks : Ptr → List Block) (st : Slob)
    → IsHeap st blocks
    → st.page_slab sp ≡ true
    → blocks sp ≡ c ∷ bs
    → length bs < fuel
    → 0 < size
    → 0 < sp
    → Returns
        (λ r.
          ((r ≡ (null, st)) × All (λ b. fits (slob_units_of size) align b ≡ false) (c ∷ bs))
          ⊎ ((left : List Block) × IsHeap r.1 (update blocks sp left)
              × Less (end_of sp) r.0 (slob_units_of size) (c ∷ bs) left
              × (r.0 ≢ null)))
        (slob_page_alloc fuel sp size align st)
slob_page_alloc-IsHeap fuel sp size align c bs blocks st h owned own enough sized up =
    let y = subst (λ l. IsPage st sp l) own (h sp owned) in
    let (r, run, d) = slob_page_alloc-IsPage fuel sp size align c bs st y enough sized up in
    let others =
      slob_page_alloc-OtherPages fuel sp size align c bs st r (y.list refl) enough sized up run in
    (
      r,
      run,
      elim d [
        | inl e ↦ inl e
        | inr (left, y', less, given) ↦
            inr (left, IsHeap-page sp st r.1 blocks left h others y', less, given)
      ],
    )
