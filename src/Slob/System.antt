-- ===== src/Slob/System.antt =====
-- `slob_alloc` of hw3/slob.c keeps the invariant of all pages, from a page of a list or a new one.
use uth_operating_systems.Base.{
  ℕ, ◌+◌, ◌%◌, ◌<◌, ◌≤◌, ◌≡◌, refl, sym, ap, ◌∙◌, subst, true, arith, List, [], ◌∷◌, length,
  ==-refl, All, ℤ,
}
use uth_operating_systems.Links.{Ptr}
use uth_operating_systems.Slob.{Slob, SlobList, page_units, virt_to_page, set_slob_page_free}
use uth_operating_systems.Slob.Alloc.{fresh_page}
use uth_operating_systems.Slob.Blocks.{Block, Seg}
use uth_operating_systems.Slob.Count.{total}
use uth_operating_systems.Slob.Pages.{Ready}
use uth_operating_systems.Slob.Grow.{fresh_page-Seg}
use uth_operating_systems.Slob.Invariant.{end_of, IsPage}
use uth_operating_systems.Slob.Frame.{OtherPages, set_slob-Same}
use uth_operating_systems.Slob.Heap.{IsHeap}

-- The pages depend on these parts of the state, and on the blocks at each page.
pub IsHeap-congr :
    (st st' : Slob) (blocks blocks' : Ptr → List Block)
    → st'.memory ≡ st.memory
    → st'.page ≡ st.page
    → st'.page_free ≡ st.page_free
    → st'.page_slab ≡ st.page_slab
    → ((k : Ptr) → blocks' k ≡ blocks k)
    → IsHeap st blocks
    → IsHeap st' blocks'
IsHeap-congr st st' blocks blocks' m p f s b h k owned =
    let y = h k (ap (λ g. g k) (sym s) ∙ owned) in
    let same : IsPage st' k (blocks k) = record {
      list = λ n. rw (m, p) (y.list n);
      counted = ap (λ g. (g k).units) p ∙ y.counted;
      flagged = ap (λ g. g k) f ∙ y.flagged;
    } in
    subst (IsPage st' k) (sym (b k)) same

within_total : (bs : List Block) (n : ℕ) → total bs ≤ n → All (λ c. c.1 ≤ n) bs
within_total [] n h = tt
within_total (b ∷ bs) n h = (omega arith, within_total bs n (omega arith))

Seg-room : (m : Ptr → ℤ) (e p : Ptr) (bs : List Block) (q : Ptr) → Seg m e p bs q → p + total bs ≤ q
Seg-room m e p [] q s = omega arith
Seg-room m e p (b ∷ bs) q (i, w, l, r, f, z, t) = omega (arith, i, z, Seg-room m e r bs q t)

-- A page of the allocator that has free blocks is ready for the search.
pub IsPage-Ready :
    (fuel sp : ℕ) (st : Slob) (c : Block) (bs : List Block)
    → IsPage st sp (c ∷ bs)
    → 0 < sp
    → length bs < fuel
    → Ready st fuel sp
IsPage-Ready fuel sp st c bs y up short =
    let e = end_of sp in
    let (i, w, l, r, f, z, t) = y.list refl in
    let room = Seg-room st.memory e (st.page sp).freelist (c ∷ bs) e (y.list refl) in
    record {
      page_end = e;
      first = c;
      others = bs;
      list = y.list refl;
      short = short;
      high = omega arith;
      within = within_total (c ∷ bs) (st.page sp).units (omega (arith, y.counted));
      few = omega (arith, y.counted, room, i, w);
    }

pub fresh_page-OtherPages :
    (l : SlobList) (b : Ptr) (st : Slob)
    → b % page_units ≡ 0
    → OtherPages (virt_to_page b) st (fresh_page l b st)
unfolding fresh_page set_slob_page_free
fresh_page-OtherPages l b st z = record {
  memory =
      set_slob-Same st.memory (end_of (virt_to_page b)) b page_units (b + page_units) (omega arith)
        refl (omega (arith, z));
  page = λ k o. rw o refl;
  page_free = λ k o. rw o refl;
  page_slab = λ k o. rw o refl;
}

pub fresh_page-IsPage :
    (l : SlobList) (b : Ptr) (st : Slob)
    → b % page_units ≡ 0
    → IsPage (fresh_page l b st) (virt_to_page b) ((b, page_units) ∷ [])
      × ((fresh_page l b st).page_slab (virt_to_page b) ≡ true)
unfolding fresh_page set_slob_page_free
fresh_page-IsPage l b st z =
    let e : b + page_units ≡ end_of (virt_to_page b) = omega (arith, z) in
    let s = fresh_page-Seg l b st z in
    (
      record {
        list = λ n.
            subst
              (λ (v : Ptr).
                let st1 = fresh_page l b st in
                Seg st1.memory v (st1.page (virt_to_page b)).freelist ((b, page_units) ∷ []) v)
              e s;
        counted = rw (==-refl (virt_to_page b)) (omega arith);
        flagged = rw (==-refl (virt_to_page b)) refl;
      },
      rw (==-refl (virt_to_page b)) refl,
    )
