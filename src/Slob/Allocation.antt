-- ===== src/Slob/Allocation.antt =====
-- `slob_alloc` of hw3/slob.c as a whole keeps the invariant of all pages.
use uth_operating_systems.Base.{
  ℕ, ◌+◌, ◌%◌, ◌<◌, ◌≤◌, ◌≡◌, ◌≢◌, refl, sym, ap, ◌∙◌, subst, true, ◌⊎◌, inl, inr, arith, List, [],
  ◌∷◌, ok-injective, Returns, length, ◌==◌, ==-refl, update, Bool-cases, All, All-map, All-right,
  is_nil, not,
}
use uth_operating_systems.Links.{Ptr, null}
use uth_operating_systems.Slob.{Slob, page_units, slob_units_of, virt_to_page}
use uth_operating_systems.Slob.Free.{list_for}
use uth_operating_systems.Slob.Alloc.{
  fresh_page, alloc_fresh, slob_new_pages, count_free, slob_alloc,
}
use uth_operating_systems.Slob.Blocks.{Block}
use uth_operating_systems.Slob.Pages.{Ready, FromPage, search_pages-Searched}
use uth_operating_systems.Slob.Grow.{
  alloc_fresh-ok, fits-whole, slob_alloc-found, slob_alloc-grown, begun,
}
use uth_operating_systems.Slob.Invariant.{end_of, IsPage, Less}
use uth_operating_systems.Slob.Heap.{IsHeap, IsHeap-page, slob_page_alloc-IsHeap}
use uth_operating_systems.Slob.System.{
  IsHeap-congr, IsPage-Ready, fresh_page-OtherPages, fresh_page-IsPage,
}

-- What an allocation has done: the block comes from the free blocks of a page of the allocator, or
-- from the new page at `page`, and only the free blocks of that page are others than before.
pub record Allocated (page units : ℕ) (blocks : Ptr → List Block) (r : Ptr × Slob) : Type 0 where
  pub sp : Ptr
  pub free : List Block
  pub left : List Block
  pub source : (free ≡ blocks sp) ⊎ ((sp ≡ virt_to_page page) × (free ≡ (page, page_units) ∷ []))
  pub less : Less (end_of sp) r.0 units free left
  pub heap : IsHeap r.1 (update blocks sp left)
  pub given : r.0 ≢ null

-- A page that may stand on a list: it belongs to the allocator and has free blocks, no more than the
-- fuel.
pub record Listed (fuel : ℕ) (blocks : Ptr → List Block) (st : Slob) (sp : Ptr) : Type 0 where
  pub owned : st.page_slab sp ≡ true
  pub some_free : st.page_free sp ≡ true
  pub high : 0 < sp
  pub short : length (blocks sp) ≤ fuel

some_block :
    (l : List Block) → not (is_nil l) ≡ true → (c : Block) × (bs : List Block) × (l ≡ c ∷ bs)
some_block [] h = absurd (ground (arith, h))
some_block (c ∷ bs) h = (c, bs, refl)

module _ (fuel size align page : ℕ) (blocks : Ptr → List Block) (st : Slob)
    (h : IsHeap st blocks) where
  -- The blocks of a page on a list.
  Listed-blocks :
      (sp : Ptr) → Listed fuel blocks st sp → (c : Block) × (bs : List Block) × (blocks sp ≡ c ∷ bs)
  Listed-blocks sp y = some_block (blocks sp) (sym (h sp y.owned).flagged ∙ y.some_free)

  begun-IsHeap : IsHeap (begun fuel size align page st) blocks
  begun-IsHeap = IsHeap-congr st _ blocks blocks refl refl refl refl (λ k. refl) h

  Listed-Ready :
      (sp : Ptr) → Listed fuel blocks st sp → Ready (begun fuel size align page st) fuel sp
  Listed-Ready sp y =
      let (c, bs, e) = Listed-blocks sp y in
      IsPage-Ready fuel sp (begun fuel size align page st) c bs
        (subst (IsPage (begun fuel size align page st) sp) e (begun-IsHeap sp y.owned)) y.high
        (omega (arith, y.short, ap length e))

  found-Allocated :
      (r : Ptr × Slob)
      → All (Listed fuel blocks st) (st.pages (list_for size))
      → 0 < size
      → FromPage fuel size align (st.pages (list_for size)) (begun fuel size align page st) r
      → Allocated page (slob_units_of size) blocks (r.0, count_free r.1)
  unfolding count_free
  found-Allocated r listed sized w =
      let y =
        (All-right (Listed fuel blocks st) w.passed (w.sp ∷ w.rest)
          (subst (All (Listed fuel blocks st)) (sym w.whole) listed)).0 in
      let (c, bs, e) = Listed-blocks w.sp y in
      let (t, run, d) =
        slob_page_alloc-IsHeap fuel w.sp size align c bs blocks (begun fuel size align page st)
          begun-IsHeap y.owned e (omega (arith, y.short, ap length e)) sized y.high in
      let same : t ≡ w.taken = ok-injective t w.taken (sym run ∙ w.run) in
      elim d [
        | inl (none, full) ↦ absurd (w.given (ap (λ v. v.0) (sym same ∙ none)))
        | inr (left, heap, less, given) ↦
            let at : t.0 ≡ r.0 = ap (λ v. v.0) same ∙ sym w.address in
            record {
              sp = w.sp;
              free = c ∷ bs;
              left = left;
              source = inl (sym e);
              less = subst (λ a. Less (end_of w.sp) a (slob_units_of size) (c ∷ bs) left) at less;
              heap =
                  IsHeap-congr t.1 (count_free r.1) (update blocks w.sp left)
                    (update blocks w.sp left) (w.memory ∙ ap (λ v. v.1.memory) (sym same))
                    (w.page ∙ ap (λ v. v.1.page) (sym same))
                    (w.page_free ∙ ap (λ v. v.1.page_free) (sym same))
                    (w.page_slab ∙ ap (λ v. v.1.page_slab) (sym same)) (λ k. refl) heap;
              given = λ z. given (at ∙ z);
            }
      ]

counted-IsHeap :
    (page : Ptr) (blocks : Ptr → List Block) (st : Slob)
    → IsHeap st blocks
    → IsHeap (slob_new_pages page (count_free st)) blocks
unfolding slob_new_pages count_free
counted-IsHeap page blocks st h = IsHeap-congr st _ blocks blocks refl refl refl refl (λ k. refl) h

update-twice :
    (f : Ptr → List Block) (p : Ptr) (x y : List Block) (k : Ptr)
    → update f p y k ≡ update (update f p x) p y k
update-twice f p x y k = elim (Bool-cases (k == p)) [ inl e ↦ rw e refl | inr e ↦ rw e refl ]

module _ (fuel size align page : ℕ) (blocks : Ptr → List Block) (z : page % page_units ≡ 0)
    (up : 0 < page) (sized : 0 < size) (fuelled : 0 < fuel)
    (small : slob_units_of size + align ≤ page_units) where
  fresh-Allocated :
      (st : Slob)
      → IsHeap st blocks
      → Returns
          (Allocated page (slob_units_of size) blocks)
          (alloc_fresh fuel size align (list_for size) page st)
  fresh-Allocated st h =
      let l = list_for size in
      let sp = virt_to_page page in
      let whole : List Block = (page, page_units) ∷ [] in
      let st1 = fresh_page l page st in
      let (y, owned) = fresh_page-IsPage l page st z in
      let h1 = IsHeap-page sp st st1 blocks whole h (fresh_page-OtherPages l page st z) y in
      let own : update blocks sp whole sp ≡ whole = rw (==-refl sp) refl in
      let (r, run, d) =
        slob_page_alloc-IsHeap fuel sp size align (page, page_units) [] (update blocks sp whole) st1
          h1 owned own fuelled sized (omega (arith, z, up)) in
      elim d [
        | inl (none, full) ↦
            absurd (ground (arith, full.0, fits-whole (slob_units_of size) align page small))
        | inr (left, heap, less, given) ↦ (
          r,
          alloc_fresh-ok fuel size align l page st r run given,
          record {
            sp = sp;
            free = whole;
            left = left;
            source = inr (refl, refl);
            less = less;
            heap =
                IsHeap-congr r.1 r.1 (update (update blocks sp whole) sp left)
                  (update blocks sp left) refl refl refl refl (update-twice blocks sp whole left)
                  heap;
            given = given;
          },
        )
      ]

  -- If each page of the allocator has the free blocks `blocks`, the pages of the list for the size
  -- belong to it and have free blocks, no more than the fuel, there is some fuel, the size and the
  -- alignment fit in a page together, and the page allocator gives a page when asked, then
  -- `slob_alloc` returns a block of the units of the size. It is taken from the free blocks of one
  -- page of the allocator or from the new page; that page is left with its other free blocks, and
  -- every other page of the allocator has the free blocks that it had.
  pub slob_alloc-Allocated :
      (st : Slob)
      → IsHeap st blocks
      → All (Listed fuel blocks st) (st.pages (list_for size))
      → Returns (Allocated page (slob_units_of size) blocks) (slob_alloc fuel size align page st)
  slob_alloc-Allocated st h listed =
      let l = list_for size in
      let st0 = begun fuel size align page st in
      let ready =
        All-map (Listed fuel blocks st) (λ sp. Ready st0 fuel sp) (st.pages l)
          (Listed-Ready fuel size align page blocks st h) listed in
      let (r, run, c) = search_pages-Searched fuel size align l [] (st.pages l) st0 ready sized in
      elim c [
        | inl (full, e) ↦
            let st1 = slob_new_pages page (count_free r.1) in
            let same = counted-IsHeap page blocks r.1 (
              subst (λ v. IsHeap v blocks) (sym (ap (λ v. v.1) e))
                (begun-IsHeap fuel size align page blocks st h)) in
            let (r', grown, a) = fresh-Allocated st1 same in
            let some_page : page ≢ null = λ n. absurd (omega (arith, n, up)) in
            (
              r',
              slob_alloc-grown fuel size align page st r r' run (ap (λ v. v.0) e) some_page grown,
              a,
            )
        | inr w ↦
            let a = found-Allocated fuel size align page blocks st h r listed sized w in
            ((r.0, count_free r.1), slob_alloc-found fuel size align page st r run a.given, a)
      ]
