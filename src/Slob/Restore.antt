-- ===== src/Slob/Restore.antt =====
-- `slob_free` of hw3/slob.c keeps the invariant of a page, and gives back what `slob_page_alloc` took.
use uth_operating_systems.Base.{
  ℕ, ◌+◌, ◌<◌, ◌≤◌, ◌≡◌, ◌≢◌, refl, sym, ap, ◌∙◌, subst, false, not, ◌⊎◌, ◌||◌, inl, inr, arith,
  List, [], ◌∷◌, Returns, length, ◌==◌, ==-refl, ==-ne,
}
use uth_operating_systems.Links.{Ptr, null}
use uth_operating_systems.Slob.{
  Slob, page_units, page_base, slob_units_of, virt_to_page, zero_or_null, zero_size_ptr,
  set_slob_page_free,
}
use uth_operating_systems.Slob.FirstFit.{slob_page_alloc}
use uth_operating_systems.Slob.Free.{free_first, slob_free}
use uth_operating_systems.Slob.Encoding.{set_slob-Free}
use uth_operating_systems.Slob.Blocks.{Block}
use uth_operating_systems.Slob.Insert.{covers, Apart}
use uth_operating_systems.Slob.Release.{slob_free-Inserted}
use uth_operating_systems.Slob.Count.{total, Seg-total, Seg-length}
use uth_operating_systems.Slob.Invariant.{
  end_of, IsPage, total-covered, Seg-is_nil, slob_page_alloc-IsPage, Less-total, IsPage-length,
}

-- The first free block of a page that was full.
free_first-IsPage :
    (block units size : ℕ) (st : Slob)
    → 0 < units
    → block + units ≤ end_of (virt_to_page block)
    → IsPage
        (free_first (virt_to_page block) block units size st)
        (virt_to_page block)
        ((block, units) ∷ [])
unfolding free_first set_slob_page_free
free_first-IsPage block units size st least inside =
    let sp = virt_to_page block in
    let base : page_base (block + page_units) ≡ end_of sp = omega arith in
    record {
      list = λ o.
          rw (==-refl sp, base)
            (
              refl,
              refl,
              least,
              end_of sp,
              set_slob-Free st.memory block units (end_of sp) least (omega arith) (omega arith)
                  (omega arith),
              inside,
              refl,
            );
      counted = rw (==-refl sp) (omega arith);
      flagged = rw (==-refl sp) refl;
    }

-- If the free blocks of a page are those of its list, which the page counts and for which it is on
-- a list of pages just if there are any, and a block in the page, behind the address of
-- ZERO_SIZE_PTR, has no unit in common with them and leaves some of the page in use, and there is
-- more fuel than free blocks, then `slob_free` of the block returns, the free blocks are again as
-- the page says, and their units are the old ones and those of the block.
pub slob_free-IsPage :
    (fuel block size : ℕ) (bs : List Block) (st : Slob)
    → let sp = virt_to_page block in
      let units = slob_units_of size in
      IsPage st sp bs
      → Apart block units bs
      → total bs + units ≢ page_units
      → block + units ≤ end_of sp
      → zero_size_ptr < block
      → 0 < size
      → length bs < fuel
      → Returns
          (λ st'.
            (bs' : List Block) × IsPage st' sp bs'
            × ((x : Ptr) → covers bs' x ≡ (covers ((block, units) ∷ []) x || covers bs x)))
          (slob_free fuel block size st)
unfolding slob_free
slob_free-IsPage fuel block size [] st y apart part inside low sized enough =
    let sp = virt_to_page block in
    let units = slob_units_of size in
    let given : zero_or_null block ≡ false = ground arith in
    let big : (size == 0) ≡ false = ground arith in
    let some_used : ((st.page sp).units + units == page_units) ≡ false =
      ==-ne _ _ (λ z. part (ap (λ v. v + units) (sym y.counted) ∙ z)) in
    let st1 = free_first sp block units size st in
    (
      st1,
      rw (given, big, some_used, y.flagged) refl,
      (
        (block, units) ∷ [],
        free_first-IsPage block units size st (omega arith) inside,
        λ x. ground arith,
      ),
    )
slob_free-IsPage fuel block size (c ∷ cs) st y apart part inside low sized enough =
    let sp = virt_to_page block in
    let e = end_of sp in
    let units = slob_units_of size in
    let s = y.list refl in
    let (st1, run, (i, sum, same)) =
      slob_free-Inserted fuel e block size c cs st s y.flagged
        (λ z. part (ap (λ v. v + units) (sym y.counted) ∙ z)) apart refl inside low sized
        (omega arith) in
    let p = (st1.page sp).freelist in
    let counts =
      total-covered e block units (c ∷ cs) i.blocks
        (Seg-total st1.memory e p i.blocks e e i.list (omega arith))
        (Seg-total st.memory e (st.page sp).freelist (c ∷ cs) e e s (omega arith)) i.covered apart
        inside in
    let nil = Seg-is_nil st1.memory e p i.blocks e i.list in
    let some_free : (total i.blocks == 0) ≡ false = ground (arith, counts) in
    (
      st1,
      run,
      (
        i.blocks,
        record {
          list = λ o. i.list;
          counted = omega (arith, sum, y.counted, counts);
          flagged = ap (λ f. f sp) same ∙ y.flagged ∙ ap not (sym (nil ∙ some_free));
        },
        i.covered,
      ),
    )

-- If the free blocks of a page other than the first are those of its list, which the page counts
-- and for which it is on a list of pages, some of the page is in use, and there is more fuel than
-- free units, then `slob_page_alloc` of a size returns, and either answers `NULL` and has changed
-- nothing, or `slob_free` of what it answers, with the same size, returns: the free blocks are then
-- as the page says, and they are made of the same units as before.
pub slob_page_alloc-slob_free :
    (fuel sp size align : ℕ) (c : Block) (bs : List Block) (st : Slob)
    → IsPage st sp (c ∷ bs)
    → total (c ∷ bs) ≢ page_units
    → total (c ∷ bs) < fuel
    → 0 < size
    → 0 < sp
    → Returns
        (λ r.
          (r ≡ (null, st))
          ⊎ Returns
              (λ st'.
                (bs' : List Block) × IsPage st' sp bs'
                × ((x : Ptr) → covers bs' x ≡ covers (c ∷ bs) x))
              (slob_free fuel r.0 size r.1))
        (slob_page_alloc fuel sp size align st)
slob_page_alloc-slob_free fuel sp size align c bs st y part enough sized up =
    let e = end_of sp in
    let units = slob_units_of size in
    let blocks = Seg-length st.memory e (st.page sp).freelist (c ∷ bs) e (y.list refl) in
    let (r, run, d) =
      slob_page_alloc-IsPage fuel sp size align c bs st y (omega (arith, blocks)) sized up in
    (
      r,
      run,
      elim d [
        | inl h ↦ inl h.0
        | inr (left, y1, less, given) ↦
            let here : virt_to_page r.0 ≡ sp = omega (arith, less.based) in
            let sum = Less-total sp r.0 units (c ∷ bs) left st r.1 y y1 less in
            let short = IsPage-length r.1 sp left y1 in
            let (st1, freed, (bs', y2, same)) =
              slob_free-IsPage fuel r.0 size left r.1 (subst (λ k. IsPage r.1 k left) (sym here) y1)
                less.apart (λ z. part (omega (arith, sum, z))) (omega (arith, less.inside, here))
                (omega (arith, less.based)) sized (omega (arith, sum, short)) in
            inr (
              st1,
              freed,
              (bs', subst (λ k. IsPage st1 k bs') here y2, λ x. same x ∙ sym (less.covered x)),
            )
      ],
    )
