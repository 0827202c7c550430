-- ===== src/Slob/Release.antt =====
-- `slob_free` of hw3/slob.c on a page that has free blocks and keeps some of its blocks.
use uth_operating_systems.Base.{
  All-right, ℕ, ◌+◌, ◌<◌, ◌≤◌, ◌≡◌, ◌≢◌, refl, true, false, ◌⊎◌, inl, inr, arith, List, [], ◌∷◌,
  Returns, length, ◌==◌, ltb, ℤ, Bool-cases, ==-refl, ==-ne, sym, subst,
}
use uth_operating_systems.Links.{Ptr}
use uth_operating_systems.Slob.{
  zero_or_null, zero_size_ptr, Slob, page_units, page_base, slob_units_of, set_page, virt_to_page,
}
use uth_operating_systems.Slob.Free.{free_front, free_between, free_more, slob_free}
use uth_operating_systems.Slob.Blocks.{Block, Seg}
use uth_operating_systems.Slob.Insert.{Inserted, Apart, free_front-Inserted, free_loop-Place}
use uth_operating_systems.Slob.Coalesce.{free_between-Inserted}

-- The block does not reach into the next one.
pub Place-gap :
    (m : Ptr → ℤ) (e r b n : ℕ) (vs : List Block)
    → Seg m e r vs e
    → Apart b n vs
    → b ≤ r
    → 0 < n
    → b + n ≤ e
    → b + n ≤ r
Place-gap m e r b n [] t h below sized inside = omega (arith, t)
Place-gap m e r b n (d ∷ vs) (i, w, l, r', f, z, t) (h, hs) below sized inside = elim h [
  | inl x ↦ absurd (omega (arith, i))
  | inr x ↦ omega (arith, i)
]

free_more-Inserted :
    (fuel e sp b n : ℕ) (c : Block) (bs : List Block) (st : Slob)
    → Seg st.memory e (st.page sp).freelist (c ∷ bs) e
    → Apart b n (c ∷ bs)
    → page_base b + page_units ≡ e
    → 0 < n
    → b + n ≤ e
    → length bs < fuel
    → Returns
        (λ st'.
          Inserted e b n (c ∷ bs) st'.memory (st'.page sp).freelist
          × ((st'.page sp).units ≡ (st.page sp).units + n)
          × (st'.page_free ≡ st.page_free))
        (free_more fuel sp b n st)
unfolding free_more
free_more-Inserted fuel e sp b n c bs st s (h, hs) base sized inside enough =
    let p = (st.page sp).freelist in
    let more = (st.page sp).units + n in
    let (i, w0, l0, r0, f0, z0, t0) = s in
    elim (Bool-cases (ltb b p)) [
      | inl y ↦
          let apart : b + n ≤ p = elim h [
            | inl x ↦ absurd (ground (arith, i))
            | inr x ↦ omega (arith, i)
          ] in
          let q = free_front-Inserted st.memory e p b n c bs s sized base (ground arith) apart in
          let st1 =
            set_page sp (record { units = more; freelist = b })
              (record st { memory = free_front st.memory b n p }) in
          (st1, rw y refl, rw (==-refl sp) (q, refl, refl))
      | inr y ↦
          let above : p < b = elim h [
            | inl x ↦ omega (arith, i)
            | inr x ↦ absurd (ground (arith, i))
          ] in
          let (w, run) = free_loop-Place fuel st.memory e p b c bs s above (omega arith) enough in
          let parts =
            All-right (λ d. (d.0 + d.1 ≤ b) ⊎ (b + n ≤ d.0)) w.before ((w.addr, w.size) ∷ w.after)
              (subst (λ l. Apart b n l) (sym w.whole) (h, hs)) in
          let clear : w.addr + w.size ≤ b = elim parts.0 [
            | inl x ↦ x
            | inr x ↦ absurd (omega (arith, w.below))
          ] in
          let gap = Place-gap st.memory e w.next b n w.after w.back parts.1 w.above sized inside in
          let q = free_between-Inserted st.memory e p b n (c ∷ bs) w base sized clear gap in
          let st1 =
            set_page sp (record { units = more; freelist = p })
              (record st { memory = free_between st.memory b n w.addr w.next }) in
          (st1, rw (y, run) refl, rw (==-refl sp) (q, refl, refl))
    ]

-- If a page is on a list of partly free pages with the free list `c` and `bs`, a block inside the
-- page, behind the address of ZERO_SIZE_PTR, has no unit in common with them, the page does not
-- become free as a whole, and there is more fuel than blocks in `bs`, then `slob_free` of the block
-- returns, the free list is again a list of blocks apart from each other in ascending order, a unit
-- is in one of them just if it was or belongs to the block, the count of free units is up by the
-- block's, and the pages that are on the lists are the same.
pub slob_free-Inserted :
    (fuel e block size : ℕ) (c : Block) (bs : List Block) (st : Slob)
    → let sp = virt_to_page block in
      let units = slob_units_of size in
      Seg st.memory e (st.page sp).freelist (c ∷ bs) e
      → st.page_free sp ≡ true
      → (st.page sp).units + units ≢ page_units
      → Apart block units (c ∷ bs)
      → page_base block + page_units ≡ e
      → block + units ≤ e
      → zero_size_ptr < block
      → 0 < size
      → length bs < fuel
      → Returns
          (λ st'.
            Inserted e block units (c ∷ bs) st'.memory (st'.page sp).freelist
            × ((st'.page sp).units ≡ (st.page sp).units + units)
            × (st'.page_free ≡ st.page_free))
          (slob_free fuel block size st)
unfolding slob_free
slob_free-Inserted fuel e block size c bs st s listed some_left apart base inside low sized enough =
    let sp = virt_to_page block in
    let units = slob_units_of size in
    let given : zero_or_null block ≡ false = ground arith in
    let big : (size == 0) ≡ false = ground arith in
    let part : ((st.page sp).units + units == page_units) ≡ false = ==-ne _ _ some_left in
    let (st1, run, facts) =
      free_more-Inserted fuel e sp block units c bs st s apart base (omega arith) inside enough in
    rw (given, big, part, listed) (st1, run, facts)
