-- ===== src/Slob/Freed.antt =====
-- `slob_free` of hw3/slob.c changes no page but that of the block.
use uth_operating_systems.Base.{
  true, Bool, Run, ok, is_nil, ℕ, ◌+◌, ◌<◌, ◌≤◌, ◌≡◌, ◌≢◌, refl, sym, ap, ◌∙◌, subst, false, not,
  ◌⊎◌, ◌&&◌, inl, inr, arith, List, [], ◌∷◌, All-right, Returns, length, ◌==◌, ==-ne, ltb,
  if◌then◌else◌, ℤ, Bool-cases,
}
use uth_operating_systems.Links.{Ptr}
use uth_operating_systems.Slob.{
  Slob, page_units, page_base, set_slob, slob_units, slob_next, slob_last, slob_units_of, set_page,
  virt_to_page, zero_or_null, zero_size_ptr, set_slob_page_free,
}
use uth_operating_systems.Slob.Free.{free_front, free_between, free_first, free_more, slob_free}
use uth_operating_systems.Slob.Encoding.{
  Free-slob_units, Free-slob_next, Free-set_slob, set_slob-Free,
}
use uth_operating_systems.Slob.Blocks.{Block, Seg, Seg-≤, slob_last-end}
use uth_operating_systems.Slob.Insert.{Apart, Place, free_loop-Place}
use uth_operating_systems.Slob.Coalesce.{Joined, join_next-Joined}
use uth_operating_systems.Slob.Release.{Place-gap}
use uth_operating_systems.Slob.Count.{total}
use uth_operating_systems.Slob.Invariant.{end_of, IsPage}
use uth_operating_systems.Slob.Frame.{Same, Same-trans, set_slob-Same, OtherPages}

free_front-Same :
    (m : Ptr → ℤ) (e p b n : ℕ) (c : Block) (bs : List Block)
    → Seg m e p (c ∷ bs) e
    → 0 < n
    → page_base b + page_units ≡ e
    → b + n ≤ p
    → Same e m (free_front m b n p)
unfolding free_front
free_front-Same m e p b n c bs (i, w0, l0, r, f, z, t) some_units w apart =
    let high = Seg-≤ m e r bs e t in
    elim (Bool-cases (b + n == p)) [
      | inl x ↦
          rw (x, ← i, Free-slob_units m c.0 c.1 r f, Free-slob_next m c.0 c.1 r f)
            (set_slob-Same m e b (n + c.1) r (omega arith) w (ground (arith, high)))
      | inr x ↦ rw x (set_slob-Same m e b n p some_units w (omega (arith, i, z, high)))
    ]

close-Same :
    (m : Ptr → ℤ) (e p b n : ℕ) (bs : List Block) (w : Place m e p b bs) (units next : ℕ)
    → Joined m e b n w.after units next
    → page_base b + page_units ≡ e
    → w.addr + w.size ≤ b
    → let m1 = set_slob b units next m in
      Same e m (
        if w.addr + slob_units m1 w.addr == b
        then set_slob w.addr (slob_units m1 b + slob_units m1 w.addr) (slob_next m1 b) m1
        else set_slob w.addr (slob_units m1 w.addr) b m1)
close-Same m e p b n bs w units next j base clear =
    let a = w.addr in
    let k = w.size in
    let m1 = set_slob b units next m in
    let gb =
      set_slob-Free m b units next j.sized j.few (omega (arith, j.gap, j.sized))
        (omega (arith, j.inside)) in
    let ga = Free-set_slob m a k w.next b units next w.cell j.sized j.few (inl clear) in
    let first = set_slob-Same m e b units next j.sized base (omega (arith, j.gap, j.inside)) in
    elim (Bool-cases (a + k == b)) [
      | inl y ↦
          rw
            (
              Free-slob_units m1 a k w.next ga,
              Free-slob_units m1 b units next gb,
              Free-slob_next m1 b units next gb,
              y,
            )
            (Same-trans e m m1 (set_slob a (units + k) next m1) first (
              set_slob-Same m1 e a (units + k) next (omega (arith, j.sized)) w.page_end
                (ground (arith, j.gap, j.inside))))
      | inr y ↦
          rw (Free-slob_units m1 a k w.next ga, y)
            (Same-trans e m m1 (set_slob a k b m1) first
              (set_slob-Same m1 e a k b w.sized w.page_end (omega (arith, j.gap, j.inside))))
    ]

free_between-Same :
    (m : Ptr → ℤ) (e p b n : ℕ) (bs : List Block) (w : Place m e p b bs)
    → page_base b + page_units ≡ e
    → 0 < n
    → w.addr + w.size ≤ b
    → b + n ≤ w.next
    → Same e m (free_between m b n w.addr w.next)
unfolding free_between
free_between-Same m e p b n bs w base sized clear gap =
    let a = w.addr in
    let last : slob_last m a ≡ (w.next == e) =
      slob_last-end m a w.size w.next w.cell ∙ ap (λ v. w.next == v) w.page_end in
    let joins = not (slob_last m a) && (b + n == w.next) in
    close-Same m e p b n bs w (if joins then n + slob_units m w.next else n)
      (if joins then slob_next m w.next else w.next)
      (join_next-Joined m e a w.next b n w.after last w.back base sized gap) base clear

free_more-OtherPages :
    (fuel sp b n : ℕ) (c : Block) (bs : List Block) (st : Slob)
    → let e = end_of sp in
      Seg st.memory e (st.page sp).freelist (c ∷ bs) e
      → Apart b n (c ∷ bs)
      → page_base b + page_units ≡ e
      → 0 < n
      → b + n ≤ e
      → length bs < fuel
      → Returns (λ st'. OtherPages sp st st') (free_more fuel sp b n st)
unfolding free_more
free_more-OtherPages fuel sp b n c bs st s (h, hs) base sized inside enough =
    let e = end_of sp in
    let p = (st.page sp).freelist in
    let more = (st.page sp).units + n in
    let (i, w0, l0, r0, f0, z0, t0) = s in
    elim (Bool-cases (ltb b p)) [
      | inl y ↦
          let apart : b + n ≤ p = elim h [
            | inl x ↦ absurd (ground (arith, i))
            | inr x ↦ omega (arith, i)
          ] in
          (
            set_page sp (record { units = more; freelist = b })
                (record st { memory = free_front st.memory b n p }),
            rw y refl,
            record {
              memory = free_front-Same st.memory e p b n c bs s sized base apart;
              page = λ k o. rw o refl;
              page_free = λ k o. refl;
              page_slab = λ k o. refl;
            },
          )
      | inr y ↦
          let above : p < b = elim h [
            | inl x ↦ omega (arith, i)
            | inr x ↦ absurd (ground (arith, i))
          ] in
          let (w, run) = free_loop-Place fuel st.memory e p b c bs s above (omega arith) enough in
          let parts =
            All-right (λ d. (d.0 + d.1 ≤ b) ⊎ (b + n ≤ d.0)) w.before ((w.addr, w.size) ∷ w.after)
              (subst (λ l. Apart b n l) (sym w.whole) (h, hs)) in
          let clear : w.addr + w.size ≤ b = elim parts.0 [
            | inl x ↦ x
            | inr x ↦ absurd (omega (arith, w.below))
          ] in
          let gap = Place-gap st.memory e w.next b n w.after w.back parts.1 w.above sized inside in
          (
            set_page sp (record { units = more; freelist = p })
                (record st { memory = free_between st.memory b n w.addr w.next }),
            rw (y, run) refl,
            record {
              memory = free_between-Same st.memory e p b n (c ∷ bs) w base sized clear gap;
              page = λ k o. rw o refl;
              page_free = λ k o. refl;
              page_slab = λ k o. refl;
            },
          )
    ]

free_first-OtherPages :
    (block units size : ℕ) (st : Slob)
    → 0 < units
    → block + units ≤ end_of (virt_to_page block)
    → OtherPages (virt_to_page block) st (free_first (virt_to_page block) block units size st)
unfolding free_first set_slob_page_free
free_first-OtherPages block units size st least inside = record {
  memory = set_slob-Same st.memory _ block units _ least refl inside;
  page = λ k o. rw o refl;
  page_free = λ k o. rw o refl;
  page_slab = λ k o. refl;
}

-- What is left of `slob_free` behind its guards.
slob_free-guarded :
    (fuel block size : ℕ) (bs : List Block) (st : Slob)
    → let sp = virt_to_page block in
      let units = slob_units_of size in
      IsPage st sp bs
      → total bs + units ≢ page_units
      → zero_size_ptr < block
      → 0 < size
      → slob_free fuel block size st ≡ (
          if is_nil bs
          then ok (free_first sp block units size st)
          else free_more fuel sp block units st)
unfolding slob_free
slob_free-guarded fuel block size bs st y part low sized =
    let given : zero_or_null block ≡ false = ground arith in
    let big : (size == 0) ≡ false = ground arith in
    let some_used : ((st.page (virt_to_page block)).units + slob_units_of size == page_units)
        ≡ false =
      ==-ne _ _ (λ z. part (ap (λ v. v + slob_units_of size) (sym y.counted) ∙ z)) in
    rw (given, big, some_used, y.flagged) (unless (is_nil bs) _ _)
  where
    unless : (b : Bool) (x z : Run Slob) → (if not (not b) then x else z) ≡ (if b then x else z)
    unless true x z = refl
    unless false x z = refl

-- If the page has that state, and the block is in it, apart from its free blocks and not all that
-- is in use, then `slob_free` of the block changes no other page.
pub slob_free-OtherPages :
    (fuel block size : ℕ) (bs : List Block) (st : Slob)
    → let sp = virt_to_page block in
      let units = slob_units_of size in
      IsPage st sp bs
      → Apart block units bs
      → total bs + units ≢ page_units
      → block + units ≤ end_of sp
      → zero_size_ptr < block
      → 0 < size
      → length bs < fuel
      → Returns (λ st'. OtherPages sp st st') (slob_free fuel block size st)
slob_free-OtherPages fuel block size [] st y apart part inside low sized enough = (
  free_first (virt_to_page block) block (slob_units_of size) size st,
  slob_free-guarded fuel block size [] st y part low sized,
  free_first-OtherPages block (slob_units_of size) size st (omega arith) inside,
)
slob_free-OtherPages fuel block size (c ∷ cs) st y apart part inside low sized enough =
    let (st1, run, o) =
      free_more-OtherPages fuel (virt_to_page block) block (slob_units_of size) c cs st
        (y.list refl) apart refl (omega arith) inside (omega arith) in
    (st1, slob_free-guarded fuel block size (c ∷ cs) st y part low sized ∙ run, o)
