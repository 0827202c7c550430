-- ===== src/Slob/Others.antt =====
-- An allocation from a page of hw3/slob.c (`slob_page_alloc`) changes no other page.
use uth_operating_systems.Base.{
  ℕ, ◌+◌, ◌-◌, ◌<◌, ◌≤◌, ◌≡◌, refl, sym, ap, ◌∙◌, subst, true, false, ◌⊎◌, inl, inr, arith, Option,
  List, [], ◌∷◌, ◌++◌, ok, ok-injective, ◌>>=◌, length, ◌==◌, if◌then◌else◌, ℤ, Bool-cases,
}
use uth_operating_systems.Links.{Ptr, null}
use uth_operating_systems.Slob.{
  Slob, page_units, page_base, set_slob, slob_units_of, clear_slob_page_free, set_page,
}
use uth_operating_systems.Slob.FirstFit.{
  delta_of, split_head, unlink, clear_if_full, take_block, take_found, slob_page_alloc,
}
use uth_operating_systems.Slob.Encoding.{Free, Free-slob_units, Free-slob_next}
use uth_operating_systems.Slob.Blocks.{Block, Seg, Seg-append, Seg-≤, fits, pick, first_fit-pick}
use uth_operating_systems.Slob.Take.{piece, last_addr, last_addr-last, last-cases, split_head-Seg}
use uth_operating_systems.Slob.Invariant.{end_of}
use uth_operating_systems.Slob.Frame.{Same, Same-trans, set_slob-Same, OtherPages, OtherPages-refl}
use uth_operating_systems.Slob.Choice.{last_addr-piece, pick-cases, Seg-assoc}

split_head-Same :
    (m : Ptr → ℤ) (e a n delta r : ℕ)
    → page_base a + page_units ≡ e
    → Free m a n r
    → a + n ≤ e
    → delta < n
    → Same e m (split_head m delta a)
unfolding split_head
split_head-Same m e a n delta r w f inside h = elim (Bool-cases (delta == 0)) [
  | inl z ↦ rw z (λ x o. refl)
  | inr z ↦
      let c = a + delta in
      let some_head : 0 < delta = ground arith in
      let m1 = set_slob c (n - delta) r m in
      rw (z, Free-slob_units m a n r f, Free-slob_next m a n r f)
        (Same-trans e m m1 (set_slob a delta c m1)
          (set_slob-Same m e c (n - delta) r (omega arith) (omega (arith, w)) (omega arith))
          (set_slob-Same m1 e a delta c some_head w (omega arith)))
]

-- The block before another one, if there is one.
abbrev Before : (Ptr → ℤ) → (e prev : Ptr) → Type 0
Before m e prev =
    (prev ≡ null)
    ⊎ ((k : ℕ) × (r : Ptr) × Free m prev k r
        × (0 < k)
        × (page_base prev + page_units ≡ e)
        × (prev + k ≤ e)
        × ((prev == null) ≡ false))

last-Before :
    (m : Ptr → ℤ) (e p : Ptr) (us : List Block) (q : Ptr)
    → Seg m e p us q
    → q ≤ e
    → page_units < e
    → Before m e (last_addr null us)
last-Before m e p us q s h up = elim (last-cases us) [
  | inl x ↦ rw x (inl refl)
  | inr (ws, b, x) ↦
      let (k, s0, (i, w, n, r, f, z, t)) =
        Seg-append m e p ws (b ∷ []) q (subst (λ l. Seg m e p l q) x s) in
      let own : last_addr null us ≡ b.0 = ap (last_addr null) x ∙ last_addr-last null ws b in
      rw own (inr (b.1, r, f, n, w, omega (arith, z, t), ground (arith, w)))
]

unlink-Same :
    (m : Ptr → ℤ) (e prev a n r units p : ℕ)
    → Before m e prev
    → Free m a n r
    → page_base a + page_units ≡ e
    → a + n ≤ e
    → 0 < units
    → units ≤ n
    → Same e m (unlink m units prev a p).0
unfolding unlink
unlink-Same m e prev a n r units p before f w inside some_units enough =
    let after = if n == units then r else a + units in
    let rest : (m1 : Ptr → ℤ)
        → Same e m m1
        → Same e m (if n == units then m1 else set_slob (a + units) (n - units) r m1) =
      λ m1 h. elim (Bool-cases (n == units)) [
        | inl x ↦ rw x h
        | inr x ↦
            let less : units < n = ground arith in
            rw x (
              Same-trans e m m1 (set_slob (a + units) (n - units) r m1) h (
                set_slob-Same m1 e (a + units) (n - units) r (omega arith)
                  (omega (arith, w, inside)) (omega arith)))
      ] in
    elim before [
      | inl z ↦ rw (z, Free-slob_units m a n r f, Free-slob_next m a n r f) (rest m (λ x o. refl))
      | inr (k, r0, g, l, w0, i0, there) ↦
          rw
            (
              there,
              Free-slob_units m a n r f,
              Free-slob_next m a n r f,
              Free-slob_units m prev k r0 g,
            )
            (rest (set_slob prev k after m) (set_slob-Same m e prev k after l w0 i0))
    ]

clear_if_full-others :
    (left sp : ℕ) (st : Slob)
    → ((clear_if_full left sp st).memory ≡ st.memory)
      × ((clear_if_full left sp st).page ≡ st.page)
      × ((clear_if_full left sp st).page_slab ≡ st.page_slab)
      × ((k : Ptr) → (k == sp) ≡ false → (clear_if_full left sp st).page_free k ≡ st.page_free k)
unfolding clear_if_full clear_slob_page_free
clear_if_full-others left sp st = elim (Bool-cases (left == 0)) [
  | inl t ↦ rw t (refl, refl, refl, λ k o. rw o refl)
  | inr f ↦ rw f (refl, refl, refl, λ k o. refl)
]

take_block-OtherPages :
    (sp units align : ℕ) (us : List Block) (b : Block) (vs : List Block) (st : Slob)
    → Seg st.memory (end_of sp) (st.page sp).freelist (us ++ b ∷ vs) (end_of sp)
    → 0 < units
    → 0 < sp
    → fits units align b ≡ true
    → OtherPages sp st (take_block sp units align (last_addr null us) b.0 st).1
unfolding take_block
take_block-OtherPages sp units align us b vs st s some_units up room =
    let e = end_of sp in
    let delta = delta_of align b.0 in
    let p = (st.page sp).freelist in
    let m = split_head st.memory delta b.0 in
    let prev = if delta == 0 then last_addr null us else b.0 in
    let u = unlink m units prev (b.0 + delta) p in
    let left = (st.page sp).units - units in
    let st1 = set_page sp (record { units = left; freelist = u.1 }) (record st { memory = u.0 }) in
    let enough : units + delta ≤ b.1 = ground arith in
    let (k0, s0, (i, w, n, r, f, z, t)) = Seg-append st.memory e p us (b ∷ vs) e s in
    let inside : b.0 + b.1 ≤ e = omega (arith, z, Seg-≤ st.memory e r vs e t) in
    let s1 =
      Seg-assoc m e p us (piece b.0 delta) ((b.0 + delta, b.1 - delta) ∷ vs) e
        (split_head-Seg st.memory e p us b.0 b.1 delta vs s (omega arith)) in
    let (k1, t0, (i1, w1, n1, r1, f1, z1, t1)) =
      Seg-append m e p (us ++ piece b.0 delta) ((b.0 + delta, b.1 - delta) ∷ vs) e s1 in
    let before = subst (Before m e) (last_addr-piece us b.0 delta) (
      last-Before m e p (us ++ piece b.0 delta) k1 t0 (omega (arith, i1, z1, Seg-≤ m e r1 vs e t1))
        (omega arith)) in
    let written =
      Same-trans e st.memory m u.0
        (split_head-Same st.memory e b.0 b.1 delta r w f inside (omega arith))
        (unlink-Same m e prev (b.0 + delta) (b.1 - delta) r1 units p before f1 w1 (omega arith)
          some_units (omega arith)) in
    let (same_memory, same_page, same_slab, same_free) = clear_if_full-others left sp st1 in
    record {
      memory = λ a o. ap (λ v. v a) same_memory ∙ written a o;
      page = λ k o. ap (λ v. v k) same_page ∙ rw o refl;
      page_free = same_free;
      page_slab = λ k o. ap (λ v. v k) same_slab;
    }

-- If the page has that state, `slob_page_alloc` changes no other page.
pub slob_page_alloc-OtherPages :
    (fuel sp size align : ℕ) (c : Block) (bs : List Block) (st : Slob) (r : Ptr × Slob)
    → Seg st.memory (end_of sp) (st.page sp).freelist (c ∷ bs) (end_of sp)
    → length bs < fuel
    → 0 < size
    → 0 < sp
    → slob_page_alloc fuel sp size align st ≡ ok r
    → OtherPages sp st r.1
unfolding slob_page_alloc take_found
slob_page_alloc-OtherPages fuel sp size align c bs st r s enough sized up run =
    let e = end_of sp in
    let units = slob_units_of size in
    let found =
      first_fit-pick fuel st.memory e units align null (st.page sp).freelist c bs s enough in
    let Goal = λ (o : Option (Ptr × Ptr)). OtherPages sp st (take_found sp units align o st).1 in
    let taken : Goal (pick units align null (c ∷ bs)) =
      elim (pick-cases units align null (c ∷ bs)) [
        | inl (none_found, h) ↦ rw none_found (OtherPages-refl sp st)
        | inr (us, b, vs, w, one_found, h, room) ↦ rw one_found (
            take_block-OtherPages sp units align us b vs st
              (subst (λ l. Seg st.memory e (st.page sp).freelist l e) (sym w) s) (omega arith) up
              room)
      ] in
    subst (λ v. OtherPages sp st v.1)
      (ok-injective _ r
        (sym (ap (λ g. g >>= λ o. ok (take_found sp units align o st)) found) ∙ run))
      taken
