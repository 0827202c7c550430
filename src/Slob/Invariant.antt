-- ===== src/Slob/Invariant.antt =====
-- The invariant of a page of hw3/slob.c, and that `slob_page_alloc` keeps it.
use uth_operating_systems.Base.{
  ℕ, ◌+◌, ◌-◌, ◌*◌, ◌<◌, ◌≤◌, ◌≡◌, ◌≢◌, refl, sym, ap, ◌∙◌, subst, Bool, true, false, not, ◌⊎◌,
  ◌&&◌, ◌||◌, inl, inr, arith, List, [], ◌∷◌, ◌++◌, Returns, length, ◌==◌, ltb, leb, if◌then◌else◌,
  ℤ, Bool-cases, is_nil, All, All-append, All-map,
}
use uth_operating_systems.Links.{Ptr, null}
use uth_operating_systems.Slob.{Slob, page_units, page_base, slob_units_of}
use uth_operating_systems.Slob.FirstFit.{delta_of, slob_page_alloc}
use uth_operating_systems.Slob.Blocks.{Block, Seg, Seg-append, Seg-≤, fits}
use uth_operating_systems.Slob.Take.{piece}
use uth_operating_systems.Slob.Choice.{Taken, slob_page_alloc-Taken}
use uth_operating_systems.Slob.Pages.{Taken-given}
use uth_operating_systems.Slob.Insert.{covers, covers-append, Apart}
use uth_operating_systems.Slob.Count.{
  count, count-congr, count-or, count-interval, total, Seg-above, Seg-under, Seg-total, Seg-length,
}

-- The end of the page `sp`.
abbrev pub end_of : Ptr → Ptr
end_of sp = sp * page_units + page_units

-- The free blocks of the page are `bs`: the memory holds their list if there are any, the page
-- counts their units, and it is on a list of pages just if there are any.
pub record IsPage (st : Slob) (sp : Ptr) (bs : List Block) : Type 0 where
  pub list : is_nil bs ≡ false → Seg st.memory (end_of sp) (st.page sp).freelist bs (end_of sp)
  pub counted : (st.page sp).units ≡ total bs
  pub flagged : st.page_free sp ≡ not (is_nil bs)

-- The blocks `bs'` are `bs` less the `n` units at `b`.
pub record Less (e b n : ℕ) (bs bs' : List Block) : Type 0 where
  pub covered : (x : Ptr) → covers bs x ≡ (covers ((b, n) ∷ []) x || covers bs' x)
  pub apart : Apart b n bs'
  pub inside : b + n ≤ e
  pub based : page_base b + page_units ≡ e

covers-piece : (a n x : Ptr) → covers (piece a n) x ≡ (leb a x && ltb x (a + n))
covers-piece a n x = elim (Bool-cases (n == 0)) [
  | inl h ↦ rw h (ground arith)
  | inr h ↦ rw h (ground arith)
]

piece-Apart : (b n a k : ℕ) → (a + k ≤ b) ⊎ (b + n ≤ a) → Apart b n (piece a k)
piece-Apart b n a k h = elim (Bool-cases (k == 0)) [ inl z ↦ rw z tt | inr z ↦ rw z (h, tt) ]

Apart-covers :
    (b n : ℕ) (bs : List Block) (x : Ptr)
    → Apart b n bs
    → (covers ((b, n) ∷ []) x && covers bs x) ≡ false
Apart-covers b n [] x h = ground arith
Apart-covers b n (c ∷ bs) x h =
    let rest = Apart-covers b n bs x h.1 in
    elim h.0 [ inl k ↦ ground (arith, rest, k) | inr k ↦ ground (arith, rest, k) ]

-- A list that covers the `n` units at `b` and another one counts the units of both.
pub total-covered :
    (e b n : ℕ) (bs all : List Block)
    → count (covers all) e ≡ total all
    → count (covers bs) e ≡ total bs
    → ((x : Ptr) → covers all x ≡ (covers ((b, n) ∷ []) x || covers bs x))
    → Apart b n bs
    → b + n ≤ e
    → total all ≡ n + total bs
total-covered e b n bs all ta tb c h inside =
    let own =
      count-congr (covers ((b, n) ∷ [])) (λ x. leb b x && ltb x (b + n)) e (λ x. ground arith)
      ∙ count-interval b n e in
    let split =
      count-congr (covers all) (λ x. covers ((b, n) ∷ []) x || covers bs x) e c
      ∙ count-or (covers ((b, n) ∷ [])) (covers bs) e (λ x. Apart-covers b n bs x h) in
    omega (arith, sym ta, split, own, tb)

module _ (e sp units align : ℕ) (bs : List Block) (st : Slob) (r : Ptr × Slob)
    (t : Taken e sp units align bs st r) (p : Ptr) (s : Seg st.memory e p bs e)
    (some_units : 0 < units) where
  -- What the free list of the page is after the allocation.
  abbrev pub left_free : List Block
  left_free =
      let delta = delta_of align t.block.0 in
      (t.before ++ piece t.block.0 delta)
      ++ (piece (t.block.0 + delta + units) (t.block.1 - delta - units) ++ t.after)

  pub Taken-Less : Less e r.0 units bs left_free
  Taken-Less =
      let (a, n) = t.block in
      let delta = delta_of align a in
      let head = piece a delta in
      let tail = piece (a + delta + units) (n - delta - units) in
      let (k, s0, (i, w, l, r', f, z, s1)) =
        Seg-append st.memory e p t.before (t.block ∷ t.after) e
          (subst (λ v. Seg st.memory e p v e) (sym t.whole) s) in
      let low = Seg-under st.memory e p t.before k s0 in
      let high = Seg-above st.memory e r' t.after e s1 in
      let last = Seg-≤ st.memory e r' t.after e s1 in
      let room : units + delta ≤ n = ground (arith, t.room) in
      record {
        covered = λ x.
            let whole : covers bs x ≡ covers (t.before ++ t.block ∷ t.after) x =
              ap (λ v. covers v x) (sym t.whole) in
            ground (
              arith,
              whole,
              t.address,
              room,
              covers-append t.before (t.block ∷ t.after) x,
              covers-append (t.before ++ head) (tail ++ t.after) x,
              covers-append t.before head x,
              covers-append tail t.after x,
              covers-piece a delta x,
              covers-piece (a + delta + units) (n - delta - units) x,
            );
        apart =
            All-append _ (t.before ++ head) (tail ++ t.after)
              (All-append _ t.before head
                (All-map _ _ t.before (λ c h. inl (omega (arith, h, i, t.address))) low)
                (piece-Apart r.0 units a delta (inl (omega (arith, t.address)))))
              (All-append _ tail t.after
                (piece-Apart r.0 units (a + delta + units) (n - delta - units)
                  (inr (omega (arith, t.address))))
                (All-map _ _ t.after (λ c h. inr (omega (arith, h, z, t.address, room))) high));
        inside = omega (arith, t.address, room, z, last);
        based = omega (arith, t.address, room, z, last, w);
      }

pub Seg-is_nil :
    (m : Ptr → ℤ) (e p : Ptr) (bs : List Block) (q : Ptr)
    → Seg m e p bs q
    → is_nil bs ≡ (total bs == 0)
Seg-is_nil m e p [] q s = refl
Seg-is_nil m e p (b ∷ bs) q (i, w, n, r, f, z, s) = ground (arith, n)

-- The list of the page has as many blocks as units at most, in any case.
pub IsPage-length :
    (st : Slob) (sp : Ptr) (bs : List Block) → IsPage st sp bs → length bs ≤ total bs
IsPage-length st sp [] y = omega arith
IsPage-length st sp (c ∷ bs) y =
    Seg-length st.memory (end_of sp) (st.page sp).freelist (c ∷ bs) (end_of sp) (y.list refl)

IsPage-total :
    (st : Slob) (sp : Ptr) (bs : List Block)
    → IsPage st sp bs
    → count (covers bs) (end_of sp) ≡ total bs
IsPage-total st sp [] y = Seg-total st.memory 0 0 [] 0 (end_of sp) refl (omega arith)
IsPage-total st sp (c ∷ bs) y =
    Seg-total st.memory (end_of sp) (st.page sp).freelist (c ∷ bs) (end_of sp) (end_of sp)
      (y.list refl) (omega arith)

pub Less-total :
    (sp b n : ℕ) (bs left : List Block) (st st' : Slob)
    → IsPage st sp bs
    → IsPage st' sp left
    → Less (end_of sp) b n bs left
    → total bs ≡ n + total left
Less-total sp b n bs left st st' y y' less =
    total-covered (end_of sp) b n left bs (IsPage-total st sp bs y) (IsPage-total st' sp left y')
      less.covered less.apart less.inside

unless : (b v : Bool) → v ≡ true → (if b then false else v) ≡ not b
unless true v h = refl
unless false v h = h

-- If the free blocks of a page other than the first are those of its list, which the page counts
-- and for which it is on a list of pages just if there are any, and there is more fuel than blocks
-- behind the first, then `slob_page_alloc` of a size returns. Either no block has room behind its
-- alignment, and it answers `NULL` and has changed nothing; or it answers a block of the units of
-- the size inside the page, the free blocks are again as the page says, and their units are the old
-- ones less those of the block.
pub slob_page_alloc-IsPage :
    (fuel sp size align : ℕ) (c : Block) (bs : List Block) (st : Slob)
    → IsPage st sp (c ∷ bs)
    → length bs < fuel
    → 0 < size
    → 0 < sp
    → Returns
        (λ r.
          ((r ≡ (null, st)) × All (λ b. fits (slob_units_of size) align b ≡ false) (c ∷ bs))
          ⊎ ((left : List Block) × IsPage r.1 sp left
              × Less (end_of sp) r.0 (slob_units_of size) (c ∷ bs) left
              × (r.0 ≢ null)))
        (slob_page_alloc fuel sp size align st)
slob_page_alloc-IsPage fuel sp size align c bs st y enough sized up =
    let e = end_of sp in
    let units = slob_units_of size in
    let p = (st.page sp).freelist in
    let s = y.list refl in
    let (r, run, d) =
      slob_page_alloc-Taken fuel e sp size align c bs st s enough sized (omega arith) in
    (
      r,
      run,
      elim d [
        | inl h ↦ inl h
        | inr t ↦
            let left = left_free e sp units align (c ∷ bs) st r t p s (omega arith) in
            let less = Taken-Less e sp units align (c ∷ bs) st r t p s (omega arith) in
            let sum =
              total-covered e r.0 units left (c ∷ bs)
                (Seg-total st.memory e p (c ∷ bs) e e s (omega arith))
                (Seg-total r.1.memory e (r.1.page sp).freelist left e e t.rest (omega arith))
                less.covered less.apart less.inside in
            let nil = Seg-is_nil r.1.memory e (r.1.page sp).freelist left e t.rest in
            let units_left : (st.page sp).units - units ≡ total left =
              omega (arith, y.counted, sum) in
            inr (
              left,
              record {
                list = λ o. t.rest;
                counted = t.counted ∙ units_left;
                flagged =
                    t.listed
                    ∙ ap (λ k. if k == 0 then false else st.page_free sp) units_left
                    ∙ ap (λ b. if b then false else st.page_free sp) (sym nil)
                    ∙ unless (is_nil left) (st.page_free sp) y.flagged;
              },
              less,
              Taken-given p t s (omega arith),
            )
      ],
    )
