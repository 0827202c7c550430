-- ===== src/Slob/Blocks.antt =====
-- The free list of a page of hw3/slob.c as a list of blocks, and the first fit in it.
use uth_operating_systems.Base.{
  ℕ, zero, suc, ◌+◌, ◌<◌, ◌≤◌, ◌≡◌, refl, Bool, true, false, inl, inr, arith, Option, none, some,
  List, [], ◌∷◌, ◌++◌, ok, length, ◌==◌, leb, if◌then◌else◌, ℤ, ◌∙◌, sym, subst,
}
use uth_operating_systems.Links.{Ptr}
use uth_operating_systems.Slob.{page_units, page_base, set_slob, slob_last}
use uth_operating_systems.Slob.FirstFit.{delta_of, first_fit}
use uth_operating_systems.Slob.Encoding.{Free, Free-slob_units, Free-slob_next, Free-set_slob}

-- A block: its address and its units.
abbrev pub Block : Type 0
Block = Ptr × ℕ

-- From `p` the memory holds the free blocks `bs`, one after the other and apart, in the page that ends
-- at `e`; behind them `q` follows.
abbrev pub Seg : (Ptr → ℤ) → (e p : Ptr) → List Block → Ptr → Type 0
Seg m e p [] q = p ≡ q
Seg m e p (b ∷ bs) q =
    (b.0 ≡ p)
    × (page_base b.0 + page_units ≡ e)
    × (0 < b.1)
    × (r : Ptr) × Free m b.0 b.1 r
    × (b.0 + b.1 ≤ r)
    × Seg m e r bs q

-- There is room for `units` in a block, behind what the alignment skips.
abbrev pub fits : (units align : ℕ) → Block → Bool
fits units align b = leb (units + delta_of align b.0) b.1

-- The first block with room, and the address before it.
abbrev pub pick : (units align : ℕ) → Ptr → List Block → Option (Ptr × Ptr)
pick units align prev [] = none
pick units align prev (b ∷ bs) =
    if fits units align b then some (prev, b.0) else pick units align b.0 bs

ok_if : {A : Type 0} (t : Bool) (x y : A) → (if t then ok x else ok y) ≡ ok (if t then x else y)
ok_if true x y = refl
ok_if false x y = refl

pub slob_last-end :
    (m : Ptr → ℤ) (a n r : Ptr) → Free m a n r → slob_last m a ≡ (r == page_base a + page_units)
unfolding slob_last
slob_last-end m a n r f = rw (Free-slob_next m a n r f) (ground (arith, f.low, f.high))

pub first_fit-pick :
    (fuel : ℕ) (m : Ptr → ℤ) (e units align prev p : ℕ) (b : Block) (bs : List Block)
    → Seg m e p (b ∷ bs) e
    → length bs < fuel
    → first_fit fuel m units align prev p ≡ ok (pick units align prev (b ∷ bs))
unfolding first_fit
first_fit-pick zero m e units align prev p b bs s h = absurd (omega arith)
first_fit-pick (suc fuel) m e units align prev p b [] (i, w, n, r, f, z, t) h =
    let last : slob_last m b.0 ≡ true = slob_last-end m b.0 b.1 r f ∙ ground arith in
    rw (← i, Free-slob_units m b.0 b.1 r f, last)
      (ok_if (fits units align b) (some (prev, b.0)) none)
first_fit-pick (suc fuel) m e units align prev p b (c ∷ bs) (i, w, n, r, f, z, t) h =
    let last : slob_last m b.0 ≡ false = slob_last-end m b.0 b.1 r f ∙ ground arith in
    let next = first_fit-pick fuel m e units align b.0 r c bs t (omega arith) in
    rw (← i, Free-slob_units m b.0 b.1 r f, last, Free-slob_next m b.0 b.1 r f, next)
      (ok_if (fits units align b) (some (prev, b.0)) (pick units align b.0 (c ∷ bs)))

-- A list of blocks in two parts.
pub Seg-append :
    (m : Ptr → ℤ) (e p : Ptr) (us vs : List Block) (q : Ptr)
    → Seg m e p (us ++ vs) q
    → (r : Ptr) × Seg m e p us r × Seg m e r vs q
Seg-append m e p [] vs q s = (p, refl, s)
Seg-append m e p (u ∷ us) vs q (i, w, n, r, f, z, t) =
    let (k, s, s') = Seg-append m e r us vs q t in (k, (i, w, n, r, f, z, s), s')

pub Seg-join :
    (m : Ptr → ℤ) (e p : Ptr) (us vs : List Block) (r q : Ptr)
    → Seg m e p us r
    → Seg m e r vs q
    → Seg m e p (us ++ vs) q
Seg-join m e p [] vs r q s s' = subst (λ x. Seg m e x vs q) (sym s) s'
Seg-join m e p (u ∷ us) vs r q (i, w, n, k, f, z, t) s' =
    (i, w, n, k, f, z, Seg-join m e k us vs r q t s')

pub Seg-≤ : (m : Ptr → ℤ) (e p : Ptr) (us : List Block) (q : Ptr) → Seg m e p us q → p ≤ q
Seg-≤ m e p [] q s = omega arith
Seg-≤ m e p (u ∷ us) q (i, w, n, r, f, z, t) = omega (arith, Seg-≤ m e r us q t)

-- A store of a block behind those of a list, or in front of them.
pub Seg-before :
    (m : Ptr → ℤ) (e p : Ptr) (us : List Block) (q b k r : Ptr)
    → Seg m e p us q
    → 0 < k
    → k ≤ page_units
    → q ≤ b
    → Seg (set_slob b k r m) e p us q
Seg-before m e p [] q b k r s least few far = s
Seg-before m e p (u ∷ us) q b k r (i, w, n, r', f, z, t) least few far =
    let behind = Seg-≤ m e r' us q t in
    (
      i,
      w,
      n,
      r',
      Free-set_slob m u.0 u.1 r' b k r f least few (inl (omega arith)),
      z,
      Seg-before m e r' us q b k r t least few far,
    )

pub Seg-behind :
    (m : Ptr → ℤ) (e p : Ptr) (us : List Block) (q b k r : Ptr)
    → Seg m e p us q
    → 0 < k
    → k ≤ page_units
    → b + k ≤ p
    → Seg (set_slob b k r m) e p us q
Seg-behind m e p [] q b k r s least few far = s
Seg-behind m e p (u ∷ us) q b k r (i, w, n, r', f, z, t) least few far = (
  i,
  w,
  n,
  r',
  Free-set_slob m u.0 u.1 r' b k r f least few (inr (omega arith)),
  z,
  Seg-behind m e r' us q b k r t least few (omega arith),
)
