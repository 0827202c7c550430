-- ===== src/Slob/Take.antt =====
-- What `slob_page_alloc` of hw3/slob.c does to the free list of a page.
use uth_operating_systems.Base.{
  ℕ, ◌+◌, ◌-◌, ◌<◌, ◌≤◌, ◌≡◌, refl, true, false, ◌⊎◌, inl, inr, arith, List, [], ◌∷◌, ◌++◌, ◌==◌,
  if◌then◌else◌, ℤ, Bool-cases, ap,
}
use uth_operating_systems.Links.{Ptr, null}
use uth_operating_systems.Slob.{page_units, page_base, set_slob, slob_units}
use uth_operating_systems.Slob.FirstFit.{split_head, unlink}
use uth_operating_systems.Slob.Encoding.{
  Free, Free-slob_units, Free-slob_next, Free-set_slob, set_slob-Free,
}
use uth_operating_systems.Slob.Blocks.{Block, Seg, Seg-append, Seg-join, Seg-before, Seg-behind}

-- The block `a` of `n` units, if it has any.
abbrev pub piece : Ptr → ℕ → List Block
piece a n = if n == 0 then [] else (a, n) ∷ []

-- The block at `q` is written with another block to follow.
relink :
    (m : Ptr → ℤ) (e a n r q : Ptr)
    → page_base a + page_units ≡ e
    → 0 < n
    → Free m a n r
    → a + n ≤ r
    → a + n ≤ q
    → q ≤ e
    → Free (set_slob a (slob_units m a) q m) a n q
relink m e a n r q w least f z out low =
    rw (Free-slob_units m a n r f)
      (set_slob-Free m a n q least (omega (arith, f.high, f.low)) (omega arith) (omega arith))

-- The head of a block that starts too early is a block of its own.
pub split_head-Seg :
    (m : Ptr → ℤ) (e p : Ptr) (us : List Block) (a n delta : ℕ) (vs : List Block)
    → Seg m e p (us ++ (a, n) ∷ vs) e
    → delta < n
    → Seg (split_head m delta a) e p (us ++ (piece a delta ++ (a + delta, n - delta) ∷ vs)) e
unfolding split_head
split_head-Seg m e p us a n delta vs s h =
    let (k, s0, (i, w, least, r, f, z, t)) = Seg-append m e p us ((a, n) ∷ vs) e s in
    elim (Bool-cases (delta == 0)) [
      | inl e0 ↦
          let same : a + delta ≡ a = ground arith in
          let whole : n - delta ≡ n = ground arith in rw (e0, same, whole) s
      | inr ne ↦
          let c = a + delta in
          let j = n - delta in
          let m1 = set_slob c j r m in
          let m2 = set_slob a delta c m1 in
          let base : page_base c ≡ page_base a = omega (arith, f.high) in
          let base_end : page_base c + page_units ≡ e = omega (arith, base) in
          let some_left : 0 < j = omega arith in
          let few : j ≤ page_units = omega (arith, f.high) in
          let some_head : 0 < delta = ground arith in
          let few' : delta ≤ page_units = omega (arith, f.high) in
          let g =
            set_slob-Free m c j r some_left few (omega (arith, f.low, f.high))
              (omega (arith, f.high)) in
          let g2 = Free-set_slob m1 c j r a delta c g some_head few' (inr (omega arith)) in
          let g1 =
            set_slob-Free m1 a delta c some_head few' (omega arith) (omega (arith, f.high)) in
          let u1 = Seg-before m e p us k c j r s0 some_left few (omega arith) in
          let u2 = Seg-before m1 e p us k a delta c u1 some_head few' (omega arith) in
          let v1 = Seg-behind m e r vs e c j r t some_left few (omega arith) in
          let v2 = Seg-behind m1 e r vs e a delta c v1 some_head few' (omega arith) in
          let both : Seg m2 e k ((a, delta) ∷ (c, j) ∷ vs) e = (
            i,
            w,
            some_head,
            c,
            g1,
            omega arith,
            (refl, base_end, some_left, r, g2, omega arith, v2),
          ) in
          rw (ne, Free-slob_units m a n r f, Free-slob_next m a n r f)
            (Seg-join m2 e p us ((a, delta) ∷ (c, j) ∷ vs) k e u2 both)
    ]

-- The address of the last block of a list, and `d` if it has none.
abbrev pub last_addr : Ptr → List Block → Ptr
last_addr d [] = d
last_addr d (u ∷ us) = last_addr u.0 us

pub last_addr-last : (d : Ptr) (ws : List Block) (b : Block) → last_addr d (ws ++ b ∷ []) ≡ b.0
last_addr-last d [] b = refl
last_addr-last d (w ∷ ws) b = last_addr-last w.0 ws b

pub last-cases :
    (us : List Block) → (us ≡ []) ⊎ ((ws : List Block) × (b : Block) × (us ≡ ws ++ b ∷ []))
last-cases [] = inl refl
last-cases (u ∷ us) = elim (last-cases us) [
  | inl e ↦ inr ([], u, ap (λ l. u ∷ l) e)
  | inr (ws, b, e) ↦ inr (u ∷ ws, b, ap (λ l. u ∷ l) e)
]

-- What is left of a block of `n` units at `a` is written behind its first `units`.
rest-Seg :
    (m : Ptr → ℤ) (e a n units r : ℕ) (vs : List Block)
    → page_base a + page_units ≡ e
    → r ≤ page_base a + page_units
    → a + n ≤ r
    → units < n
    → Seg m e r vs e
    → Seg (set_slob (a + units) (n - units) r m) e (a + units) ((a + units, n - units) ∷ vs) e
rest-Seg m e a n units r vs w high z part t =
    let c = a + units in
    let j = n - units in
    let base : page_base c ≡ page_base a = omega arith in
    let left : 0 < j = omega arith in
    let few : j ≤ page_units = omega arith in
    (
      refl,
      omega (arith, base),
      left,
      r,
      set_slob-Free m c j r left few (omega arith) (omega (arith, base)),
      omega arith,
      Seg-behind m e r vs e c j r t left few (omega arith),
    )

-- The first block of the list is taken, or its beginning.
pub unlink-first :
    (m : Ptr → ℤ) (e a n units : ℕ) (vs : List Block)
    → Seg m e a ((a, n) ∷ vs) e
    → 0 < units
    → units ≤ n
    → let (m', q) = unlink m units null a a in Seg m' e q (piece (a + units) (n - units) ++ vs) e
unfolding unlink
unlink-first m e a n units vs (i, w, least, r, f, z, t) some_units enough =
    elim (Bool-cases (n == units)) [
      | inl x ↦
          let none_left : (n - units == 0) ≡ true = ground arith in
          rw (Free-slob_units m a n r f, Free-slob_next m a n r f, x, none_left) t
      | inr y ↦
          let left : (n - units == 0) ≡ false = ground arith in
          rw (Free-slob_units m a n r f, Free-slob_next m a n r f, y, left)
            (rest-Seg m e a n units r vs w f.high z (ground arith) t)
    ]

-- A later block is taken, or its beginning, and the one before it leads on.
pub unlink-later :
    (m : Ptr → ℤ) (e p : Ptr) (ws : List Block) (b k a n units : ℕ) (vs : List Block)
    → Seg m e p (ws ++ (b, k) ∷ (a, n) ∷ vs) e
    → 0 < units
    → units ≤ n
    → page_units < e
    → let (m', q) = unlink m units b a p in
      Seg m' e q (ws ++ (b, k) ∷ (piece (a + units) (n - units) ++ vs)) e
unfolding unlink
unlink-later m e p ws b k a n units vs s some_units enough up =
    let (j, s0, (i0, w0, l0, r0, f0, z0, (i, w, least, r, f, z, t))) =
      Seg-append m e p ws ((b, k) ∷ (a, n) ∷ vs) e s in
    let few : k ≤ page_units = omega (arith, f0.high) in
    let own = Free-slob_units m b k r0 f0 in
    let there : (b == null) ≡ false = ground (arith, f0.high) in
    elim (Bool-cases (n == units)) [
      | inl x ↦
          let none_left : (n - units == 0) ≡ true = ground arith in
          let s1 = Seg-before m e p ws j b k r s0 l0 few (omega arith) in
          let g = set_slob-Free m b k r l0 few (omega arith) (omega (arith, f.high)) in
          let t1 = Seg-behind m e r vs e b k r t l0 few (omega arith) in
          rw (there, own, Free-slob_units m a n r f, Free-slob_next m a n r f, x, none_left)
            (Seg-join (set_slob b k r m) e p ws ((b, k) ∷ vs) j e s1
              (i0, w0, l0, r, g, omega arith, t1))
      | inr y ↦
          let left : (n - units == 0) ≡ false = ground arith in
          let c = a + units in
          let h = n - units in
          let m1 = set_slob b k c m in
          let some_left : 0 < h = ground arith in
          let few_left : h ≤ page_units = omega (arith, f.high) in
          let s1 = Seg-before m e p ws j b k c s0 l0 few (omega arith) in
          let s2 = Seg-before m1 e p ws j c h r s1 some_left few_left (omega arith) in
          let g1 = set_slob-Free m b k c l0 few (omega arith) (omega (arith, f.high)) in
          let g2 = Free-set_slob m1 b k c c h r g1 some_left few_left (inl (omega arith)) in
          let t1 = Seg-behind m e r vs e b k c t l0 few (omega arith) in
          let t2 = rest-Seg m1 e a n units r vs w f.high z (ground arith) t1 in
          rw (there, own, Free-slob_units m a n r f, Free-slob_next m a n r f, y, left)
            (Seg-join (set_slob c h r m1) e p ws ((b, k) ∷ (c, h) ∷ vs) j e s2
              (i0, w0, l0, c, g2, omega arith, t2))
    ]
