-- ===== src/Slob/Count.antt =====
-- The units of the free blocks of a page of hw3/slob.c, counted one by one.
use uth_operating_systems.Base.{
  ℕ, zero, suc, ◌+◌, ◌-◌, ◌≤◌, ◌≡◌, refl, ◌∙◌, Bool, true, false, ◌&&◌, ◌||◌, arith, List, [], ◌∷◌,
  ltb, leb, if◌then◌else◌, ℤ, Bool-cases, All, All-map, length,
}
use uth_operating_systems.Links.{Ptr}
use uth_operating_systems.Slob.Blocks.{Block, Seg, Seg-≤}
use uth_operating_systems.Slob.Insert.{covers}

-- The numbers below `n` for which `f` holds.
abbrev pub count : (ℕ → Bool) → ℕ → ℕ
count f zero = 0
count f (suc n) = (if f n then 1 else 0) + count f n

pub count-congr : (f g : ℕ → Bool) (n : ℕ) → ((x : ℕ) → f x ≡ g x) → count f n ≡ count g n
count-congr f g zero e = refl
count-congr f g (suc n) e = rw (e n, count-congr f g n e) refl

pub count-or :
    (f g : ℕ → Bool) (n : ℕ)
    → ((x : ℕ) → (f x && g x) ≡ false)
    → count (λ x. f x || g x) n ≡ count f n + count g n
count-or f g zero e = omega arith
count-or f g (suc n) e = let rest = count-or f g n e in ground (arith, e n, rest)

pub count-interval : (a k n : ℕ) → count (λ x. leb a x && ltb x (a + k)) n ≡ n - a - (n - (a + k))
count-interval a k zero = omega arith
count-interval a k (suc n) = let rest = count-interval a k n in ground (arith, rest)

-- The units of all blocks.
abbrev pub total : List Block → ℕ
total [] = 0
total (b ∷ bs) = b.1 + total bs

module _ (m : Ptr → ℤ) (e : Ptr) where
  pub Seg-above : (p : Ptr) (bs : List Block) (q : Ptr) → Seg m e p bs q → All (λ c. p ≤ c.0) bs
  Seg-above p [] q s = tt
  Seg-above p (b ∷ bs) q (i, w, n, r, f, z, t) = (
    omega (arith, i),
    All-map (λ c. r ≤ c.0) (λ c. p ≤ c.0) bs (λ c h. omega (arith, h, i, z)) (Seg-above r bs q t),
  )

  pub Seg-under :
      (p : Ptr) (bs : List Block) (q : Ptr) → Seg m e p bs q → All (λ c. c.0 + c.1 ≤ q) bs
  Seg-under p [] q s = tt
  Seg-under p (b ∷ bs) q (i, w, n, r, f, z, t) =
      (omega (arith, Seg-≤ m e r bs q t), Seg-under r bs q t)

  Seg-covers :
      (p : Ptr) (bs : List Block) (q x : Ptr)
      → Seg m e p bs q
      → ltb x p ≡ true
      → covers bs x ≡ false
  Seg-covers p [] q x s h = refl
  Seg-covers p (b ∷ bs) q x (i, w, n, r, f, z, t) h =
      let rest = Seg-covers r bs q x t (ground (arith, i, z, h)) in ground (arith, rest, i, h)

  pub Seg-total :
      (p : Ptr) (bs : List Block) (q n : Ptr)
      → Seg m e p bs q
      → q ≤ n
      → count (covers bs) n ≡ total bs
  Seg-total p [] q n s h = none n
    where
      none : (k : ℕ) → count (λ x. false) k ≡ 0
      none zero = refl
      none (suc k) = omega (arith, none k)
  Seg-total p (b ∷ bs) q n (i, w, l, r, f, z, t) h =
      let own = count-interval b.0 b.1 n in
      let high = Seg-≤ m e r bs q t in
      count-or (λ x. leb b.0 x && ltb x (b.0 + b.1)) (covers bs) n
        (λ x. ground (arith, Bool-cases (ltb x r), Seg-covers r bs q x t, z))
      ∙ omega (arith, own, Seg-total r bs q n t h, high)

  pub Seg-length : (p : Ptr) (bs : List Block) (q : Ptr) → Seg m e p bs q → length bs ≤ total bs
  Seg-length p [] q s = omega arith
  Seg-length p (b ∷ bs) q (i, w, l, r, f, z, t) = omega (arith, l, Seg-length r bs q t)
