-- ===== src/Slob/Scan.antt =====
-- The loop of `slob_alloc` of hw3/slob.c over the blocks of a page.
use uth_operating_systems.Base.{
  ℕ, zero, suc, ◌+◌, ◌-◌, ◌<◌, ◌≤◌, ◌≡◌, refl, Bool, true, false, ◌&&◌, ◌||◌, inl, inr, arith, List,
  [], ◌∷◌, ◌++◌, ok, length, ◌==◌, ltb, if◌then◌else◌, Bool-cases, ◌∙◌, All, ℤ, ◌*◌,
}
use uth_operating_systems.Links.{Ptr}
use uth_operating_systems.Slob.{page_units, slob_last}
use uth_operating_systems.Slob.FirstFit.{delta_of}
use uth_operating_systems.Slob.Alloc.{Fit, no_fit, room, exact_fit, scan_page}
use uth_operating_systems.Slob.Encoding.{Free-slob_units, Free-slob_next}
use uth_operating_systems.Slob.Blocks.{Block, Seg, fits, slob_last-end}

abbrev pub found : Fit → Bool
found no_fit = false
found _ = true

-- Some block has room.
abbrev pub any_fits : (units align : ℕ) → List Block → Bool
any_fits units align [] = false
any_fits units align (b ∷ bs) = fits units align b || any_fits units align bs

pub any_fits-none :
    (units align : ℕ) (bs : List Block)
    → All (λ b. fits units align b ≡ false) bs
    → any_fits units align bs ≡ false
any_fits-none units align [] h = refl
any_fits-none units align (b ∷ bs) h = ground (arith, h.0, any_fits-none units align bs h.1)

pub any_fits-some :
    (units align : ℕ) (us : List Block) (b : Block) (vs : List Block)
    → fits units align b ≡ true
    → any_fits units align (us ++ b ∷ vs) ≡ true
any_fits-some units align [] b vs h = ground arith
any_fits-some units align (u ∷ us) b vs h = ground (arith, any_fits-some units align us b vs h)

-- What the loop over the blocks of a page computes.
abbrev better : (units align diff : ℕ) → Block → Bool
better units align diff b = fits units align b && ltb (b.1 - units + delta_of align b.0) diff

abbrev pub scanned : (units align diff : ℕ) → Fit → List Block → ℕ × Fit
scanned units align diff f [] = (diff, f)
scanned units align diff f (b ∷ bs) =
    let d = b.1 - units + delta_of align b.0 in
    let t = better units align diff b in
    if t && d == 0
    then (0, exact_fit)
    else scanned units align (if t then d else diff) (if t then room else f) bs

ok_if : {A : Type 0} (t : Bool) (x y : A) → (if t then ok x else ok y) ≡ ok (if t then x else y)
ok_if true x y = refl
ok_if false x y = refl

pub scan_page-scanned :
    (fuel : ℕ) (m : Ptr → ℤ) (e units align p diff : ℕ) (f : Fit) (b : Block) (bs : List Block)
    → Seg m e p (b ∷ bs) e
    → length bs < fuel
    → scan_page fuel m units align p diff f ≡ ok (scanned units align diff f (b ∷ bs))
unfolding scan_page
scan_page-scanned zero m e units align p diff f b bs s h = absurd (omega arith)
scan_page-scanned (suc fuel) m e units align p diff f b [] (i, w, n, r, c, z, t) h =
    let last : slob_last m b.0 ≡ true = slob_last-end m b.0 b.1 r c ∙ ground arith in
    let d = b.1 - units + delta_of align b.0 in
    let g = better units align diff b in
    rw (← i, Free-slob_units m b.0 b.1 r c, last)
      (ok_if (g && d == 0) (0, exact_fit) (if g then d else diff, if g then room else f))
scan_page-scanned (suc fuel) m e units align p diff f b (d ∷ bs) (i, w, n, r, c, z, t) h =
    let last : slob_last m b.0 ≡ false = slob_last-end m b.0 b.1 r c ∙ ground arith in
    let x = b.1 - units + delta_of align b.0 in
    let g = better units align diff b in
    let diff' = if g then x else diff in
    let f' = if g then room else f in
    let next = scan_page-scanned fuel m e units align r diff' f' d bs t (omega arith) in
    rw (← i, Free-slob_units m b.0 b.1 r c, last, Free-slob_next m b.0 b.1 r c, next)
      (ok_if (g && x == 0) (0, exact_fit) (scanned units align diff' f' (d ∷ bs)))

pub scanned-none :
    (units align diff : ℕ) (f : Fit) (bs : List Block)
    → any_fits units align bs ≡ false
    → scanned units align diff f bs ≡ (diff, f)
scanned-none units align diff f [] h = refl
scanned-none units align diff f (b ∷ bs) h =
    let no : fits units align b ≡ false = ground arith in
    rw no (scanned-none units align diff f bs (ground arith))

scanned-kept :
    (units align diff : ℕ) (f : Fit) (bs : List Block)
    → found f ≡ true
    → found (scanned units align diff f bs).1 ≡ true
scanned-kept units align diff f [] k = k
scanned-kept units align diff f (b ∷ bs) k =
    let d = b.1 - units + delta_of align b.0 in
    elim (Bool-cases (better units align diff b)) [
      | inl t ↦ elim (Bool-cases (d == 0)) [
        | inl z ↦ rw (t, z) refl
        | inr z ↦ rw (t, z) (scanned-kept units align d room bs refl)
      ]
      | inr n ↦ rw n (scanned-kept units align diff f bs k)
    ]

pub scanned-found :
    (units align diff : ℕ) (f : Fit) (bs : List Block)
    → All (λ b. b.1 ≤ page_units) bs
    → 2 * page_units < diff
    → any_fits units align bs ≡ true
    → found (scanned units align diff f bs).1 ≡ true
scanned-found units align diff f [] small big h = absurd (ground arith)
scanned-found units align diff f (b ∷ bs) small big h =
    let d = b.1 - units + delta_of align b.0 in
    elim (Bool-cases (fits units align b)) [
      | inl t ↦
          let less : ltb d diff ≡ true = ground (arith, small.0) in
          elim (Bool-cases (d == 0)) [
            | inl z ↦ rw (t, less, z) refl
            | inr z ↦ rw (t, less, z) (scanned-kept units align d room bs refl)
          ]
      | inr n ↦ rw n (scanned-found units align diff f bs small.1 big (ground arith))
    ]
