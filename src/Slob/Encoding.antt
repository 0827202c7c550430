-- ===== src/Slob/Encoding.antt =====
-- The cells of a free block of hw3/slob.c: `set_slob`, `slob_units` and `slob_next`.
use uth_operating_systems.Base.{
  ℕ, ◌+◌, ◌-◌, ◌%◌, ◌^◌, ◌<◌, ◌≤◌, ◌≡◌, refl, true, false, ◌⊎◌, inl, inr, arith, ◌==◌, ltb, leb, ℤ,
  pos, negsuc, Bool-cases, ==-refl, ◌∙◌, sym,
}
use uth_operating_systems.Links.{Ptr}
use uth_operating_systems.Slob.{page_units, page_base, set_slob, slob_units, slob_next, slobidx}

slobidx-pos : (n : ℕ) → n < 2 ^ 15 → slobidx (pos n) ≡ pos n
slobidx-pos n h =
    let small : n % 2 ^ 16 ≡ n = omega arith in
    let below : ltb n (2 ^ 15) ≡ true = ground arith in rw (small, below) refl

slobidx-negsuc : (n : ℕ) → n < 2 ^ 15 → slobidx (negsuc n) ≡ negsuc n
slobidx-negsuc n h =
    let small : n % 2 ^ 16 ≡ n = omega arith in
    let above : ltb (2 ^ 16 - 1 - n) (2 ^ 15) ≡ false = ground arith in
    let back : 2 ^ 16 - 1 - (2 ^ 16 - 1 - n) ≡ n = omega arith in rw (small, above, back) refl

-- The memory holds a free block of `n` units at `s`, and the next one at `q`, which may be the end of
-- the page: a block of one unit holds the negated offset of the next, a larger one its size and
-- then the offset.
pub record Free (m : Ptr → ℤ) (s n q : Ptr) : Type 0 where
  pub low : page_base s < q
  pub high : q ≤ page_base s + page_units
  pub cells :
      ((n ≡ 1) × (m s ≡ negsuc (q - page_base s - 1)))
      ⊎ ((1 < n) × (m s ≡ pos n) × (m (s + 1) ≡ pos (q - page_base s)))

pub set_slob-Free :
    (m : Ptr → ℤ) (s n q : Ptr)
    → 0 < n
    → n ≤ page_units
    → page_base s < q
    → q ≤ page_base s + page_units
    → Free (set_slob s n q m) s n q
unfolding set_slob
set_slob-Free m s n q least few low high =
    let after : leb (page_base s) q ≡ true = ground arith in
    let offset = slobidx-pos (q - page_base s) (omega arith) in
    let back = slobidx-negsuc (q - page_base s - 1) (omega arith) in
    let apart : (q - page_base s == 0) ≡ false = ground arith in
    let other : (s == s + 1) ≡ false = ground arith in
    let size = slobidx-pos n (omega arith) in
    elim (Bool-cases (ltb 1 n)) [
      | inl t ↦
          rw (after, offset, size, t)
            (record {
              low = low;
              high = high;
              cells = inr (ground arith, rw (other, ==-refl s) refl, rw (==-refl (s + 1)) refl);
            })
      | inr f ↦
          rw (after, offset, size, f, apart, back)
            (record { low = low; high = high; cells = inl (ground arith, rw (==-refl s) refl) })
    ]

pub Free-slob_units : (m : Ptr → ℤ) (s n q : Ptr) → Free m s n q → slob_units m s ≡ n
unfolding slob_units
Free-slob_units m s n q f = elim f.cells [
  | inl (one, e) ↦ rw e (sym one)
  | inr (many, e, o) ↦ let large : (n == 0) ≡ false = ground arith in rw (e, large) refl
]

pub Free-slob_next : (m : Ptr → ℤ) (s n q : Ptr) → Free m s n q → slob_next m s ≡ q
unfolding slob_next
Free-slob_next m s n q f = elim f.cells [
  | inl (one, e) ↦
      let k = slobidx-pos (q - page_base s - 1 + 1) (omega (arith, f.low, f.high)) in
      rw (e, k) (omega (arith, f.low))
  | inr (many, e, o) ↦ rw (e, o) (omega (arith, f.low))
]

-- `set_slob` writes no cell outside the block.
pub set_slob-other :
    (m : Ptr → ℤ) (b k r a : Ptr)
    → 0 < k
    → k ≤ page_units
    → (a < b) ⊎ (b + k ≤ a)
    → set_slob b k r m a ≡ m a
unfolding set_slob
set_slob-other m b k r a least few out =
    let size = slobidx-pos k (omega arith) in
    let first : (a == b) ≡ false = ground arith in
    elim (Bool-cases (ltb 1 k)) [
      | inl t ↦ let second : (a == b + 1) ≡ false = ground arith in rw (size, t, second, first) refl
      | inr f ↦ rw (size, f, first) refl
    ]

-- So a block apart from the one that it writes is kept.
pub Free-set_slob :
    (m : Ptr → ℤ) (s n q b k r : Ptr)
    → Free m s n q
    → 0 < k
    → k ≤ page_units
    → (s + n ≤ b) ⊎ (b + k ≤ s)
    → Free (set_slob b k r m) s n q
Free-set_slob m s n q b k r f least few apart = record {
  low = f.low;
  high = f.high;
  cells = elim f.cells [
    | inl (one, e) ↦ inl (one, set_slob-other m b k r s least few (grind arith) ∙ e)
    | inr (many, e, o) ↦ inr (
      many,
      set_slob-other m b k r s least few (grind arith) ∙ e,
      set_slob-other m b k r (s + 1) least few (grind arith) ∙ o,
    )
  ];
}

-- If a size is from 1 to the units of a page and `q` lies in the page of `s` behind its base or at
-- its end, then what `set_slob` has written at `s` is read back: `slob_units` gives the size and
-- `slob_next` gives `q`.
pub set_slob-read :
    (m : Ptr → ℤ) (s n q : Ptr)
    → 0 < n
    → n ≤ page_units
    → page_base s < q
    → q ≤ page_base s + page_units
    → (slob_units (set_slob s n q m) s ≡ n) × (slob_next (set_slob s n q m) s ≡ q)
set_slob-read m s n q least few low high =
    let f = set_slob-Free m s n q least few low high in
    (Free-slob_units (set_slob s n q m) s n q f, Free-slob_next (set_slob s n q m) s n q f)
