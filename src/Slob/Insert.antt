-- ===== src/Slob/Insert.antt =====
-- What `slob_free` of hw3/slob.c does to the free list of a page that has free blocks.
use uth_operating_systems.Base.{
  ℕ, zero, suc, ◌+◌, ◌<◌, ◌≤◌, ◌≡◌, refl, Bool, false, ◌&&◌, ◌||◌, ◌⊎◌, inl, inr, arith, List, [],
  ◌∷◌, ◌++◌, ok, length, ◌==◌, ltb, leb, ℤ, Bool-cases, ap, sym, All,
}
use uth_operating_systems.Links.{Ptr}
use uth_operating_systems.Slob.{page_units, page_base, slob_next}
use uth_operating_systems.Slob.Free.{free_front, free_loop}
use uth_operating_systems.Slob.Encoding.{Free, Free-slob_units, Free-slob_next, set_slob-Free}
use uth_operating_systems.Slob.Blocks.{Block, Seg, Seg-behind}

-- The unit at `x` belongs to a block of the list.
abbrev pub covers : List Block → Ptr → Bool
covers [] x = false
covers (c ∷ bs) x = (leb c.0 x && ltb x (c.0 + c.1)) || covers bs x

pub covers-append :
    (us vs : List Block) (x : Ptr) → covers (us ++ vs) x ≡ (covers us x || covers vs x)
covers-append [] vs x = refl
covers-append (u ∷ us) vs x = ground (arith, covers-append us vs x)

-- The blocks of the list and the one at `b` have no unit in common.
abbrev pub Apart : (b n : ℕ) → List Block → Type 0
Apart b n bs = All (λ c. (c.0 + c.1 ≤ b) ⊎ (b + n ≤ c.0)) bs

-- After the block of `n` units at `b` has come to the free blocks `bs`: the memory holds a list of
-- free blocks from `q` that covers the old ones and the new one.
pub record Inserted (e b n : ℕ) (bs : List Block) (m : Ptr → ℤ) (q : Ptr) : Type 0 where
  pub blocks : List Block
  pub list : Seg m e q blocks e
  pub covered : (x : Ptr) → covers blocks x ≡ (covers ((b, n) ∷ []) x || covers bs x)

pub free_front-Inserted :
    (m : Ptr → ℤ) (e p b n : ℕ) (c : Block) (bs : List Block)
    → Seg m e p (c ∷ bs) e
    → 0 < n
    → page_base b + page_units ≡ e
    → b < p
    → b + n ≤ p
    → Inserted e b n (c ∷ bs) (free_front m b n p) b
unfolding free_front
free_front-Inserted m e p b n c bs s some_units w before apart =
    let (i, w0, l0, r, f, z, t) = s in
    let own = Free-slob_units m c.0 c.1 r f in
    let next = Free-slob_next m c.0 c.1 r f in
    let few : n ≤ page_units = omega (arith, f.high) in
    elim (Bool-cases (b + n == p)) [
      | inl x ↦
          let joined : n + c.1 ≤ page_units = ground (arith, f.high) in
          let g =
            set_slob-Free m b (n + c.1) r (omega arith) joined (omega (arith, f.low))
              (omega (arith, f.high)) in
          let t1 = Seg-behind m e r bs e b (n + c.1) r t (omega arith) joined (ground arith) in
          rw (x, ← i, own, next)
            (record {
              blocks = (b, n + c.1) ∷ bs;
              list = (refl, w, omega arith, r, g, ground arith, t1);
              covered = λ y. ground arith;
            })
      | inr y ↦
          let g =
            set_slob-Free m b n p some_units few (omega (arith, f.low)) (omega (arith, f.high)) in
          rw y (record {
            blocks = (b, n) ∷ c ∷ bs;
            list = (
              refl,
              w,
              some_units,
              p,
              g,
              apart,
              Seg-behind m e p (c ∷ bs) e b n p s some_units few apart,
            );
            covered = λ y. ground arith;
          })
    ]

-- The block behind which `b` belongs, and what is known of it.
pub record Place (m : Ptr → ℤ) (e p b : Ptr) (bs : List Block) : Type 0 where
  pub before : List Block
  pub addr : Ptr
  pub size : ℕ
  pub next : Ptr
  pub after : List Block
  pub whole : before ++ (addr, size) ∷ after ≡ bs
  pub front : Seg m e p before addr
  pub page_end : page_base addr + page_units ≡ e
  pub sized : 0 < size
  pub cell : Free m addr size next
  pub gap : addr + size ≤ next
  pub back : Seg m e next after e
  pub below : addr < b
  pub above : b ≤ next

pub free_loop-Place :
    (fuel : ℕ) (m : Ptr → ℤ) (e p b : Ptr) (c : Block) (bs : List Block)
    → Seg m e p (c ∷ bs) e
    → p < b
    → b < e
    → length bs < fuel
    → (w : Place m e p b (c ∷ bs)) × (free_loop fuel m b p (slob_next m p) ≡ ok (w.addr, w.next))
unfolding free_loop
free_loop-Place zero m e p b c bs s low high h = absurd (omega arith)
free_loop-Place (suc fuel) m e p b c [] (i, w, n, r, f, z, t) low high h =
    let stops : ltb r b ≡ false = ground arith in
    (
      record {
        before = [];
        addr = c.0;
        size = c.1;
        next = r;
        after = [];
        whole = refl;
        front = sym i;
        page_end = w;
        sized = n;
        cell = f;
        gap = z;
        back = t;
        below = omega (arith, i);
        above = omega (arith, t);
      },
      rw (← i, Free-slob_next m c.0 c.1 r f, stops) refl,
    )
free_loop-Place (suc fuel) m e p b c (d ∷ bs) (i, w, n, r, f, z, t) low high h =
    elim (Bool-cases (ltb r b)) [
      | inl y ↦
          let (q, run) = free_loop-Place fuel m e r b d bs t (ground arith) high (omega arith) in
          (
            record {
              before = c ∷ q.before;
              addr = q.addr;
              size = q.size;
              next = q.next;
              after = q.after;
              whole = ap (λ l. c ∷ l) q.whole;
              front = (i, w, n, r, f, z, q.front);
              page_end = q.page_end;
              sized = q.sized;
              cell = q.cell;
              gap = q.gap;
              back = q.back;
              below = q.below;
              above = q.above;
            },
            rw (← i, Free-slob_next m c.0 c.1 r f, y) run,
          )
      | inr y ↦ (
        record {
          before = [];
          addr = c.0;
          size = c.1;
          next = r;
          after = d ∷ bs;
          whole = refl;
          front = sym i;
          page_end = w;
          sized = n;
          cell = f;
          gap = z;
          back = t;
          below = omega (arith, i);
          above = ground arith;
        },
        rw (← i, Free-slob_next m c.0 c.1 r f, y) refl,
      )
    ]
