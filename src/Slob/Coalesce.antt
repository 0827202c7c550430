-- ===== src/Slob/Coalesce.antt =====
-- How `slob_free` of hw3/slob.c joins a block with the free blocks that it touches.
use uth_operating_systems.Base.{
  ℕ, ◌+◌, ◌<◌, ◌≤◌, ◌≡◌, refl, true, false, not, ◌&&◌, ◌||◌, inl, inr, arith, List, [], ◌∷◌, ◌++◌,
  ◌==◌, if◌then◌else◌, ℤ, Bool-cases, ap, ◌∙◌, sym,
}
use uth_operating_systems.Links.{Ptr}
use uth_operating_systems.Slob.{page_units, page_base, set_slob, slob_units, slob_next, slob_last}
use uth_operating_systems.Slob.Free.{free_between}
use uth_operating_systems.Slob.Encoding.{
  Free-slob_units, Free-slob_next, Free-set_slob, set_slob-Free,
}
use uth_operating_systems.Slob.Blocks.{Block, Seg, Seg-join, Seg-before, Seg-behind, slob_last-end}
use uth_operating_systems.Slob.Insert.{Inserted, covers, covers-append, Place}

-- The block at `b`, joined with the block that follows if that one touches it.
pub record Joined (m : Ptr → ℤ) (e b n : ℕ) (vs : List Block) (units next : ℕ) : Type 0 where
  pub after : List Block
  pub sized : 0 < units
  pub few : units ≤ page_units
  pub gap : b + units ≤ next
  pub inside : next ≤ e
  pub back : Seg m e next after e
  pub covered : (x : Ptr) → covers ((b, units) ∷ after) x ≡ (covers ((b, n) ∷ []) x || covers vs x)

pub join_next-Joined :
    (m : Ptr → ℤ) (e a r b n : ℕ) (vs : List Block)
    → slob_last m a ≡ (r == e)
    → Seg m e r vs e
    → page_base b + page_units ≡ e
    → 0 < n
    → b + n ≤ r
    → let joins = not (slob_last m a) && (b + n == r) in
      Joined m e b n vs
        (if joins then n + slob_units m r else n)
        (if joins then slob_next m r else r)
join_next-Joined m e a r b n [] last t w sized gap =
    let end : (r == e) ≡ true = ground arith in
    rw (last, end)
      (record {
        after = [];
        sized = sized;
        few = omega (arith, t, w);
        gap = gap;
        inside = omega (arith, t);
        back = t;
        covered = λ x. ground arith;
      })
join_next-Joined m e a r b n (d ∷ vs) last (i, w', l, r', f, z, t) w sized gap =
    let more : (r == e) ≡ false = ground (arith, f.high) in
    elim (Bool-cases (b + n == r)) [
      | inl y ↦
          rw (last, more, y, ← i, Free-slob_units m d.0 d.1 r' f, Free-slob_next m d.0 d.1 r' f)
            (record {
              after = vs;
              sized = omega arith;
              few = ground (arith, f.high);
              gap = ground arith;
              inside = omega (arith, f.high);
              back = t;
              covered = λ x. ground arith;
            })
      | inr y ↦
          rw (last, more, y)
            (record {
              after = d ∷ vs;
              sized = sized;
              few = omega (arith, f.high, i);
              gap = gap;
              inside = omega (arith, f.high, i);
              back = (i, w', l, r', f, z, t);
              covered = λ x. ground arith;
            })
    ]

close-Inserted :
    (m : Ptr → ℤ) (e p b n : ℕ) (bs : List Block) (w : Place m e p b bs) (units next : ℕ)
    → Joined m e b n w.after units next
    → page_base b + page_units ≡ e
    → w.addr + w.size ≤ b
    → let m1 = set_slob b units next m in
      Inserted e b n bs
        (if w.addr + slob_units m1 w.addr == b
          then set_slob w.addr (slob_units m1 b + slob_units m1 w.addr) (slob_next m1 b) m1
          else set_slob w.addr (slob_units m1 w.addr) b m1)
        p
close-Inserted m e p b n bs w units next j base clear =
    let a = w.addr in
    let k = w.size in
    let m1 = set_slob b units next m in
    let gb =
      set_slob-Free m b units next j.sized j.few (omega (arith, j.gap, j.sized))
        (omega (arith, j.inside)) in
    let ga = Free-set_slob m a k w.next b units next w.cell j.sized j.few (inl clear) in
    let front =
      Seg-before m e p w.before a b units next w.front j.sized j.few (omega (arith, w.below)) in
    let back = Seg-behind m e next j.after e b units next j.back j.sized j.few j.gap in
    let old : (x : Ptr) → covers bs x ≡ (covers w.before x || covers ((a, k) ∷ w.after) x) =
      λ x. ap (λ l. covers l x) (sym w.whole) ∙ covers-append w.before ((a, k) ∷ w.after) x in
    let same : page_base a ≡ page_base b = omega (arith, w.page_end) in
    let few : k ≤ page_units = omega (arith, j.gap, j.inside, same) in
    elim (Bool-cases (a + k == b)) [
      | inl y ↦
          let all : units + k ≤ page_units = ground (arith, j.gap, j.inside, same) in
          let g =
            set_slob-Free m1 a (units + k) next (omega (arith, j.sized)) all
              (omega (arith, j.gap, same)) (omega (arith, j.inside, same)) in
          let m2 = set_slob a (units + k) next m1 in
          rw
            (
              Free-slob_units m1 a k w.next ga,
              Free-slob_units m1 b units next gb,
              Free-slob_next m1 b units next gb,
              y,
            )
            (record {
              blocks = w.before ++ (a, units + k) ∷ j.after;
              list =
                  Seg-join m2 e p w.before ((a, units + k) ∷ j.after) a e
                    (Seg-before m1 e p w.before a a (units + k) next front (omega (arith, j.sized))
                      all (omega arith))
                    (
                      refl,
                      w.page_end,
                      omega (arith, j.sized),
                      next,
                      g,
                      ground (arith, j.gap),
                      Seg-behind m1 e next j.after e a (units + k) next back
                          (omega (arith, j.sized)) all (ground (arith, j.gap)),
                    );
              covered = λ x.
                  ground (
                    arith,
                    covers-append w.before ((a, units + k) ∷ j.after) x,
                    old x,
                    j.covered x,
                  );
            })
      | inr y ↦
          let g =
            set_slob-Free m1 a k b w.sized few (omega (arith, w.below, same))
              (omega (arith, same, j.gap, j.inside)) in
          let g2 = Free-set_slob m1 b units next a k b gb w.sized few (inr clear) in
          let m2 = set_slob a k b m1 in
          rw (Free-slob_units m1 a k w.next ga, y)
            (record {
              blocks = w.before ++ (a, k) ∷ (b, units) ∷ j.after;
              list =
                  Seg-join m2 e p w.before ((a, k) ∷ (b, units) ∷ j.after) a e
                    (Seg-before m1 e p w.before a a k b front w.sized few (omega arith))
                    (
                      refl,
                      w.page_end,
                      w.sized,
                      b,
                      g,
                      clear,
                      (
                        refl,
                        base,
                        j.sized,
                        next,
                        g2,
                        j.gap,
                        Seg-behind m1 e next j.after e a k b back w.sized few
                            (omega (arith, j.gap)),
                      ),
                    );
              covered = λ x. ground (
                arith,
                covers-append w.before ((a, k) ∷ (b, units) ∷ j.after) x,
                old x,
                j.covered x,
              );
            })
    ]

pub free_between-Inserted :
    (m : Ptr → ℤ) (e p b n : ℕ) (bs : List Block) (w : Place m e p b bs)
    → page_base b + page_units ≡ e
    → 0 < n
    → w.addr + w.size ≤ b
    → b + n ≤ w.next
    → Inserted e b n bs (free_between m b n w.addr w.next) p
unfolding free_between
free_between-Inserted m e p b n bs w base sized clear gap =
    let a = w.addr in
    let k = w.size in
    let last : slob_last m a ≡ (w.next == e) =
      slob_last-end m a k w.next w.cell ∙ ap (λ v. w.next == v) w.page_end in
    let joins = not (slob_last m a) && (b + n == w.next) in
    close-Inserted m e p b n bs w (if joins then n + slob_units m w.next else n)
      (if joins then slob_next m w.next else w.next)
      (join_next-Joined m e a w.next b n w.after last w.back base sized gap) base clear
