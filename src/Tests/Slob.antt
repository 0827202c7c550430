-- ===== src/Tests/Slob.antt =====
-- A page with three free blocks, for hw3: 2 units at 4100, 6 at 4110, 1 at 4200, in the page from 4096
-- to 6144.
use uth_operating_systems.Base.{
  ◌≡◌, refl, [], ◌∷◌, inl, inr, arith, Returns, ◌==◌, if◌then◌else◌, pos, negsuc,
}
use uth_operating_systems.Slob.{Slob, free_slob_small, set_slob, slob_units, slob_next}
use uth_operating_systems.Slob.Free.{slob_free}
use uth_operating_systems.Slob.Alloc.{slob_alloc, search_pages, start}
use uth_operating_systems.Slob.Pages.{Ready, Searched, search_pages-Searched}
use uth_operating_systems.Slob.Encoding.{set_slob-read}
use uth_operating_systems.Slob.Blocks.{Seg}

abbrev pub slob : Slob
slob = record {
  memory = λ a.
      if a == 4100
      then pos 2
      else if a == 4101
      then pos 14
      else if a == 4110
      then pos 6
      else if a == 4111
      then pos 104
      else if a == 4200
      then negsuc 2047
      else pos 7;
  page = λ p. record { units = 9; freelist = 4100 };
  pages = λ l. 2 ∷ [];
  page_free = λ p. p == 2;
  page_slab = λ p. p == 2;
  total_free_mem = 0;
  total_alloc_mem = 8;
}

pub slob-Seg : Seg slob.memory 6144 4100 ((4100, 2) ∷ (4110, 6) ∷ (4200, 1) ∷ []) 6144
slob-Seg = (
  refl,
  refl,
  omega arith,
  4110,
  record { low = omega arith; high = omega arith; cells = inr (omega arith, refl, refl) },
  omega arith,
  (
    refl,
    refl,
    omega arith,
    4200,
    record { low = omega arith; high = omega arith; cells = inr (omega arith, refl, refl) },
    omega arith,
    (
      refl,
      refl,
      omega arith,
      6144,
      record { low = omega arith; high = omega arith; cells = inl (refl, refl) },
      omega arith,
      refl,
    ),
  ),
)

set_slob-read_example :
    (slob_units (set_slob 4096 5 4100 slob.memory) 4096 ≡ 5)
    × (slob_next (set_slob 4096 5 4100 slob.memory) 4096 ≡ 4100)
set_slob-read_example =
    set_slob-read slob.memory 4096 5 4100 (omega arith) (omega arith) (omega arith) (omega arith)

-- Run by the code: the three blocks are one of 16 units, and a request for 3 units gets 4110.
slob_free_runs :
    Returns
      (λ st'. (slob_units st'.memory 4100 ≡ 16) × (slob_next st'.memory 4100 ≡ 4200))
      (slob_free 4 4102 16 slob)
unfolding slob_free slob_units slob_next
slob_free_runs = (_, refl, (refl, refl))

slob_alloc_runs :
    Returns
      (λ r. (r.0 ≡ 4110) × (slob_next r.1.memory 4100 ≡ 4113) × (r.1.total_free_mem ≡ 36))
      (slob_alloc 4 6 2 0 slob)
unfolding slob_alloc slob_next
slob_alloc_runs = (_, refl, (refl, refl, refl))

slob-Ready : Ready (record slob { total_free_mem = 0 }) 4 2
slob-Ready = record {
  page_end = 6144;
  first = (4100, 2);
  others = (4110, 6) ∷ (4200, 1) ∷ [];
  list = slob-Seg;
  short = omega arith;
  high = omega arith;
  within = (omega arith, (omega arith, (omega arith, tt)));
  few = omega arith;
}

search_pages-Searched_example :
    Returns
      (λ r. Searched 4 6 2 (2 ∷ []) slob r)
      (search_pages 4 6 2 free_slob_small [] (2 ∷ []) start slob)
search_pages-Searched_example =
    search_pages-Searched 4 6 2 free_slob_small [] (2 ∷ []) slob (slob-Ready, tt) (omega arith)
