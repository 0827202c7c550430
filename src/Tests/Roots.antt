-- ===== src/Tests/Roots.antt =====
-- Three processes of which one is process 1, and one that is its own parent, for hw1.
use uth_operating_systems.Base.{◌≡◌, refl, [], ◌∷◌, arith, ok, out_of_fuel, ◌==◌, if◌then◌else◌}
use uth_operating_systems.Links.{Ptr}
use uth_operating_systems.Roots.{Process, find_roots, find_roots-endless}

-- The process at address `p` is process `p`, and its parent the half of it; all others are 1.
abbrev family : Ptr → Process
family p = record {
  pid = if p == 7 then 7 else if p == 3 then 3 else 1;
  real_parent = if p == 7 then 3 else 1;
}

abbrev swapper : Ptr → Process
swapper p = record { pid = 0; real_parent = p }

find_roots-endless_example : find_roots 100 swapper 9 ≡ out_of_fuel
find_roots-endless_example = find_roots-endless 100 swapper 9 (λ e. absurd (ground arith)) refl

find_roots_runs : find_roots 4 family 7 ≡ ok (7 ∷ 3 ∷ 1 ∷ [])
unfolding find_roots
find_roots_runs = refl
