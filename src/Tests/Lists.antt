-- ===== src/Tests/Lists.antt =====
-- Concrete circular lists for list.h.
use uth_operating_systems.Base.{refl, [], ◌∷◌, ◌==◌, if◌then◌else◌}
use uth_operating_systems.Links.{Links}
use uth_operating_systems.Links.Chain.{Ring}

-- 100 → 3 → 4 → 100 and 200 → 1 → 2 → 200.
abbrev two_lists : Links
two_lists = record {
  next = λ a.
      if a == 100
      then 3
      else if a == 3
      then 4
      else if a == 4
      then 100
      else if a == 200
      then 1
      else if a == 1
      then 2
      else 200;
  prev = λ a.
      if a == 100
      then 4
      else if a == 4
      then 3
      else if a == 3
      then 100
      else if a == 200
      then 2
      else if a == 2
      then 1
      else 200;
}

first_list : Ring two_lists 100 (3 ∷ 4 ∷ [])
first_list = record {
  chain = (refl, refl, (refl, refl, (refl, refl)));
  distinct = (refl, (refl, (refl, tt)));
}

second_list : Ring two_lists 200 (1 ∷ 2 ∷ [])
second_list = record {
  chain = (refl, refl, (refl, refl, (refl, refl)));
  distinct = (refl, (refl, (refl, tt)));
}
