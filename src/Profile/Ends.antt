-- ===== src/Profile/Ends.antt =====
-- The parser of a profile that ends with a newline comes to an end, with nice values in their
-- range (`readProfile` of hw2/Scheduler_VM/cpuinit.c).
use uth_operating_systems.Base.{ℕ, ◌+◌, ◌<◌, ◌≡◌, ◌⊎◌, true, length, ℤ}
use uth_operating_systems.Profile.Commands.{Profile}
use uth_operating_systems.Profile.Parse.{Turn, next, failed}
use uth_operating_systems.Profile.Progress.{ends_line}
use uth_operating_systems.Profile.Nice.{AllNice, Fine}

module _ (garbage : ℤ) where
  -- What a turn leaves: the function returns, or the loop goes on with less to read or at the end.
  abbrev pub Onward : ℕ → Turn → Type 0
  Onward n (next s) = AllNice s × ((s.file.eof ≡ true) ⊎ (Fine n s))
  Onward n (failed s) = AllNice s

  -- A turn at a byte reads it.
  abbrev Less : ℕ → Turn → Type 0
  Less n (next s) =
      AllNice s
      × ((s.file.eof ≡ true) ⊎ ((ends_line s.file.rest ≡ true) × (length s.file.rest < n)))
  Less n (failed s) = AllNice s

  -- The loop has fuel for each byte that is left.
  abbrev Fuelled : ℕ → Profile → Type 0
  Fuelled fuel s =
      ((s.file.eof ≡ true) × (0 < fuel))
      ⊎ ((ends_line s.file.rest ≡ true) × (length s.file.rest + 1 < fuel))
