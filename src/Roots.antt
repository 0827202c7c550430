-- ===== src/Roots.antt =====
-- The system call of hw1/kernel_files/find_roots.c, which prints a process and its ancestors up to
-- process 1. The lines that it prints are the result, by their process numbers.
use uth_operating_systems.Base.{
  ℕ, zero, suc, ◌≡◌, ◌≢◌, refl, List, [], ◌∷◌, Run, ok, out_of_fuel, ◌>>=◌, ◌==◌, ==-ne,
  if◌then◌else◌,
}
use uth_operating_systems.Links.{Ptr}

-- The fields of `struct task_struct` that the call reads, but for the name.
pub record Process : Type 0 where
  pub pid : ℕ
  pub real_parent : Ptr

-- The loop, from `tmp`, and the line behind it.
unfoldable pub walk_up : ℕ → (Ptr → Process) → (tmp : Ptr) → Run (List ℕ)
walk_up zero ps tmp = out_of_fuel
walk_up (suc fuel) ps tmp =
    let rest = walk_up fuel ps (ps tmp).real_parent in
    if (ps tmp).pid == 1 then ok ((ps tmp).pid ∷ []) else (rest >>= λ ids. ok ((ps tmp).pid ∷ ids))

unfoldable pub find_roots : ℕ → (Ptr → Process) → (current : Ptr) → Run (List ℕ)
unfolding walk_up
find_roots fuel ps current = walk_up fuel ps current

-- The lines `ids` are those of `p` and its ancestors, and end at process 1.
pub data Ancestry (ps : Ptr → Process) : Ptr → List ℕ → Type 0 where
  at_root : {p : Ptr} → (ps p).pid ≡ 1 → Ancestry ps p (1 ∷ [])
  below :
      {p : Ptr} {ids : List ℕ}
      → (ps p).pid ≢ 1
      → Ancestry ps (ps p).real_parent ids
      → Ancestry ps p ((ps p).pid ∷ ids)

-- If a process other than process 1 is its own parent, `find_roots` from it does not return with
-- any fuel.
pub find_roots-endless :
    (fuel : ℕ) (ps : Ptr → Process) (p : Ptr)
    → (ps p).pid ≢ 1
    → (ps p).real_parent ≡ p
    → find_roots fuel ps p ≡ out_of_fuel
unfolding find_roots
find_roots-endless zero ps p n e = refl
find_roots-endless (suc fuel) ps p n e =
    rw (==-ne (ps p).pid 1 n, e, find_roots-endless fuel ps p n e) refl
