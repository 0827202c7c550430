-- ===== src/Main/Cleanup.antt =====
-- `cleanuptask` of hw2/Scheduler_VM/cpu.c frees the threads below a thread.
use uth_operating_systems.Base.{
  ℕ, zero, suc, ◌≤◌, ◌<◌, ◌≡◌, refl, ap, ◌∙◌, true, false, List, ◌∷◌, ◌++◌, arith, ◌==◌, has,
  has-append, ◌∉◌, length, length-append, Distinct, Distinct-left, Distinct-right, Distinct-apart,
  remove, if◌then◌else◌, ok, Returns, update,
}
use uth_operating_systems.Links.{Ptr, null}
use uth_operating_systems.Main.{cleanup_loop, cleanup_task, release}
use uth_operating_systems.Main.Forest.{Forest, bare, tree, roots, members, Spans, Spans-congr}
use uth_operating_systems.Sched.{Double, Vm}
use uth_operating_systems.Sched.Tasks.{free}

-- The threads `ms` have been freed, which were on the list of `q` and below; no other memory has
-- changed but their lists and that of `q`.
pub record Cleared {F : Double} (q : Ptr) (ms : List Ptr) (s s' : Vm F) : Type 0 where
  pub freed : (p : Ptr) → s'.live p ≡ (if has p ms then false else s.live p)
  pub kept : (p : Ptr) → p ∉ (q ∷ ms) → s'.to_spawn p ≡ s.to_spawn p
  pub others : s' ≡ record s { live = s'.live; to_spawn = s'.to_spawn }

module _ {F : Double} where
  cleanup_task-loop :
      (k : ℕ) (p : Ptr) (xs : List Ptr) (s : Vm F)
      → s.to_spawn p ≡ xs
      → cleanup_task (suc k) p s ≡ cleanup_loop (cleanup_task k) p xs s
  unfolding cleanup_task
  cleanup_task-loop k p xs s e = ap (λ ys. cleanup_loop (cleanup_task k) p ys s) e

  pub release-free :
      (p : Ptr) (s : Vm F) → (p == null) ≡ false → s.live p ≡ true → release p s ≡ ok (free p s)
  unfolding release
  release-free p s z a = rw (z, a) refl

  -- The list of `q` without the thread `p`.
  abbrev without : (q p : Ptr) → Vm F → Vm F
  without q p s = record s { to_spawn = update s.to_spawn q (remove p (s.to_spawn q)) }

  without-others :
      (q p c : Ptr) (s : Vm F) → (c == q) ≡ false → (without q p s).to_spawn c ≡ s.to_spawn c
  without-others q p c s e = rw e refl

  without-Spans :
      (q p : Ptr) (f : Forest) (s : Vm F)
      → q ∉ members f
      → Spans s.to_spawn f
      → Spans (without q p s).to_spawn f
  without-Spans q p f s o h =
      Spans-congr s.to_spawn (without q p s).to_spawn f
        (λ c i. without-others q p c s (ground arith)) h

  -- A thread is freed after those below it, and before those behind it.
  Cleared-tree :
      (q p : Ptr) (fs gs : List Ptr) (s s1 s2 : Vm F)
      → Cleared p fs (without q p s) s1
      → Cleared q gs (free p s1) s2
      → Cleared q (p ∷ fs ++ gs) s s2
  unfolding free
  Cleared-tree q p fs gs s s1 s2 c d = record {
    freed = λ x. ground (arith, c.freed x, d.freed x, has-append x fs gs);
    kept = λ x o.
        d.kept x (ground (arith, has-append x fs gs))
        ∙ c.kept x (ground (arith, has-append x fs gs))
        ∙ without-others q p x s (ground arith);
    others =
        d.others ∙ ap (λ (v : Vm F). record v { live = s2.live; to_spawn = s2.to_spawn }) c.others;
  }

  cleanup_loop-Cleared :
      (fuel : ℕ) (q : Ptr) (f : Forest) (s : Vm F)
      → Spans s.to_spawn f
      → Distinct (q ∷ members f)
      → null ∉ members f
      → ((p : Ptr) → has p (members f) ≡ true → s.live p ≡ true)
      → length (members f) ≤ fuel
      → Returns (Cleared q (members f) s) (cleanup_loop (cleanup_task fuel) q (roots f) s)
  unfolding cleanup_loop
  cleanup_loop-Cleared fuel q bare s h d z a few =
      (s, refl, record { freed = λ p. refl; kept = λ p o. refl; others = refl })
  cleanup_loop-Cleared zero q (tree p f g) s h d z a few = absurd (omega (arith, few))
  cleanup_loop-Cleared (suc k) q (tree p f g) s h d z a few =
      let fs = members f in
      let gs = members g in
      let s0 = without q p s in
      let at = λ (x : Ptr). has-append x fs gs in
      let size = length-append fs gs in
      let below =
        cleanup_loop-Cleared k p f s0 (without-Spans q p f s (ground (arith, at q, d.0)) h.1)
          (ground (arith, at p, d.1.0), Distinct-left fs gs d.1.1) (ground (arith, at null, z))
          (λ x i. a x (ground (arith, at x, i))) (omega (arith, size, few)) in
      let s1 = below.0 in
      let enter =
        cleanup_task-loop k p (roots f) s0 (without-others q p p s (ground arith) ∙ h.0)
        ∙ below.1 in
      let unlike = λ (x : Ptr) (i : has x gs ≡ true). Distinct-apart fs gs x d.1.1 i in
      let gone =
        release-free p s1 (ground (arith, z)) (ground (arith, below.2.freed p, a p, at p, d.1.0)) in
      let behind =
        cleanup_loop-Cleared (suc k) q g (free p s1)
          (Spans-congr s.to_spawn (free p s1).to_spawn g
            (λ x i.
              below.2.kept x (ground (arith, at x, unlike x i, d.1.0))
              ∙ without-others q p x s (ground (arith, at q, d.0)))
            h.2)
          (ground (arith, at q, d.0), Distinct-right fs gs d.1.1) (ground (arith, at null, z))
          (λ x i. ground (arith, below.2.freed x, a x, at x, i, unlike x i, at p, d.1.0))
          (omega (arith, size, few)) in
      (behind.0, rw (enter, gone) behind.1, Cleared-tree q p fs gs s s1 behind.0 below.2 behind.2)

-- The threads below `q` are a forest `f` in the memory, all different and allocated.
pub record Planted {F : Double} (q : Ptr) (f : Forest) (s : Vm F) : Type 0 where
  pub list : s.to_spawn q ≡ roots f
  pub spans : Spans s.to_spawn f
  pub distinct : Distinct (q ∷ members f)
  pub not_null : null ∉ members f
  pub live : (p : Ptr) → has p (members f) ≡ true → s.live p ≡ true

module _ {F : Double} where
  pub cleanup_task-Cleared :
      (fuel : ℕ) (q : Ptr) (f : Forest) (s : Vm F)
      → Planted q f s
      → length (members f) < fuel
      → Returns (Cleared q (members f) s) (cleanup_task fuel q s)
  cleanup_task-Cleared zero q f s h few = absurd (omega (arith, few))
  cleanup_task-Cleared (suc k) q f s h few =
      let done =
        cleanup_loop-Cleared k q f s h.spans h.distinct h.not_null h.live (omega (arith, few)) in
      (done.0, cleanup_task-loop k q (roots f) s h.list ∙ done.1, done.2)
