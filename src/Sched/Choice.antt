-- ===== src/Sched/Choice.antt =====
-- The loops of `Sjf_algo` and `min_burst_max_waiting_in_rq`, hw2/Scheduler_VM/sjf_lib.c, over the
-- tasks behind the head of the runqueue.
use uth_operating_systems.Base.{
  ℕ, zero, suc, ◌<◌, ◌≡◌, refl, subst, true, false, List, [], ◌∷◌, arith, ok, Returns, ◌==◌,
  if◌then◌else◌, length, has, ◌∉◌, first_of_list, All, Bool-cases, inl, inr, ◌⊎◌,
}
use uth_operating_systems.Links.{Ptr}
use uth_operating_systems.Links.Chain.{Chain, Ring, Chain-next}
use uth_operating_systems.Sched.{Double, IsOrder, Vm, sched_clock}
use uth_operating_systems.Sched.Sjf.{sjf_loop, sjf_algo, min_loop, min_burst_max_waiting_in_rq}

module _ {F : Double} (s : Vm F) where
  abbrev pub good : Ptr → F.D
  good p = (s.task p).goodness

  abbrev pub waits : Ptr → F.D
  waits p = (s.task p).waiting_in_rq

  abbrev pub expects : Ptr → F.D
  expects p = (s.task p).exp_burst

module _ {F : Double} (o : IsOrder F) where
  open F use {D, of_ull, sub, lt}

  -- No task of the list has a value less than `v`.
  abbrev pub Least : (Ptr → D) → D → List Ptr → Type 0
  Least val v ys = All (λ y. lt (val y) v ≡ false) ys

  -- `w` is `v` or less.
  abbrev AtMost : D → D → Type 0
  AtMost w v = (w ≡ v) ⊎ (lt w v ≡ true)

  -- What is not less than a value is not less than one that is at most that value.
  lower : (x v w : D) → AtMost w v → lt x v ≡ false → lt x w ≡ false
  lower x v w (inl e) k = rw e k
  lower x v w (inr h) k = elim (Bool-cases (lt x w)) [
    | inl t ↦ ground (arith, o.trans x w v t h)
    | inr f ↦ f
  ]

  asym : (v w : D) → AtMost w v → lt v w ≡ false
  asym v w h = lower v v w h (o.irrefl v)

  under : (u v w : D) → AtMost u v → lt v w ≡ true → AtMost u w
  under u v w (inl e) k = inr (rw e k)
  under u v w (inr h) k = inr (o.trans u v w h k)

  module _ (s : Vm F) where
    sjf_loop-Least :
        (fuel : ℕ) (p tmp : Ptr) (ys : List Ptr)
        → Chain s.links p ys s.head
        → s.head ∉ ys
        → length ys < fuel
        → Returns
            (λ c.
              (has c (tmp ∷ ys) ≡ true)
              × AtMost (good s c) (good s tmp)
              × Least (good s) (good s c) ys)
            (sjf_loop fuel s (first_of_list ys s.head) tmp (good s tmp))
    unfolding sjf_loop
    sjf_loop-Least zero p tmp ys c h f = absurd (omega arith)
    sjf_loop-Least (suc fuel) p tmp [] c h f = (tmp, ground arith, (ground arith, inl refl, tt))
    sjf_loop-Least (suc fuel) p tmp (y ∷ ys) c h f =
        let e = (Chain-next s.links y [] ys s.head c.2).0 in
        let inside : (y == s.head) ≡ false = ground arith in
        elim (Bool-cases (lt (good s y) (good s tmp))) [
          | inl less ↦
              let (t, run, (i, m, l)) =
                sjf_loop-Least fuel y y ys c.2 (ground arith) (omega arith) in
              rw (inside, less, e)
                (
                  t,
                  run,
                  (
                    ground arith,
                    under (good s t) (good s y) (good s tmp) m less,
                    (asym (good s y) (good s t) m, l),
                  ),
                )
          | inr more ↦
              let (t, run, (i, m, l)) =
                sjf_loop-Least fuel y tmp ys c.2 (ground arith) (omega arith) in
              rw (inside, more, e)
                (t, run, (ground arith, m, (lower (good s y) (good s tmp) (good s t) m more, l)))
        ]

    -- For a strict order on the floating point values and a runqueue with tasks behind its head,
    -- `Sjf_algo` (with as much fuel as there are such tasks) returns one of them, and none of them
    -- has a lesser goodness.
    pub sjf_algo-Least :
        (fuel : ℕ) (x : Ptr) (xs : List Ptr)
        → Ring s.links s.head (x ∷ xs)
        → length xs < fuel
        → Returns
            (λ c. (has c (x ∷ xs) ≡ true) × Least (good s) (good s c) (x ∷ xs))
            (sjf_algo fuel s)
    unfolding sjf_algo
    sjf_algo-Least fuel x xs r f =
        let e = (Chain-next s.links x [] xs s.head r.chain.2).0 in
        let (t, run, (i, m, l)) =
          sjf_loop-Least fuel x x xs r.chain.2 (ground (arith, r.distinct)) f in
        rw (r.chain.0, e) (t, run, (i, (asym (good s x) (good s t) m, l)))

  -- A least value over `t ∷ ys`, where it is reached.
  abbrev pub Minimum : (Ptr → D) → Ptr → Ptr → List Ptr → Type 0
  Minimum val c t ys = (has c (t ∷ ys) ≡ true) × AtMost (val c) (val t) × Least val (val c) ys

  abbrev pick : (Ptr → D) → Ptr → Ptr → Ptr
  pick val t y = if lt (val y) (val t) then y else t

  pick_lem :
      (val : Ptr → D) (t y : Ptr)
      → (if lt (val y) (val t) then val y else val t) ≡ val (pick val t y)
  pick_lem val t y = elim (Bool-cases (lt (val y) (val t))) [
    | inl e ↦ rw e refl
    | inr e ↦ rw e refl
  ]

  Minimum-pick :
      (val : Ptr → D) (c t y : Ptr) (ys : List Ptr)
      → Minimum val c (pick val t y) ys
      → Minimum val c t (y ∷ ys)
  Minimum-pick val c t y ys h = elim (Bool-cases (lt (val y) (val t))) [
    | inl e ↦
        let (i, m, l) = subst (λ k. Minimum val c k ys) (picked e) h in
        (ground arith, under (val c) (val y) (val t) m e, (asym (val y) (val c) m, l))
    | inr e ↦
        let (i, m, l) = subst (λ k. Minimum val c k ys) (passed e) h in
        (ground arith, m, (lower (val y) (val t) (val c) m e, l))
  ]
    where
      picked : lt (val y) (val t) ≡ true → pick val t y ≡ y
      picked e = rw e refl

      passed : lt (val y) (val t) ≡ false → pick val t y ≡ t
      passed e = rw e refl

  module _ (s : Vm F) where
    min_loop-Minimum :
        (fuel : ℕ) (p t u : Ptr) (ys : List Ptr)
        → Chain s.links p ys s.head
        → s.head ∉ ys
        → length ys < fuel
        → (c : Ptr) × (d : Ptr) × (min_loop fuel s
              (first_of_list ys s.head)
              (waits s t)
              (expects s u)
            ≡ ok (expects s d, waits s c))
          × Minimum (waits s) c t ys
          × Minimum (expects s) d u ys
    unfolding min_loop
    min_loop-Minimum zero p t u ys c h f = absurd (omega arith)
    min_loop-Minimum (suc fuel) p t u [] c h f =
        (t, u, ground arith, (ground arith, inl refl, tt), (ground arith, inl refl, tt))
    min_loop-Minimum (suc fuel) p t u (y ∷ ys) c h f =
        let e = (Chain-next s.links y [] ys s.head c.2).0 in
        let inside : (y == s.head) ≡ false = ground arith in
        let (m, n, run, a, b) =
          min_loop-Minimum fuel y (pick (waits s) t y) (pick (expects s) u y) ys c.2 (ground arith)
            (omega arith) in
        (
          m,
          n,
          rw (inside, e, pick_lem (waits s) t y, pick_lem (expects s) u y) run,
          Minimum-pick (waits s) m t y ys a,
          Minimum-pick (expects s) n u y ys b,
        )

    -- For a strict order on the floating point values and a runqueue with tasks behind its head,
    -- `min_burst_max_waiting_in_rq` (with as much fuel as there are such tasks) returns the
    -- expected burst of a task there such that none has a lesser one, and the time since a task
    -- there last waited such that none waited earlier.
    pub min_burst_max_waiting_in_rq-Minimum :
        (fuel : ℕ) (x : Ptr) (xs : List Ptr)
        → Ring s.links s.head (x ∷ xs)
        → length xs < fuel
        → (c : Ptr) × (d : Ptr) × (min_burst_max_waiting_in_rq fuel s
            ≡ ok (expects s d, sub (of_ull (sched_clock s)) (waits s c)))
          × ((has c (x ∷ xs) ≡ true) × Least (waits s) (waits s c) (x ∷ xs))
          × ((has d (x ∷ xs) ≡ true) × Least (expects s) (expects s d) (x ∷ xs))
    unfolding min_burst_max_waiting_in_rq
    min_burst_max_waiting_in_rq-Minimum fuel x xs r f =
        let e = (Chain-next s.links x [] xs s.head r.chain.2).0 in
        let (c, d, run, (i, m, l), (j, n, k)) =
          min_loop-Minimum fuel x x x xs r.chain.2 (ground (arith, r.distinct)) f in
        (
          c,
          d,
          rw (r.chain.0, e, run) refl,
          (i, (asym (waits s x) (waits s c) m, l)),
          (j, (asym (expects s x) (expects s d) n, k)),
        )
