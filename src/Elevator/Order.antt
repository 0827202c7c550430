-- ===== src/Elevator/Order.antt =====
-- The order of the dispatch queue of hw4/elevator.c. The one-way elevator serves requests by their
-- distance from the boundary sector, upwards and with wrap-around.
use uth_operating_systems.Base.{
  ℕ, ◌+◌, ◌-◌, ◌%◌, ◌^◌, ◌≤◌, ◌<◌, ◌≡◌, subst, Bool, true, false, List, [], ◌∷◌, ◌++◌, ◌||◌, arith,
  Returns, leb, Bool-cases, inl, inr, length, All, ◌∉◌,
}
use uth_operating_systems.Links.{Ptr}
use uth_operating_systems.Links.Chain.{Ring}
use uth_operating_systems.Elevator.{Request, Queue}
use uth_operating_systems.Elevator.Dispatch.{stops, elv_dispatch_sort}
use uth_operating_systems.Elevator.Place.{
  any, kept_ahead, kept_ahead-overtaken, overtaken, place, place-All, place-barrier,
}
use uth_operating_systems.Elevator.Sort.{stop_at, elv_dispatch_sort-place}

module _ (key : Ptr → ℕ) where
  abbrev pub Ascending : List Ptr → Type 0
  Ascending [] = Unit {0}
  Ascending (x ∷ xs) = All (λ y. key x ≤ key y) xs × Ascending xs

  module _ (stop : Ptr → Bool) (rq : Ptr) where
    -- The test of the walk asks whether an entry comes before the request.
    abbrev Decides : List Ptr → Type 0
    Decides xs = All (λ x. stop x ≡ leb (key x) (key rq)) xs

    le_of_any :
        (k : ℕ) (xs : List Ptr)
        → Decides xs
        → All (λ y. k ≤ key y) xs
        → any stop xs ≡ true
        → k ≤ key rq
    le_of_any k [] d l h = absurd (ground arith)
    le_of_any k (x ∷ xs) d l h = ground (arith, le_of_any k xs d.1 l.1)

    after_of_none :
        (xs : List Ptr) → Decides xs → any stop xs ≡ false → All (λ y. key rq ≤ key y) xs
    after_of_none [] d h = tt
    after_of_none (x ∷ xs) d h = (ground arith, after_of_none xs d.1 (ground arith))

    place-Ascending : (xs : List Ptr) → Decides xs → Ascending xs → Ascending (place stop rq xs)
    place-Ascending [] d a = (tt, tt)
    place-Ascending (x ∷ xs) d a = elim (Bool-cases (any stop xs)) [
      | inl e ↦
          rw e (
            place-All stop _ rq xs (le_of_any (key x) xs d.1 a.0 e) a.0,
            place-Ascending xs d.1 a.1,
          )
      | inr e ↦ elim (Bool-cases (stop x)) [
        | inl f ↦ rw (e, f) ((ground arith, a.0), (after_of_none xs d.1 e, a.1))
        | inr f ↦ rw (e, f) ((ground arith, after_of_none xs d.1 e), a)
      ]
    ]

-- How far the sweep that starts at the boundary goes before it comes to the sector.
abbrev pub sweep : ℕ → ℕ → ℕ
sweep boundary sector = (sector + 2 ^ 64 - boundary) % 2 ^ 64

-- A queued request that a new one may pass: same kind and direction, no barrier, not started.
pub record Passable (r p : Request) : Type 0 where
  pub discard : r.discard ≡ p.discard
  pub write : r.write ≡ p.write
  pub softbarrier : p.softbarrier ≡ false
  pub started : p.started ≡ false
  pub fits : p.sector < 2 ^ 64

-- For such requests the three tests on sectors compare the distances.
stops-sweep :
    (b : ℕ) (r p : Request)
    → Passable r p
    → b < 2 ^ 64
    → r.sector < 2 ^ 64
    → stops b r p ≡ leb (sweep b p.sector) (sweep b r.sector)
unfolding stops
stops-sweep b r p h hb hr = ground arith

stops-barrier : (b : ℕ) (r p : Request) → (p.softbarrier || p.started) ≡ true → stops b r p ≡ true
unfolding stops
stops-barrier b r p h = ground arith

-- The place of a queued request in the sweep that starts at `end_sector`.
abbrev pub distance : Queue → Ptr → ℕ
distance q x = sweep q.end_sector (q.request x).sector

module _ (q : Queue) (rq : Ptr) (fuel : ℕ) where
  stops_as_distance :
      (xs : List Ptr)
      → q.end_sector < 2 ^ 64
      → (q.request rq).sector < 2 ^ 64
      → All (λ x. Passable (q.request rq) (q.request x)) xs
      → All (λ x. stop_at q rq x ≡ leb (distance q x) (distance q rq)) xs
  stops_as_distance [] hb hr h = tt
  stops_as_distance (x ∷ xs) hb hr h = (
    stops-sweep q.end_sector (q.request rq) (q.request x) h.0 hb hr,
    stops_as_distance xs hb hr h.1,
  )

  -- If the dispatch queue is a circular list that does not hold `rq`, there is more fuel than
  -- requests in it, sectors are below 2^64, each queued request may be passed by `rq` (neither
  -- barrier nor started, same direction, same discard flag) and the queue is in the order of the
  -- one-way sweep from `end_sector`, then `elv_dispatch_sort` returns, `rq` stands between two
  -- parts of the old queue, and the new queue is in the order of that sweep.
  pub elv_dispatch_sort-Ascending :
      (xs : List Ptr)
      → Ring q.links q.queue_head xs
      → rq ∉ (q.queue_head ∷ xs)
      → length xs < fuel
      → q.end_sector < 2 ^ 64
      → (q.request rq).sector < 2 ^ 64
      → All (λ x. Passable (q.request rq) (q.request x)) xs
      → Ascending (distance q) xs
      → Returns
          (λ q'.
            (us : List Ptr) × (vs : List Ptr) × (us ++ vs ≡ xs)
            × Ring q'.links q.queue_head (us ++ rq ∷ vs)
            × Ascending (distance q) (us ++ rq ∷ vs))
          (elv_dispatch_sort fuel q rq)
  elv_dispatch_sort-Ascending xs r out enough hb hr h a =
      let (q', done, ring) = elv_dispatch_sort-place q rq xs fuel r out enough in
      let stop : Ptr → Bool = stop_at q rq in
      (
        q',
        done,
        (
          kept_ahead stop xs,
          overtaken stop xs,
          kept_ahead-overtaken stop xs,
          ring,
          place-Ascending (distance q) stop rq xs (stops_as_distance xs hb hr h) a,
        ),
      )

  -- If a request `p` of the dispatch queue is a barrier or has been started, then
  -- `elv_dispatch_sort` returns (with more fuel than requests in the queue, and `rq` not in it),
  -- and `rq` stands behind `p`, with all that stood before `p` still before it and the requests
  -- behind it split in two by `rq`.
  pub elv_dispatch_sort-barrier :
      (us : List Ptr) (p : Ptr) (vs : List Ptr)
      → Ring q.links q.queue_head (us ++ p ∷ vs)
      → rq ∉ (q.queue_head ∷ (us ++ p ∷ vs))
      → length (us ++ p ∷ vs) < fuel
      → ((q.request p).softbarrier || (q.request p).started) ≡ true
      → Returns
          (λ q'.
            (ws : List Ptr) × (zs : List Ptr) × (ws ++ zs ≡ vs)
            × Ring q'.links q.queue_head (us ++ p ∷ (ws ++ rq ∷ zs)))
          (elv_dispatch_sort fuel q rq)
  elv_dispatch_sort-barrier us p vs r out enough h =
      let (q', done, ring) = elv_dispatch_sort-place q rq (us ++ p ∷ vs) fuel r out enough in
      let stop : Ptr → Bool = stop_at q rq in
      let halts : stop p ≡ true = stops-barrier q.end_sector (q.request rq) (q.request p) h in
      (
        q',
        done,
        (
          kept_ahead stop vs,
          overtaken stop vs,
          kept_ahead-overtaken stop vs,
          subst (λ l. Ring q'.links q.queue_head l) (place-barrier stop rq us p vs halts) ring,
        ),
      )
