-- ===== src/Elevator/Search.antt =====
-- The red-black tree helpers of hw4/elevator.c keep the requests in the order of their sectors, and
-- find them by sector.
use uth_operating_systems.Base.{
  ℕ, ◌≤◌, ◌<◌, ◌≡◌, inl, inr, refl, ap, ◌∙◌, sym, Bool, true, false, List, [], ◌∷◌, ◌++◌, ◌||◌,
  arith, ltb, ltb→lt, ◌==◌, if◌then◌else◌, Bool-cases, has, has-append, All, All-left, All-right,
  All-map,
}
use uth_operating_systems.Links.{Ptr, null}
use uth_operating_systems.Elevator.Tree.{
  Tree, empty, node, items, link_node, elv_rb_add, elv_rb_find,
}

module _ (pos : Ptr → ℕ) where
  -- The sectors do not fall along the list.
  abbrev pub Ordered : List Ptr → Type 0
  Ordered [] = Unit {0}
  Ordered (x ∷ xs) = All (λ y. pos x ≤ pos y) xs × Ordered xs

  -- Some request of the list begins at the sector.
  abbrev pub begins_at : ℕ → List Ptr → Bool
  begins_at sector [] = false
  begins_at sector (x ∷ xs) = (pos x == sector) || begins_at sector xs

  begins_at-append :
      (sector : ℕ) (xs ys : List Ptr)
      → begins_at sector (xs ++ ys) ≡ (begins_at sector xs || begins_at sector ys)
  begins_at-append sector [] ys = refl
  begins_at-append sector (x ∷ xs) ys = ground (arith, begins_at-append sector xs ys)

  Ordered-left : (xs ys : List Ptr) → Ordered (xs ++ ys) → Ordered xs
  Ordered-left [] ys o = tt
  Ordered-left (x ∷ xs) ys o = (All-left (λ y. pos x ≤ pos y) xs ys o.0, Ordered-left xs ys o.1)

  Ordered-right : (xs ys : List Ptr) → Ordered (xs ++ ys) → Ordered ys
  Ordered-right [] ys o = o
  Ordered-right (x ∷ xs) ys o = Ordered-right xs ys o.1

  -- Nothing behind a request of a later sector, nothing before one of an earlier sector.
  begins_at-above :
      (sector n : ℕ) (xs : List Ptr)
      → sector < n
      → All (λ y. n ≤ pos y) xs
      → begins_at sector xs ≡ false
  begins_at-above sector n [] h a = refl
  begins_at-above sector n (x ∷ xs) h a = ground (arith, begins_at-above sector n xs h a.1)

  begins_at-before :
      (sector : ℕ) (xs : List Ptr) (x : Ptr) (ys : List Ptr)
      → Ordered (xs ++ x ∷ ys)
      → pos x < sector
      → begins_at sector xs ≡ false
  begins_at-before sector [] x ys o h = refl
  begins_at-before sector (z ∷ xs) x ys o h =
      let le = (All-right (λ y. pos z ≤ pos y) xs (x ∷ ys) o.0).0 in
      ground (arith, begins_at-before sector xs x ys o.1 h, le)

  -- What a search for a sector finds in a list of requests.
  pub data Found (sector : ℕ) (xs : List Ptr) : Ptr → Type 0 where
    absent : begins_at sector xs ≡ false → Found sector xs null
    present : {rq : Ptr} → has rq xs ≡ true → pos rq ≡ sector → Found sector xs rq

  Found-left :
      (sector : ℕ) (xs ys : List Ptr) (rq : Ptr)
      → begins_at sector ys ≡ false
      → Found sector xs rq
      → Found sector (xs ++ ys) rq
  Found-left sector xs ys rq h (absent a) = absent (begins_at-append sector xs ys ∙ rw (a, h) refl)
  Found-left sector xs ys rq h (present i e) = present (has-append rq xs ys ∙ rw i refl) e

  Found-right :
      (sector : ℕ) (xs ys : List Ptr) (rq : Ptr)
      → begins_at sector xs ≡ false
      → Found sector ys rq
      → Found sector (xs ++ ys) rq
  Found-right sector xs ys rq h (absent a) = absent (begins_at-append sector xs ys ∙ rw (h, a) refl)
  Found-right sector xs ys rq h (present i e) = present (ground (arith, has-append rq xs ys, i)) e

  -- If the sectors do not fall along the tree, `elv_rb_find` answers `NULL` and no request of the
  -- tree begins at the sector, or it answers a request of the tree that does.
  pub elv_rb_find-Found :
      (sector : ℕ) (root : Tree)
      → Ordered (items root)
      → Found sector (items root) (elv_rb_find pos sector root)
  unfolding elv_rb_find
  elv_rb_find-Found sector empty o = absent refl
  elv_rb_find-Found sector (node l x r) o =
      let left = elv_rb_find-Found sector l (Ordered-left (items l) (x ∷ items r) o) in
      let later = Ordered-right (items l) (x ∷ items r) o in
      let right = elv_rb_find-Found sector r later.1 in
      elim (Bool-cases (ltb sector (pos x))) [
        | inl before ↦
            let h =
              begins_at-above sector (pos x) (items r) (ltb→lt sector (pos x) before) later.0 in
            rw before (
              Found-left sector (items l) (x ∷ items r) (elv_rb_find pos sector l)
                (ground (arith, h)) left)
        | inr not_before ↦ elim (Bool-cases (ltb (pos x) sector)) [
          | inl behind ↦
              let h =
                begins_at-before sector (items l) x (items r) o (ltb→lt (pos x) sector behind) in
              rw (not_before, behind)
                (Found-right sector (items l) (x ∷ items r) (elv_rb_find pos sector r) h (
                  Found-right sector (x ∷ []) (items r) (elv_rb_find pos sector r) (ground arith)
                    right))
          | inr not_behind ↦
              rw (not_before, not_behind)
                (present (ground (arith, has-append x (items l) (x ∷ items r))) (ground arith))
        ]
      ]

  -- The list with `rq` in front of the first request of a later sector.
  abbrev pub insert : Ptr → List Ptr → List Ptr
  insert rq [] = rq ∷ []
  insert rq (x ∷ xs) = if ltb (pos rq) (pos x) then rq ∷ x ∷ xs else x ∷ insert rq xs

  insert-ahead :
      (rq : Ptr) (xs : List Ptr) (x : Ptr) (ys : List Ptr)
      → ltb (pos rq) (pos x) ≡ true
      → insert rq (xs ++ x ∷ ys) ≡ insert rq xs ++ x ∷ ys
  insert-ahead rq [] x ys h = rw h refl
  insert-ahead rq (z ∷ xs) x ys h = elim (Bool-cases (ltb (pos rq) (pos z))) [
    | inl e ↦ rw e refl
    | inr e ↦ rw e (ap (λ t. z ∷ t) (insert-ahead rq xs x ys h))
  ]

  insert-behind :
      (rq : Ptr) (xs : List Ptr) (x : Ptr) (ys : List Ptr)
      → Ordered (xs ++ x ∷ ys)
      → ltb (pos rq) (pos x) ≡ false
      → insert rq (xs ++ x ∷ ys) ≡ xs ++ x ∷ insert rq ys
  insert-behind rq [] x ys o h = rw h refl
  insert-behind rq (z ∷ xs) x ys o h =
      let le = (All-right (λ y. pos z ≤ pos y) xs (x ∷ ys) o.0).0 in
      let e : ltb (pos rq) (pos z) ≡ false = ground arith in
      rw e (ap (λ t. z ∷ t) (insert-behind rq xs x ys o.1 h))

  link_node-insert :
      (rq : Ptr) (root : Tree)
      → Ordered (items root)
      → items (link_node pos rq root) ≡ insert rq (items root)
  unfolding link_node
  link_node-insert rq empty o = refl
  link_node-insert rq (node l x r) o =
      let left = link_node-insert rq l (Ordered-left (items l) (x ∷ items r) o) in
      let right = link_node-insert rq r (Ordered-right (items l) (x ∷ items r) o).1 in
      elim (Bool-cases (ltb (pos rq) (pos x))) [
        | inl e ↦ rw e (rw left (sym (insert-ahead rq (items l) x (items r) e)))
        | inr e ↦ rw e (rw right (sym (insert-behind rq (items l) x (items r) o e)))
      ]

  All-insert :
      (n : ℕ) (rq : Ptr) (xs : List Ptr)
      → All (λ y. n ≤ pos y) xs
      → n ≤ pos rq
      → All (λ y. n ≤ pos y) (insert rq xs)
  All-insert n rq [] a h = (h, tt)
  All-insert n rq (x ∷ xs) a h = elim (Bool-cases (ltb (pos rq) (pos x))) [
    | inl e ↦ rw e (h, a)
    | inr e ↦ rw e (a.0, All-insert n rq xs a.1 h)
  ]

  Ordered-insert : (rq : Ptr) (xs : List Ptr) → Ordered xs → Ordered (insert rq xs)
  Ordered-insert rq [] o = (tt, tt)
  Ordered-insert rq (x ∷ xs) o = elim (Bool-cases (ltb (pos rq) (pos x))) [
    | inl e ↦
        let le : pos rq ≤ pos x = ground arith in
        rw e
          ((le, All-map (λ y. pos x ≤ pos y) (λ y. pos rq ≤ pos y) xs (λ y h. omega arith) o.0), o)
    | inr e ↦ rw e (All-insert (pos x) rq xs o.0 (ground arith), Ordered-insert rq xs o.1)
  ]

  -- If recolouring keeps the order of a tree and the sectors do not fall along the tree, then after
  -- `elv_rb_add` the order is the old one with the new request in front of the first one of a later
  -- sector, and the sectors do not fall along it.
  pub elv_rb_add-insert :
      (recolor : Ptr → Tree → Tree) (rq : Ptr) (root : Tree)
      → ((x : Ptr) (t : Tree) → items (recolor x t) ≡ items t)
      → Ordered (items root)
      → (items (elv_rb_add pos recolor rq root) ≡ insert rq (items root))
        × Ordered (items (elv_rb_add pos recolor rq root))
  unfolding elv_rb_add
  elv_rb_add-insert recolor rq root same o =
      let e = same rq (link_node pos rq root) ∙ link_node-insert rq root o in
      (e, rw e (Ordered-insert rq (items root) o))
