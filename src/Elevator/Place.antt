-- ===== src/Elevator/Place.antt =====
-- Where a request comes to stand in the dispatch queue, as a function on the list of requests.
use uth_operating_systems.Base.{
  ◌≡◌, refl, ap, Bool, true, false, List, [], ◌∷◌, ◌++◌, ◌||◌, arith, if◌then◌else◌, Bool-cases,
  inl, inr, All,
}
use uth_operating_systems.Links.{Ptr}

-- `stop` is the test of the walk from the back.
module _ (stop : Ptr → Bool) where
  abbrev pub any : List Ptr → Bool
  any [] = false
  any (x ∷ xs) = stop x || any xs

  -- The entries up to the last one that stops the walk, and those behind it.
  abbrev pub kept_ahead : List Ptr → List Ptr
  kept_ahead [] = []
  kept_ahead (x ∷ xs) = if any xs then x ∷ kept_ahead xs else if stop x then x ∷ [] else []

  abbrev pub overtaken : List Ptr → List Ptr
  overtaken [] = []
  overtaken (x ∷ xs) = if any xs then overtaken xs else if stop x then xs else x ∷ xs

  abbrev pub place : Ptr → List Ptr → List Ptr
  place rq xs = kept_ahead xs ++ rq ∷ overtaken xs

  pub kept_ahead_of_none : (xs : List Ptr) → any xs ≡ false → kept_ahead xs ≡ []
  kept_ahead_of_none [] h = refl
  kept_ahead_of_none (x ∷ xs) h = ground arith

  pub overtaken_of_none : (xs : List Ptr) → any xs ≡ false → overtaken xs ≡ xs
  overtaken_of_none [] h = refl
  overtaken_of_none (x ∷ xs) h = ground arith

  -- The two parts are the whole queue.
  pub kept_ahead-overtaken : (xs : List Ptr) → kept_ahead xs ++ overtaken xs ≡ xs
  kept_ahead-overtaken [] = refl
  kept_ahead-overtaken (x ∷ xs) = ground (arith, kept_ahead-overtaken xs)

  any-barrier :
      (us : List Ptr) (p : Ptr) (vs : List Ptr) → stop p ≡ true → any (us ++ p ∷ vs) ≡ true
  any-barrier [] p vs h = ground arith
  any-barrier (u ∷ us) p vs h = ground (arith, any-barrier us p vs h)

  -- The walk never goes past an entry that stops it.
  pub place-barrier :
      (rq : Ptr) (us : List Ptr) (p : Ptr) (vs : List Ptr)
      → stop p ≡ true
      → place rq (us ++ p ∷ vs) ≡ us ++ p ∷ place rq vs
  place-barrier rq [] p vs h = elim (Bool-cases (any vs)) [
    | inl e ↦ rw e refl
    | inr e ↦ rw (e, h, kept_ahead_of_none vs e, overtaken_of_none vs e) refl
  ]
  place-barrier rq (u ∷ us) p vs h =
      rw (any-barrier us p vs h) (ap (λ l. u ∷ l) (place-barrier rq us p vs h))

  pub place-All {κ} :
      (P : Ptr → Type κ) (rq : Ptr) (xs : List Ptr) → P rq → All P xs → All P (place rq xs)
  place-All P rq [] h k = (h, tt)
  place-All P rq (x ∷ xs) h k = elim (Bool-cases (any xs)) [
    | inl e ↦ rw e (k.0, place-All P rq xs h k.1)
    | inr e ↦ elim (Bool-cases (stop x)) [
      | inl f ↦ rw (e, f) (k.0, (h, k.1))
      | inr f ↦ rw (e, f) (h, k)
    ]
  ]
