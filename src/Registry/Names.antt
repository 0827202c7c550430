-- ===== src/Registry/Names.antt =====
-- The list of elevator types as a list of addresses whose names are all different.
use uth_operating_systems.Base.{
  ◌≡◌, refl, sym, ◌∙◌, true, false, List, [], ◌∷◌, ◌++◌, arith, ◌==◌, if◌then◌else◌, ◌∉◌,
}
use uth_operating_systems.Links.{Ptr, null}
use uth_operating_systems.Registry.{Name, same}

pub same_refl : (a : Name) → same a a ≡ true
same_refl [] = refl
same_refl (x ∷ xs) = ground (arith, same_refl xs)

pub same-eq : (a b : Name) → same a b ≡ true → a ≡ b
same-eq [] [] h = refl
same-eq [] (y ∷ ys) h = ground arith
same-eq (x ∷ xs) [] h = ground arith
same-eq (x ∷ xs) (y ∷ ys) h = ground (arith, same-eq xs ys)

same_comm : (a b : Name) → same a b ≡ same b a
same_comm [] [] = refl
same_comm [] (y ∷ ys) = refl
same_comm (x ∷ xs) [] = refl
same_comm (x ∷ xs) (y ∷ ys) = ground (arith, same_comm xs ys)

-- The first address of a list with a name, or `NULL`.
abbrev pub first_named : (Ptr → Name) → Name → List Ptr → Ptr
first_named names n [] = null
first_named names n (x ∷ xs) = if same (names x) n then x else first_named names n xs

-- No two of them have the same name.
abbrev pub NamesDiffer : (Ptr → Name) → List Ptr → Type 0
NamesDiffer names [] = Unit {0}
NamesDiffer names (x ∷ xs) = (first_named names (names x) xs ≡ null) × NamesDiffer names xs

pub first_named-cong :
    (f g : Ptr → Name) (n : Name) (xs : List Ptr)
    → ((a : Ptr) → f a ≡ g a)
    → first_named f n xs ≡ first_named g n xs
first_named-cong f g n [] h = refl
first_named-cong f g n (x ∷ xs) h = rw (h x) (ground (arith, first_named-cong f g n xs h))

pub NamesDiffer-cong :
    (f g : Ptr → Name) (xs : List Ptr)
    → ((a : Ptr) → f a ≡ g a)
    → NamesDiffer f xs
    → NamesDiffer g xs
NamesDiffer-cong f g [] h d = tt
NamesDiffer-cong f g (x ∷ xs) h d =
    (rw (sym (h x)) (sym (first_named-cong f g (f x) xs h) ∙ d.0), NamesDiffer-cong f g xs h d.1)

pub first_named-append :
    (f : Ptr → Name) (n : Name) (xs ys : List Ptr)
    → null ∉ xs
    → first_named f n (xs ++ ys)
      ≡ (if first_named f n xs == null then first_named f n ys else first_named f n xs)
first_named-append f n [] ys o = refl
first_named-append f n (x ∷ xs) ys o = ground (arith, first_named-append f n xs ys)

-- Registering puts a name at the end that none has.
pub NamesDiffer-snoc :
    (f : Ptr → Name) (xs : List Ptr) (e : Ptr)
    → null ∉ xs
    → NamesDiffer f xs
    → first_named f (f e) xs ≡ null
    → NamesDiffer f (xs ++ e ∷ [])
NamesDiffer-snoc f [] e o d h = (refl, tt)
NamesDiffer-snoc f (x ∷ xs) e o d h =
    let other : same (f e) (f x) ≡ false = same_comm (f e) (f x) ∙ ground arith in
    (
      first_named-append f (f x) xs (e ∷ []) (ground arith) ∙ rw (d.0, other) refl,
      NamesDiffer-snoc f xs e (ground arith) d.1 (ground arith),
    )

-- Unregistering takes any of them out.
first_named-without :
    (f : Ptr → Name) (n : Name) (us : List Ptr) (e : Ptr) (vs : List Ptr)
    → null ∉ (us ++ e ∷ vs)
    → first_named f n (us ++ e ∷ vs) ≡ null
    → (first_named f n (us ++ vs) ≡ null) × (same (f e) n ≡ false)
first_named-without f n [] e vs o h = (ground arith, ground arith)
first_named-without f n (u ∷ us) e vs o h =
    ground (arith, first_named-without f n us e vs (ground arith))

pub NamesDiffer-remove :
    (f : Ptr → Name) (us : List Ptr) (e : Ptr) (vs : List Ptr)
    → null ∉ (us ++ e ∷ vs)
    → NamesDiffer f (us ++ e ∷ vs)
    → NamesDiffer f (us ++ vs) × (first_named f (f e) (us ++ vs) ≡ null)
NamesDiffer-remove f [] e vs o d = (d.1, d.0)
NamesDiffer-remove f (u ∷ us) e vs o d =
    let (differ, absent) = NamesDiffer-remove f us e vs (ground arith) d.1 in
    let (before, other) = first_named-without f (f u) us e vs (ground arith) d.0 in
    ((before, differ), rw (same_comm (f u) (f e) ∙ other) absent)
