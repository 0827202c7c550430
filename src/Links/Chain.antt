-- ===== src/Links/Chain.antt =====
-- What a list in memory stands for: the addresses on it, in order. The lemmas say how a chain of
-- links survives stores elsewhere, and what one insertion and one removal do to it.
use uth_operating_systems.Base.{
  ◌≡◌, ◌≢◌, true, List, [], ◌∷◌, ◌++◌, arith, has, ◌∉◌, Distinct, has-append, last_of,
  first_of_list, is_nil, if◌then◌else◌, ◌==◌,
}
use uth_operating_systems.Links.{Ptr, Links, insert_between, bridge}

-- From `p` the `next` pointers lead through `xs` to `q`, and the `prev` pointers lead back.
abbrev pub Chain : Links → Ptr → List Ptr → Ptr → Type 0
Chain m p [] q = (m.next p ≡ q) × (m.prev q ≡ p)
Chain m p (x ∷ xs) q = (m.next p ≡ x) × (m.prev x ≡ p) × Chain m x xs q

-- `h` is the head of a circular list with the entries `xs`, all at different addresses.
pub record Ring (m : Links) (h : Ptr) (xs : List Ptr) : Type 0 where
  pub chain : Chain m h xs h
  pub distinct : Distinct (h ∷ xs)

-- A chain depends on `next` at `p ∷ xs` and on `prev` at `xs` and `q` only.
pub frame :
    {m : Links} (m' : Links) (p : Ptr) (xs : List Ptr) (q : Ptr)
    → Chain m p xs q
    → ((a : Ptr) → has a (p ∷ xs) ≡ true → m'.next a ≡ m.next a)
    → ((a : Ptr) → has a (xs ++ q ∷ []) ≡ true → m'.prev a ≡ m.prev a)
    → Chain m' p xs q
frame m' p [] q c n v = (ground (arith, n p), ground (arith, v q))
frame m' p (x ∷ xs) q c n v = (
  ground (arith, n p),
  ground (arith, v x),
  frame m' x xs q c.2 (λ a i. n a (ground arith)) (λ a i. v a (ground arith)),
)

-- The links between the entry before a place and the entry behind it.
pub Chain-next :
    (m : Links) (p : Ptr) (xs ys : List Ptr) (q : Ptr)
    → Chain m p (xs ++ ys) q
    → (m.next (last_of p xs) ≡ first_of_list ys q) × (m.prev (first_of_list ys q) ≡ last_of p xs)
Chain-next m p [] [] q c = c
Chain-next m p [] (y ∷ ys) q c = (c.0, c.1)
Chain-next m p (x ∷ xs) ys q c = Chain-next m x xs ys q c.2

-- The two neighbours of an entry.
pub Chain-neighbours :
    (m : Links) (p : Ptr) (xs : List Ptr) (x : Ptr) (ys : List Ptr) (q : Ptr)
    → Chain m p (xs ++ x ∷ ys) q
    → (m.prev x ≡ last_of p xs) × (m.next x ≡ first_of_list ys q)
Chain-neighbours m p [] x [] q c = (c.1, c.2.0)
Chain-neighbours m p [] x (y ∷ ys) q c = (c.1, c.2.0)
Chain-neighbours m p (z ∷ xs) x ys q c = Chain-neighbours m z xs x ys q c.2

-- A place inside `xs ++ ys` is `last_of p xs` on its left.
pub last_of-ne : (p : Ptr) (xs ys : List Ptr) (a : Ptr) → a ∉ (p ∷ (xs ++ ys)) → last_of p xs ≢ a
last_of-ne p [] ys a o = ground arith
last_of-ne p (x ∷ xs) ys a o = last_of-ne x xs ys a (ground arith)

pub first_of_list-ne :
    (xs ys : List Ptr) (q a : Ptr) → a ∉ (xs ++ ys) → a ≢ q → first_of_list ys q ≢ a
first_of_list-ne xs [] q a o n = ground arith
first_of_list-ne xs (y ∷ ys) q a o n = ground (arith, has-append a xs (y ∷ ys))

-- The test that a neighbour is the head of the list finds the two ends of the list.
pub last_of-head :
    (h n : Ptr) (us vs : List Ptr)
    → h ∉ (us ++ vs)
    → (if last_of h us == h then n else last_of h us) ≡ (if is_nil us then n else last_of h us)
last_of-head h n [] vs o = ground arith
last_of-head h n (u ∷ us) vs o = ground (arith, last_of-ne u us vs h o)

pub first_of_list-head :
    (h n : Ptr) (us vs : List Ptr)
    → h ∉ (us ++ vs)
    → (if first_of_list vs h == h then n else first_of_list vs h)
      ≡ (if is_nil vs then n else first_of_list vs h)
first_of_list-head h n us [] o = ground arith
first_of_list-head h n us (v ∷ vs) o = ground (arith, has-append h us (v ∷ vs))

-- The stores of `__list_add` put a new address between the two ends of a link.
pub Chain-insert :
    (m : Links) (new p : Ptr) (xs ys : List Ptr) (q : Ptr)
    → Chain m p (xs ++ ys) q
    → Distinct (p ∷ (xs ++ ys))
    → q ∉ (xs ++ ys)
    → new ∉ (p ∷ (xs ++ ys))
    → new ≢ q
    → Chain (insert_between new (last_of p xs) (first_of_list ys q) m) p (xs ++ new ∷ ys) q
unfolding insert_between
Chain-insert m new p [] [] q c d o f g = (ground arith, ground arith, (ground arith, ground arith))
Chain-insert m new p [] (y ∷ ys) q c d o f g = (
  ground arith,
  ground arith,
  (
    ground arith,
    ground arith,
    frame _ y ys q c.2 (λ a i. ground arith) (λ a i. ground (arith, has-append a ys (q ∷ []))),
  ),
)
Chain-insert m new p (x ∷ xs) ys q c d o f g = (
  ground (arith, last_of-ne x xs ys p),
  ground (arith, first_of_list-ne xs ys q x),
  Chain-insert m new x xs ys q c.2 d.1 (ground arith) (ground arith) g,
)

-- The stores of `__list_del` take an entry out.
pub Chain-remove :
    (m : Links) (p : Ptr) (xs : List Ptr) (x : Ptr) (ys : List Ptr) (q : Ptr)
    → Chain m p (xs ++ x ∷ ys) q
    → Distinct (p ∷ (xs ++ x ∷ ys))
    → q ∉ (xs ++ x ∷ ys)
    → Chain (bridge (last_of p xs) (first_of_list ys q) m) p (xs ++ ys) q
unfolding bridge
Chain-remove m p [] x [] q c d o = (ground arith, ground arith)
Chain-remove m p [] x (y ∷ ys) q c d o = (
  ground arith,
  ground arith,
  frame _ y ys q c.2.2 (λ a i. ground arith) (λ a i. ground (arith, has-append a ys (q ∷ []))),
)
Chain-remove m p (z ∷ xs) x ys q c d o = (
  ground (arith, last_of-ne z xs (x ∷ ys) p),
  ground (arith, first_of_list-ne [] ys q z, has-append z xs (x ∷ ys)),
  Chain-remove m z xs x ys q c.2 d.1 (ground arith),
)
