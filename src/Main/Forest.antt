-- ===== src/Main/Forest.antt =====
-- The threads of hw2/Scheduler_VM that are still to be spawned, as a forest in the memory: the list
-- of each thread holds its children (`struct thread_info` of privatestructs.h).
use uth_operating_systems.Base.{◌≡◌, ◌∙◌, true, List, [], ◌∷◌, ◌++◌, arith, has, has-append}
use uth_operating_systems.Links.{Ptr}

-- A thread with the forest of its children, and the threads behind it on the same list.
pub data Forest : Type 0 where
  bare : Forest
  tree : (thread : Ptr) (children siblings : Forest) → Forest

-- The threads of one list, and all threads.
abbrev pub roots : Forest → List Ptr
roots bare = []
roots (tree p f g) = p ∷ roots g

abbrev pub members : Forest → List Ptr
members bare = []
members (tree p f g) = p ∷ members f ++ members g

-- The lists in the memory are those of the forest.
abbrev pub Spans : (Ptr → List Ptr) → Forest → Type 0
Spans m bare = Unit {0}
Spans m (tree p f g) = (m p ≡ roots f) × Spans m f × Spans m g

pub Spans-congr :
    (m m' : Ptr → List Ptr) (f : Forest)
    → ((p : Ptr) → has p (members f) ≡ true → m' p ≡ m p)
    → Spans m f
    → Spans m' f
Spans-congr m m' bare e h = tt
Spans-congr m m' (tree p f g) e h = (
  e p (ground arith) ∙ h.0,
  Spans-congr m m' f (λ x i. e x (ground (arith, i, has-append x (members f) (members g)))) h.1,
  Spans-congr m m' g (λ x i. e x (ground (arith, i, has-append x (members f) (members g)))) h.2,
)
