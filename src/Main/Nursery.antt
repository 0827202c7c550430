-- ===== src/Main/Nursery.antt =====
-- The threads that `readProfile` of hw2/Scheduler_VM/cpuinit.c has allocated are a forest under the
-- thread of init, whatever the commands.
use uth_operating_systems.Base.{
  ◌+◌, ◌<◌, ◌≡◌, refl, sym, subst, ap, ◌∙◌, Bool, true, false, [], ◌∷◌, ◌++◌, ◌&&◌, ◌||◌, arith,
  ◌==◌, ==-refl, ==-eq, leb, ltb, has, ◌∉◌, length, Distinct, Bool-cases, inl, inr, update, pos,
  minus_one,
}
use uth_operating_systems.Links.{Ptr, null}
use uth_operating_systems.Sched.{Info}
use uth_operating_systems.Profile.Commands.{Profile}
use uth_operating_systems.Main.Forest.{Forest, roots, members, Spans}
use uth_operating_systems.Main.Plant.{
  plant, plant-roots, plant-Inserted, plant-Spans, behind, behind-roots, behind-Inserted,
  behind-Spans, Grown, Inserted, Inserted-Distinct, Inserted-has, Inserted-length,
}

-- `NULL`, the thread of init, or a thread that has been allocated since.
abbrev pub known : (top first fresh : Ptr) → Ptr → Bool
known top first fresh x = x == null || x == top || leb first x && ltb x fresh

-- The threads from `first` on are the forest under `top`, and the pointers of the parser and of
-- the threads are known.
pub record Nursery (top first : Ptr) (r : Profile) : Type 0 where
  pub forest : Forest
  pub list : r.to_spawn top ≡ roots forest
  pub spans : Spans r.to_spawn forest
  pub distinct : Distinct (members forest)
  pub addresses : (x : Ptr) → has x (members forest) ≡ (leb first x && ltb x r.fresh)
  pub size : length (members forest) + first ≡ r.fresh
  pub known_newtask : known top first r.fresh r.newtask ≡ true
  pub known_top : known top first r.fresh r.top ≡ true
  pub parents :
      (x : Ptr)
      → (x == null) ≡ false
      → known top first r.fresh x ≡ true
      → known top first r.fresh (r.info x).parent ≡ true

pub same_parent :
    (f : Ptr → Info) (t x : Ptr) (i : Info)
    → i.parent ≡ (f t).parent
    → (update f t i x).parent ≡ (f x).parent
same_parent f t x i e = elim (Bool-cases (x == t)) [
  | inl h ↦ rw h (e ∙ ap (λ a. (f a).parent) (sym (==-eq x t h)))
  | inr h ↦ rw h refl
]

module _ (top first : Ptr) where
  pub Nursery-congr :
      (r r' : Profile)
      → r'.to_spawn ≡ r.to_spawn
      → r'.fresh ≡ r.fresh
      → known top first r.fresh r'.newtask ≡ true
      → known top first r.fresh r'.top ≡ true
      → ((x : Ptr) → (r'.info x).parent ≡ (r.info x).parent)
      → Nursery top first r
      → Nursery top first r'
  Nursery-congr r r' e f n t p h = record {
    forest = h.forest;
    list = ap (λ m. m top) e ∙ h.list;
    spans = subst (λ m. Spans m h.forest) (sym e) h.spans;
    distinct = h.distinct;
    addresses = λ x. h.addresses x ∙ ap (λ k. leb first x && ltb x k) (sym f);
    size = h.size ∙ sym f;
    known_newtask = ap (λ k. known top first k r'.newtask) f ∙ n;
    known_top = ap (λ k. known top first k r'.top) f ∙ t;
    parents = λ x o k.
        ap (λ j. known top first j (r'.info x).parent) f
        ∙ ap (known top first r.fresh) (p x)
        ∙ h.parents x o (ap (λ j. known top first j x) (sym f) ∙ k);
  }

  module _ (s : Profile) (h : Nursery top first s) where
    -- The state behind a command that writes to fields which the forest does not depend on.
    pub field_written :
        (r' : Profile)
        → r'.to_spawn ≡ s.to_spawn
        → r'.fresh ≡ s.fresh
        → r'.newtask ≡ s.newtask
        → r'.top ≡ s.top
        → ((x : Ptr) → (r'.info x).parent ≡ (s.info x).parent)
        → Nursery top first r'
    field_written r' e f n t p =
        Nursery-congr s r' e f (ap (known top first s.fresh) n ∙ h.known_newtask)
          (ap (known top first s.fresh) t ∙ h.known_top) p h

  module _ (behind_null : 0 < top) (behind_top : top < first) where
    module _ (s : Profile) (h : Nursery top first s) (owned : (s.top == null) ≡ false) where
      -- The memory after NEWPROCESS.
      abbrev with_thread : Profile
      with_thread =
          let p = s.fresh in
          let emptied = update s.to_spawn p [] in
          let i : Info = record (s.info p) {
            kill_time = minus_one;
            work_duration = minus_one;
            parent = s.top;
          } in
          record s {
            info = update s.info p i;
            newtask = p;
            fresh = p + 1;
            nice_value = update s.nice_value p (pos 0);
            to_spawn = update emptied s.top (emptied s.top ++ p ∷ []);
          }

      apart : (s.fresh == s.top) ≡ false
      apart = ground (arith, h.known_top, owned, h.size)

      turned : (s.top == s.fresh) ≡ false
      turned = ground (arith, apart)

      wider : (x : Ptr) → known top first s.fresh x ≡ true → known top first (s.fresh + 1) x ≡ true
      wider x k = ground (arith, k)

      with_thread-parents :
          (x : Ptr)
          → (x == null) ≡ false
          → known top first (s.fresh + 1) x ≡ true
          → known top first (s.fresh + 1) (with_thread.info x).parent ≡ true
      with_thread-parents x o k = elim (Bool-cases (x == s.fresh)) [
        | inl e ↦ rw e (wider s.top h.known_top)
        | inr e ↦ rw e (wider (s.info x).parent (h.parents x o (ground (arith, k, e))))
      ]

      with_thread-Grown : Grown s.top s.fresh s.to_spawn with_thread.to_spawn
      with_thread-Grown = record {
        new = rw (apart, ==-refl s.fresh) refl;
        owner = rw (==-refl s.top, turned) refl;
        rest = λ x o.
            let at_top : (x == s.top) ≡ false = ground arith in
            let at_fresh : (x == s.fresh) ≡ false = ground arith in rw (at_top, at_fresh) refl;
      }

      with_thread-Nursery :
          (f : Forest)
          → with_thread.to_spawn top ≡ roots f
          → Spans with_thread.to_spawn f
          → Inserted s.fresh (members h.forest) (members f)
          → Nursery top first with_thread
      with_thread-Nursery f list spans i = record {
        forest = f;
        list = list;
        spans = spans;
        distinct = Inserted-Distinct i h.distinct (ground (arith, h.addresses s.fresh));
        addresses = λ x. ground (arith, Inserted-has i x, h.addresses x, h.size);
        size = omega (arith, Inserted-length i, h.size);
        known_newtask = ground (arith, h.size);
        known_top = ground (arith, h.known_top);
        parents = with_thread-parents;
      }

      -- The new thread is behind the children of the one that has the list.
      pub new_thread-Nursery : Nursery top first with_thread
      new_thread-Nursery =
          let p = s.fresh in
          let f = h.forest in
          let new : p ∉ members f = ground (arith, h.addresses p) in
          elim (Bool-cases (top == s.top)) [
            | inl e ↦
                let same : top ≡ s.top = ==-eq top s.top e in
                with_thread-Nursery (behind p f)
                  (ap with_thread.to_spawn same
                    ∙ with_thread-Grown.owner
                    ∙ ap (λ v. s.to_spawn v ++ p ∷ []) (sym same)
                    ∙ ap (λ v. v ++ p ∷ []) h.list
                    ∙ sym (behind-roots p f))
                  (behind-Spans s.top p s.to_spawn with_thread.to_spawn with_thread-Grown f
                    (ground (arith, h.addresses s.top, same)) new h.spans)
                  (behind-Inserted p f)
            | inr e ↦
                with_thread-Nursery (plant s.top p f)
                  (with_thread-Grown.rest top (ground (arith, e, h.size))
                    ∙ h.list
                    ∙ sym (plant-roots s.top p f))
                  (plant-Spans s.top p s.to_spawn with_thread.to_spawn with_thread-Grown f
                    h.distinct new h.spans)
                  (plant-Inserted s.top p f
                    (ground (arith, h.addresses s.top, h.known_top, owned, e)) h.distinct)
          ]
