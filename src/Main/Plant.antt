-- ===== src/Main/Plant.antt =====
-- A new thread at the end of the list of another one, NEWPROCESS of `readProfile`
-- (hw2/Scheduler_VM/cpuinit.c): the forest of the threads grows by it.
use uth_operating_systems.Base.{
  ◌+◌, ◌≡◌, refl, sym, ap, ◌∙◌, Bool, true, false, List, [], ◌∷◌, ◌++◌, append_assoc, arith, ◌==◌,
  ==-eq, has, has-append, ◌∉◌, length, length-append, Distinct, Distinct-left, Distinct-right,
  Distinct-apart, Distinct-insert, ◌||◌, if◌then◌else◌, Bool-cases, ◌⊎◌, inl, inr, subst,
}
use uth_operating_systems.Links.{Ptr}
use uth_operating_systems.Main.Forest.{Forest, bare, tree, roots, members, Spans, Spans-congr}

abbrev pub behind : Ptr → Forest → Forest
behind p bare = tree p bare bare
behind p (tree x f g) = tree x f (behind p g)

-- The forest with `p` as the last child of `t`.
abbrev pub plant : (t p : Ptr) → Forest → Forest
plant t p bare = bare
plant t p (tree x f g) = tree x (if x == t then behind p f else plant t p f) (plant t p g)

pub behind-roots : (p : Ptr) (f : Forest) → roots (behind p f) ≡ roots f ++ p ∷ []
behind-roots p bare = refl
behind-roots p (tree x f g) = ap (λ xs. x ∷ xs) (behind-roots p g)

pub plant-roots : (t p : Ptr) (f : Forest) → roots (plant t p f) ≡ roots f
plant-roots t p bare = refl
plant-roots t p (tree x f g) = ap (λ xs. x ∷ xs) (plant-roots t p g)

-- `ys` is `xs` with one address more.
pub record Inserted (p : Ptr) (xs ys : List Ptr) : Type 0 where
  pub front : List Ptr
  pub back : List Ptr
  pub before : xs ≡ front ++ back
  pub after : ys ≡ front ++ p ∷ back

module _ {p : Ptr} {xs ys : List Ptr} (i : Inserted p xs ys) where
  Inserted-front : (zs : List Ptr) → Inserted p (zs ++ xs) (zs ++ ys)
  Inserted-front zs = record {
    front = zs ++ i.front;
    back = i.back;
    before = ap (λ v. zs ++ v) i.before ∙ sym (append_assoc zs i.front i.back);
    after = ap (λ v. zs ++ v) i.after ∙ sym (append_assoc zs i.front (p ∷ i.back));
  }

  Inserted-back : (zs : List Ptr) → Inserted p (xs ++ zs) (ys ++ zs)
  Inserted-back zs = record {
    front = i.front;
    back = i.back ++ zs;
    before = ap (λ v. v ++ zs) i.before ∙ append_assoc i.front i.back zs;
    after = ap (λ v. v ++ zs) i.after ∙ append_assoc i.front (p ∷ i.back) zs;
  }

  pub Inserted-Distinct : Distinct xs → p ∉ xs → Distinct ys
  Inserted-Distinct d o =
      subst Distinct (sym i.after) (
        Distinct-insert i.front p i.back (subst Distinct i.before d)
          (subst (λ v. p ∉ v) i.before o))

  pub Inserted-has : (x : Ptr) → has x ys ≡ ((x == p) || has x xs)
  Inserted-has x =
      rw (i.before, i.after)
        (ground (arith, has-append x i.front (p ∷ i.back), has-append x i.front i.back))

  pub Inserted-length : length ys ≡ length xs + 1
  Inserted-length =
      rw (i.before, i.after)
        (omega (arith, length-append i.front (p ∷ i.back), length-append i.front i.back))

pub behind-Inserted : (p : Ptr) (f : Forest) → Inserted p (members f) (members (behind p f))
behind-Inserted p bare = record { front = []; back = []; before = refl; after = refl }
behind-Inserted p (tree x f g) = Inserted-front (behind-Inserted p g) (x ∷ members f)

pub plant-absent : (t p : Ptr) (f : Forest) → t ∉ members f → plant t p f ≡ f
plant-absent t p bare o = refl
plant-absent t p (tree x f g) o =
    let split = has-append t (members f) (members g) in
    let other : (x == t) ≡ false = ground arith in
    rw
      (
        other,
        plant-absent t p f (ground (arith, split, o)),
        plant-absent t p g (ground (arith, split, o)),
      )
      refl

-- The thread `x`, of which the forest `f'` and the siblings `g'` have one address more together.
Inserted-tree :
    {p : Ptr} (x : Ptr) (f g f' g' : Forest)
    → (Inserted p (members f) (members f') × (g' ≡ g))
      ⊎ ((f' ≡ f) × Inserted p (members g) (members g'))
    → Inserted p (members (tree x f g)) (members (tree x f' g'))
Inserted-tree x f g f' g' (inl (i, e)) =
    rw e (Inserted-back (Inserted-front i (x ∷ [])) (members g))
Inserted-tree x f g f' g' (inr (e, i)) = rw e (Inserted-front i (x ∷ members f))

pub plant-Inserted :
    (t p : Ptr) (f : Forest)
    → has t (members f) ≡ true
    → Distinct (members f)
    → Inserted p (members f) (members (plant t p f))
plant-Inserted t p bare h d = absurd (ground (arith, h))
plant-Inserted t p (tree x f g) h d =
    let split = has-append t (members f) (members g) in
    let Goal = λ (b : Bool).
      Inserted p (members (tree x f g))
        (members (tree x (if b then behind p f else plant t p f) (plant t p g))) in
    elim (Bool-cases (x == t)) [
      | inl e ↦
          let same : x ≡ t = ==-eq x t e in
          subst Goal (sym e) (
            Inserted-tree x f g (behind p f) (plant t p g)
              (inl (behind-Inserted p f, plant-absent t p g (ground (arith, split, d.0, same)))))
      | inr e ↦ subst Goal (sym e) (elim (Bool-cases (has t (members f))) [
        | inl i ↦ Inserted-tree x f g (plant t p f) (plant t p g) (
            inl (
              plant-Inserted t p f i (Distinct-left (members f) (members g) d.1),
              plant-absent t p g (
                  ground (
                    arith,
                    Bool-cases (has t (members g)),
                    Distinct-apart (members f) (members g) t d.1,
                  )),
            ))
        | inr i ↦ Inserted-tree x f g (plant t p f) (plant t p g) (
            inr (
              plant-absent t p f i,
              plant-Inserted t p g (ground (arith, split, h, i, e))
                  (Distinct-right (members f) (members g) d.1),
            ))
      ])
    ]

-- The memory after NEWPROCESS: the new thread has no children, and is behind those of `t`.
pub record Grown (t p : Ptr) (m m' : Ptr → List Ptr) : Type 0 where
  pub new : m' p ≡ []
  pub owner : m' t ≡ m t ++ p ∷ []
  pub rest : (x : Ptr) → x ∉ (t ∷ p ∷ []) → m' x ≡ m x

module _ (t p : Ptr) (m m' : Ptr → List Ptr) (w : Grown t p m m') where
  pub behind-Spans :
      (f : Forest) → t ∉ members f → p ∉ members f → Spans m f → Spans m' (behind p f)
  behind-Spans bare o n h = (w.new, tt, tt)
  behind-Spans (tree x f g) o n h =
      let at = has-append t (members f) (members g) in
      let pt = has-append p (members f) (members g) in
      (
        w.rest x (ground arith) ∙ h.0,
        Spans-congr m m' f (λ y i. w.rest y (ground (arith, i, at, pt))) h.1,
        behind-Spans g (ground (arith, at, o)) (ground (arith, pt, n)) h.2,
      )

  pub plant-Spans :
      (f : Forest) → Distinct (members f) → p ∉ members f → Spans m f → Spans m' (plant t p f)
  plant-Spans bare d n h = tt
  plant-Spans (tree x f g) d n h =
      let pt = has-append p (members f) (members g) in
      let at = has-append t (members f) (members g) in
      let later =
        plant-Spans g (Distinct-right (members f) (members g) d.1) (ground (arith, pt, n)) h.2 in
      let Goal = λ (b : Bool).
        (m' x ≡ roots (if b then behind p f else plant t p f))
        × Spans m' (if b then behind p f else plant t p f)
        × Spans m' (plant t p g) in
      elim (Bool-cases (x == t)) [
        | inl e ↦
            let same : x ≡ t = ==-eq x t e in
            let list =
              ap m' same
              ∙ w.owner
              ∙ ap (λ v. m v ++ p ∷ []) (sym same)
              ∙ ap (λ v. v ++ p ∷ []) h.0 in
            subst Goal (sym e) (
              list ∙ sym (behind-roots p f),
              behind-Spans f (ground (arith, at, d.0, same)) (ground (arith, pt, n)) h.1,
              later,
            )
        | inr e ↦ subst Goal (sym e) (
          w.rest x (ground (arith, n)) ∙ h.0 ∙ sym (plant-roots t p f),
          plant-Spans f (Distinct-left (members f) (members g) d.1) (ground (arith, pt, n)) h.1,
          later,
        )
      ]
