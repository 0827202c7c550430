-- ===== src/Slob/Frame.antt =====
-- What holds of a page of hw3/slob.c is kept by what is done to the others.
use uth_operating_systems.Base.{
  ◌+◌, ◌<◌, ◌≤◌, ◌≡◌, ◌≢◌, refl, sym, ap, ◌∙◌, subst, false, inl, inr, arith, List, [], ◌∷◌, ◌==◌,
  ltb, ℤ, Bool-cases,
}
use uth_operating_systems.Links.{Ptr}
use uth_operating_systems.Slob.{Slob, Page, page_units, page_base, set_slob}
use uth_operating_systems.Slob.Encoding.{set_slob-other}
use uth_operating_systems.Slob.Blocks.{Block, Seg}
use uth_operating_systems.Slob.Invariant.{end_of, IsPage}

-- The memories differ in the page that ends at `e` only.
abbrev pub Same : (e : Ptr) → (Ptr → ℤ) → (Ptr → ℤ) → Type 0
Same e m m' = (a : Ptr) → page_base a + page_units ≢ e → m' a ≡ m a

pub Same-trans : (e : Ptr) (m m' m'' : Ptr → ℤ) → Same e m m' → Same e m' m'' → Same e m m''
Same-trans e m m' m'' h k a o = k a o ∙ h a o

pub set_slob-Same :
    (m : Ptr → ℤ) (e b k r : Ptr)
    → 0 < k
    → page_base b + page_units ≡ e
    → b + k ≤ e
    → Same e m (set_slob b k r m)
set_slob-Same m e b k r least base inside a o =
    set_slob-other m b k r a least (omega (arith, base, inside)) (elim (Bool-cases (ltb a b)) [
      | inl h ↦ inl (ground arith)
      | inr h ↦ elim (Bool-cases (ltb a (b + k))) [
        | inl h' ↦ absurd (o (ground (arith, base)))
        | inr h' ↦ inr (ground arith)
      ]
    ])

-- No page but `sp` has changed.
pub record OtherPages (sp : Ptr) (st st' : Slob) : Type 0 where
  pub memory : Same (end_of sp) st.memory st'.memory
  pub page : (k : Ptr) → (k == sp) ≡ false → st'.page k ≡ st.page k
  pub page_free : (k : Ptr) → (k == sp) ≡ false → st'.page_free k ≡ st.page_free k
  pub page_slab : (k : Ptr) → (k == sp) ≡ false → st'.page_slab k ≡ st.page_slab k

pub OtherPages-refl : (sp : Ptr) (st : Slob) → OtherPages sp st st
OtherPages-refl sp st = record {
  memory = λ a o. refl;
  page = λ k o. refl;
  page_free = λ k o. refl;
  page_slab = λ k o. refl;
}

Seg-congr :
    (m m' : Ptr → ℤ) (e p : Ptr) (bs : List Block) (q : Ptr)
    → ((a : Ptr) → page_base a + page_units ≡ e → m' a ≡ m a)
    → Seg m e p bs q
    → q ≤ e
    → Seg m' e p bs q
Seg-congr m m' e p [] q h s u = s
Seg-congr m m' e p (b ∷ bs) q h (i, w, n, r, f, z, t) u = (
  i,
  w,
  n,
  r,
  record {
    low = f.low;
    high = f.high;
    cells = elim f.cells [
      | inl (one, c) ↦ inl (one, h b.0 w ∙ c)
      | inr (many, c, d) ↦
          inr (many, h b.0 w ∙ c, h (b.0 + 1) (omega (arith, w, z, f.high, many)) ∙ d)
    ];
  },
  z,
  Seg-congr m m' e r bs q h t u,
)

-- The state of another page stays.
pub OtherPages-IsPage :
    (sp k : Ptr) (st st' : Slob) (bs : List Block)
    → OtherPages sp st st'
    → (k == sp) ≡ false
    → IsPage st k bs
    → IsPage st' k bs
OtherPages-IsPage sp k st st' bs o apart y = record {
  list = λ n.
      subst (λ (v : Page). Seg st'.memory (end_of k) v.freelist bs (end_of k))
        (sym (o.page k apart))
        (Seg-congr st.memory st'.memory (end_of k) (st.page k).freelist bs (end_of k)
          (λ a h. o.memory a (λ h'. absurd (ground (arith, h, h', apart)))) (y.list n)
          (omega arith));
  counted = ap (λ v. v.units) (o.page k apart) ∙ y.counted;
  flagged = o.page_free k apart ∙ y.flagged;
}
