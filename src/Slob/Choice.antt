-- ===== src/Slob/Choice.antt =====
-- The block that `slob_page_alloc` of hw3/slob.c takes.
use uth_operating_systems.Base.{
  ℕ, ◌+◌, ◌-◌, ◌<◌, ◌≤◌, ◌≡◌, refl, true, false, ◌⊎◌, inl, inr, arith, none, some, List, [], ◌∷◌,
  ◌++◌, append_assoc, append-nil, Returns, length, ◌==◌, if◌then◌else◌, ℤ, Bool-cases, ==-refl, ap,
  sym, subst, All,
}
use uth_operating_systems.Links.{Ptr, null}
use uth_operating_systems.Slob.{Slob, page_units, slob_units_of, clear_slob_page_free, set_page}
use uth_operating_systems.Slob.FirstFit.{
  delta_of, split_head, unlink, take_block, clear_if_full, take_found, slob_page_alloc,
}
use uth_operating_systems.Slob.Blocks.{Block, Seg, fits, pick, first_fit-pick}
use uth_operating_systems.Slob.Take.{
  piece, last_addr, last_addr-last, last-cases, split_head-Seg, unlink-first, unlink-later,
}

unlink-Seg :
    (m : Ptr → ℤ) (e p : Ptr) (us : List Block) (a n units : ℕ) (vs : List Block)
    → Seg m e p (us ++ (a, n) ∷ vs) e
    → 0 < units
    → units ≤ n
    → page_units < e
    → let (m', q) = unlink m units (last_addr null us) a p in
      Seg m' e q (us ++ (piece (a + units) (n - units) ++ vs)) e
unlink-Seg m e p us a n units vs s some_units enough up =
    let Goal : List Block → Type 0 = λ l.
      Seg m e p (l ++ (a, n) ∷ vs) e
      → let (m', q) = unlink m units (last_addr null l) a p in
        Seg m' e q (l ++ (piece (a + units) (n - units) ++ vs)) e in
    elim (last-cases us) [
      | inl x ↦ subst Goal (sym x) (λ s'. first s') s
      | inr (ws, b, x) ↦ subst Goal (sym x) (later ws b) s
    ]
  where
    first :
        Seg m e p ((a, n) ∷ vs) e
        → let (m', q) = unlink m units null a p in
          Seg m' e q (piece (a + units) (n - units) ++ vs) e
    first s' =
        subst
          (λ x.
            let (m', q) = unlink m units null a x in
            Seg m' e q (piece (a + units) (n - units) ++ vs) e)
          s'.0
          (unlink-first m e a n units vs (subst (λ x. Seg m e x ((a, n) ∷ vs) e) (sym s'.0) s')
            some_units enough)

    later :
        (ws : List Block) (b : Block)
        → Seg m e p ((ws ++ b ∷ []) ++ (a, n) ∷ vs) e
        → let (m', q) = unlink m units (last_addr null (ws ++ b ∷ [])) a p in
          Seg m' e q ((ws ++ b ∷ []) ++ (piece (a + units) (n - units) ++ vs)) e
    later ws b s' =
        let left = piece (a + units) (n - units) ++ vs in
        rw (last_addr-last null ws b) (
          subst (λ l. let (m', q) = unlink m units b.0 a p in Seg m' e q l e)
            (sym (append_assoc ws (b ∷ []) left))
            (unlink-later m e p ws b.0 b.1 a n units vs
              (subst (λ l. Seg m e p l e) (append_assoc ws (b ∷ []) ((a, n) ∷ vs)) s') some_units
              enough up))

-- What `slob_page_alloc` has done if it has found a block.
pub record Taken (e sp units align : ℕ) (bs : List Block) (st : Slob) (r : Ptr × Slob)
    : Type 0 where
  pub before : List Block
  pub block : Block
  pub after : List Block
  pub whole : before ++ block ∷ after ≡ bs
  pub passed : All (λ c. fits units align c ≡ false) before
  pub room : fits units align block ≡ true
  pub address : r.0 ≡ block.0 + delta_of align block.0
  pub rest :
      let delta = delta_of align block.0 in
      Seg r.1.memory e
        (r.1.page sp).freelist
        ((before ++ piece block.0 delta)
          ++ (piece (block.0 + delta + units) (block.1 - delta - units) ++ after))
        e
  pub counted : (r.1.page sp).units ≡ (st.page sp).units - units
  pub listed :
      r.1.page_free sp ≡ (if (st.page sp).units - units == 0 then false else st.page_free sp)

pub last_addr-piece :
    (us : List Block) (a delta : ℕ)
    → last_addr null (us ++ piece a delta) ≡ (if delta == 0 then last_addr null us else a)
last_addr-piece us a delta = elim (Bool-cases (delta == 0)) [
  | inl t ↦ rw (t, append-nil us) refl
  | inr f ↦ rw (f, last_addr-last null us (a, delta)) refl
]

pub pick-cases :
    (units align prev : ℕ) (bs : List Block)
    → ((pick units align prev bs ≡ none) × All (λ c. fits units align c ≡ false) bs)
      ⊎ ((us : List Block) × (b : Block) × (vs : List Block) × (us ++ b ∷ vs ≡ bs)
          × (pick units align prev bs ≡ some (last_addr prev us, b.0))
          × All (λ c. fits units align c ≡ false) us
          × (fits units align b ≡ true))
pick-cases units align prev [] = inl (refl, tt)
pick-cases units align prev (b ∷ bs) = elim (Bool-cases (fits units align b)) [
  | inl t ↦ inr ([], b, bs, refl, rw t refl, tt, t)
  | inr f ↦ elim (pick-cases units align b.0 bs) [
    | inl (e, h) ↦ inl (rw f e, (f, h))
    | inr (us, c, vs, w, e, h, t) ↦ inr (b ∷ us, c, vs, ap (λ l. b ∷ l) w, rw f e, (f, h), t)
  ]
]

pub Seg-assoc :
    (m : Ptr → ℤ) (e p : Ptr) (us vs ws : List Block) (q : Ptr)
    → Seg m e p (us ++ (vs ++ ws)) q
    → Seg m e p ((us ++ vs) ++ ws) q
Seg-assoc m e p us vs ws q s = subst (λ l. Seg m e p l q) (sym (append_assoc us vs ws)) s

clear_if_full-fields :
    (left sp : ℕ) (st : Slob)
    → ((clear_if_full left sp st).memory ≡ st.memory)
      × ((clear_if_full left sp st).page ≡ st.page)
      × ((clear_if_full left sp st).page_free sp ≡ (if left == 0 then false else st.page_free sp))
unfolding clear_if_full clear_slob_page_free
clear_if_full-fields left sp st = elim (Bool-cases (left == 0)) [
  | inl t ↦ rw (t, ==-refl sp) (refl, refl, refl)
  | inr f ↦ rw f (refl, refl, refl)
]

cleared-Seg :
    (left sp e q : ℕ) (st : Slob) (m : Ptr → ℤ) (l : List Block)
    → Seg m e q l e
    → let st' =
        clear_if_full left sp
          (set_page sp (record { units = left; freelist = q }) (record st { memory = m })) in
      Seg st'.memory e (st'.page sp).freelist l e × ((st'.page sp).units ≡ left)
cleared-Seg left sp e q st m l s =
    let (a, b, c) =
      clear_if_full-fields left sp
        (set_page sp (record { units = left; freelist = q }) (record st { memory = m })) in
    rw (a, b, ==-refl sp) (s, refl)

take_block-Taken :
    (e sp units align : ℕ) (us : List Block) (b : Block) (vs : List Block) (st : Slob)
    → Seg st.memory e (st.page sp).freelist (us ++ b ∷ vs) e
    → 0 < units
    → page_units < e
    → All (λ c. fits units align c ≡ false) us
    → fits units align b ≡ true
    → Taken e sp units align
        (us ++ b ∷ vs)
        st
        (take_block sp units align (last_addr null us) b.0 st)
unfolding take_block
take_block-Taken e sp units align us b vs st s some_units up passed room =
    let delta = delta_of align b.0 in
    let p = (st.page sp).freelist in
    let m = split_head st.memory delta b.0 in
    let prev = if delta == 0 then last_addr null us else b.0 in
    let r = unlink m units prev (b.0 + delta) p in
    let left = (st.page sp).units - units in
    let st1 = set_page sp (record { units = left; freelist = r.1 }) (record st { memory = r.0 }) in
    let enough : units + delta ≤ b.1 = ground arith in
    let s1 = split_head-Seg st.memory e p us b.0 b.1 delta vs s (omega arith) in
    let s2 =
      unlink-Seg m e p (us ++ piece b.0 delta) (b.0 + delta) (b.1 - delta) units vs
        (Seg-assoc m e p us (piece b.0 delta) ((b.0 + delta, b.1 - delta) ∷ vs) e s1) some_units
        (omega arith) up in
    let s3 =
      subst
        (λ x.
          let (m', q) = unlink m units x (b.0 + delta) p in
          Seg m' e q
            ((us ++ piece b.0 delta) ++ (piece (b.0 + delta + units) (b.1 - delta - units) ++ vs))
            e)
        (last_addr-piece us b.0 delta) s2 in
    let cleared =
      cleared-Seg left sp e r.1 st r.0
        ((us ++ piece b.0 delta) ++ (piece (b.0 + delta + units) (b.1 - delta - units) ++ vs)) s3 in
    let (same_memory, same_page, free) = clear_if_full-fields left sp st1 in
    record {
      before = us;
      block = b;
      after = vs;
      whole = refl;
      passed = passed;
      room = room;
      address = refl;
      rest = cleared.0;
      counted = cleared.1;
      listed = free;
    }

pub slob_page_alloc-Taken :
    (fuel e sp size align : ℕ) (b : Block) (bs : List Block) (st : Slob)
    → Seg st.memory e (st.page sp).freelist (b ∷ bs) e
    → length bs < fuel
    → 0 < size
    → page_units < e
    → let units = slob_units_of size in
      Returns
        (λ r.
          ((r ≡ (null, st)) × All (λ c. fits units align c ≡ false) (b ∷ bs))
          ⊎ Taken e sp units align (b ∷ bs) st r)
        (slob_page_alloc fuel sp size align st)
unfolding slob_page_alloc take_found
slob_page_alloc-Taken fuel e sp size align b bs st s enough sized up =
    let units = slob_units_of size in
    let p = (st.page sp).freelist in
    let found = first_fit-pick fuel st.memory e units align null p b bs s enough in
    let some_units : 0 < units = omega arith in
    elim (pick-cases units align null (b ∷ bs)) [
      | inl (none_found, h) ↦ ((null, st), rw (found, none_found) refl, inl (refl, h))
      | inr (us, c, vs, w, one_found, h, room) ↦ (
        take_block sp units align (last_addr null us) c.0 st,
        rw (found, one_found) refl,
        inr (
            subst
              (λ l.
                Taken e sp units align l st (take_block sp units align (last_addr null us) c.0 st))
              w
              (take_block-Taken e sp units align us c vs st
                (subst (λ l. Seg st.memory e p l e) (sym w) s) some_units up h room)),
      )
    ]
