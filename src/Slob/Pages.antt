-- ===== src/Slob/Pages.antt =====
-- The page that `slob_alloc` of hw3/slob.c allocates from.
use uth_operating_systems.Base.{
  ℕ, ◌<◌, ◌≤◌, ◌≡◌, ◌≢◌, refl, true, false, ◌⊎◌, inl, inr, arith, List, [], ◌∷◌, ◌++◌, ok, Returns,
  length, ◌==◌, ==-ne, ltb, Bool-cases, ap, ◌∙◌, sym, subst, All, All-right, All-map,
}
use uth_operating_systems.Links.{Ptr, null}
use uth_operating_systems.Slob.{Slob, SlobList, page_units, slob_units_of}
use uth_operating_systems.Slob.FirstFit.{slob_page_alloc}
use uth_operating_systems.Slob.Alloc.{
  Fit, no_fit, room, exact_fit, start, scan_page, note_page, search_pages, is_last, set_pages,
  rotate,
}
use uth_operating_systems.Slob.Blocks.{Block, Seg, Seg-append}
use uth_operating_systems.Slob.Choice.{Taken, slob_page_alloc-Taken}
use uth_operating_systems.Slob.Scan.{
  found, any_fits, any_fits-none, any_fits-some, scanned, scan_page-scanned, scanned-none,
  scanned-found,
}

-- A page with free blocks, as the allocator keeps it: no block has more units than the page counts.
pub record Ready (st : Slob) (fuel sp : ℕ) : Type 0 where
  pub page_end : Ptr
  pub first : Block
  pub others : List Block
  pub list : Seg st.memory page_end (st.page sp).freelist (first ∷ others) page_end
  pub short : length others < fuel
  pub high : page_units < page_end
  pub within : All (λ c. c.1 ≤ (st.page sp).units) (first ∷ others)
  pub few : (st.page sp).units ≤ page_units

-- `slob_page_alloc` finds no room on the page.
abbrev pub Full : (fuel size align : ℕ) → Slob → Ptr → Type 0
Full fuel size align st sp = slob_page_alloc fuel sp size align st ≡ ok (null, st)

-- The page `sp` gives the allocation, and those before it have no room.
pub record FromPage (fuel size align : ℕ) (pages : List Ptr) (st : Slob) (r : Ptr × Slob)
    : Type 0 where
  pub passed : List Ptr
  pub sp : Ptr
  pub rest : List Ptr
  pub whole : passed ++ sp ∷ rest ≡ pages
  pub full : All (λ p. Full fuel size align st p) passed
  pub taken : Ptr × Slob
  pub run : slob_page_alloc fuel sp size align st ≡ ok taken
  pub given : taken.0 ≢ null
  pub address : r.0 ≡ taken.0
  pub memory : r.1.memory ≡ taken.1.memory
  pub page : r.1.page ≡ taken.1.page
  pub page_free : r.1.page_free ≡ taken.1.page_free
  pub page_slab : r.1.page_slab ≡ taken.1.page_slab

-- What is taken lies in the page, so its address is not 0.
pub Taken-given :
    {e sp units align : ℕ} {bs : List Block} {st : Slob} {r : Ptr × Slob} (p : Ptr)
    → Taken e sp units align bs st r
    → Seg st.memory e p bs e
    → page_units < e
    → r.0 ≢ null
Taken-given {e} {st = st} p t s high =
    let (k, s0, s1) =
      Seg-append st.memory e p t.before (t.block ∷ t.after) e
        (subst (λ l. Seg st.memory e p l e) (sym t.whole) s) in
    λ z. absurd (omega (arith, t.address, s1.1, high))

module _ (fuel size align : ℕ) (st : Slob) (sp : Ptr) (y : Ready st fuel sp)
    (sized : 0 < size) where
  -- Either the page is full and the loop finds nothing, or it finds a block and gives an allocation.
  page-cases :
      let units = slob_units_of size in
      let p = (st.page sp).freelist in
      (Full fuel size align st sp
        × (scan_page fuel st.memory units align p 10000000 no_fit ≡ ok (10000000, no_fit)))
      ⊎ ((d : ℕ) × (f : Fit) × (scan_page fuel st.memory units align p 10000000 no_fit ≡ ok (d, f))
          × (found f ≡ true)
          × (ltb (st.page sp).units units ≡ false)
          × (t : Ptr × Slob) × (slob_page_alloc fuel sp size align st ≡ ok t)
          × (t.0 ≢ null))
  page-cases =
      let units = slob_units_of size in
      let bs = y.first ∷ y.others in
      let scan =
        scan_page-scanned fuel st.memory y.page_end units align (st.page sp).freelist 10000000
          no_fit y.first y.others y.list y.short in
      let (r, run, c) =
        slob_page_alloc-Taken fuel y.page_end sp size align y.first y.others st y.list y.short sized
          y.high in
      elim c [
        | inl (same, h) ↦ inl (
          run ∙ ap ok same,
          scan
              ∙ ap ok
                  (scanned-none units align 10000000 no_fit bs (any_fits-none units align bs h)),
        )
        | inr t ↦
            let w = scanned units align 10000000 no_fit bs in
            let blocks = t.before ++ t.block ∷ t.after in
            let within : All (λ c. c.1 ≤ (st.page sp).units) blocks =
              subst (λ l. All (λ c. c.1 ≤ (st.page sp).units) l) (sym t.whole) y.within in
            let its =
              (All-right (λ c. c.1 ≤ (st.page sp).units) t.before (t.block ∷ t.after) within).0 in
            let small =
              All-map (λ c. c.1 ≤ (st.page sp).units) (λ c. c.1 ≤ page_units) bs
                (λ c h. omega (arith, y.few)) y.within in
            let any = any_fits-some units align t.before t.block t.after t.room in
            let enough : ltb (st.page sp).units units ≡ false = ground (arith, t.room, its) in
            inr (
              w.0,
              w.1,
              scan,
              scanned-found units align 10000000 no_fit bs small (omega arith)
                  (subst (λ l. any_fits units align l ≡ true) t.whole any),
              enough,
              r,
              run,
              Taken-given (st.page sp).freelist t y.list y.high,
            )
      ]

found-cases : (f : Fit) → found f ≡ true → (f ≡ room) ⊎ (f ≡ exact_fit)
found-cases no_fit h = absurd (ground arith)
found-cases room h = inl refl
found-cases exact_fit h = inr refl

-- What the search of a list comes to.
abbrev pub Searched : (fuel size align : ℕ) → List Ptr → Slob → Ptr × Slob → Type 0
Searched fuel size align pages st r =
    (All (λ sp. Full fuel size align st sp) pages × (r ≡ (null, st)))
    ⊎ FromPage fuel size align pages st r

Searched-pass :
    (fuel size align : ℕ) (sp : Ptr) (rest : List Ptr) (st : Slob) (r : Ptr × Slob)
    → Full fuel size align st sp
    → Searched fuel size align rest st r
    → Searched fuel size align (sp ∷ rest) st r
Searched-pass fuel size align sp rest st r full c = elim c [
  | inl (h, e) ↦ inl ((full, h), e)
  | inr w ↦ inr (record {
    passed = sp ∷ w.passed;
    sp = w.sp;
    rest = w.rest;
    whole = ap (λ l. sp ∷ l) w.whole;
    full = (full, w.full);
    taken = w.taken;
    run = w.run;
    given = w.given;
    address = w.address;
    memory = w.memory;
    page = w.page;
    page_free = w.page_free;
    page_slab = w.page_slab;
  })
]

-- If every page of a list has a free list of that page with fewer blocks than the fuel and one, no
-- block larger than the page's count of free units and that count within a page, then the search of
-- `slob_alloc` over the list returns, and comes to what a search for the first page with room comes
-- to: either `slob_page_alloc` answers `NULL` on each page and the search answers `NULL` and
-- changes nothing, or the answer and the memory are those of `slob_page_alloc` on the first page
-- where it does not answer `NULL`.
pub search_pages-Searched :
    (fuel size align : ℕ) (l : SlobList) (before rest : List Ptr) (st : Slob)
    → All (λ sp. Ready st fuel sp) rest
    → 0 < size
    → Returns
        (λ r. Searched fuel size align rest st r)
        (search_pages fuel size align l before rest start st)
unfolding search_pages note_page
search_pages-Searched fuel size align l before [] st h sized = ((null, st), refl, inl (tt, refl))
search_pages-Searched fuel size align l before (sp ∷ rest) st (y, h) sized =
    let big : ltb 10000000 (st.page sp).units ≡ false = ground (arith, y.few) in
    elim (page-cases fuel size align st sp y sized) [
      | inl (full, scan) ↦
          let (r, run, c) =
            search_pages-Searched fuel size align l (before ++ sp ∷ []) rest st h sized in
          let passed = Searched-pass fuel size align sp rest st r full c in
          elim (Bool-cases (ltb (st.page sp).units (slob_units_of size))) [
            | inl x ↦ rw (scan, x) (r, run, passed)
            | inr x ↦ rw (scan, x, big) (r, run, passed)
          ]
      | inr (d, f, scan, some_found, enough, t, run, given) ↦
          let here : (r : Ptr × Slob)
              → r.0 ≡ t.0
              → r.1.memory ≡ t.1.memory
              → r.1.page ≡ t.1.page
              → r.1.page_free ≡ t.1.page_free
              → r.1.page_slab ≡ t.1.page_slab
              → Searched fuel size align (sp ∷ rest) st r =
            λ r a m p f s. inr (record {
              passed = [];
              sp = sp;
              rest = rest;
              whole = refl;
              full = tt;
              taken = t;
              run = run;
              given = given;
              address = a;
              memory = m;
              page = p;
              page_free = f;
              page_slab = s;
            }) in
          elim (found-cases f some_found) [
            | inr e ↦ rw (scan, enough, big, e) (t, run, here t refl refl refl refl refl)
            | inl e ↦
                let there : (t.0 == null) ≡ false = ==-ne t.0 null given in
                elim (Bool-cases (is_last sp (t.1.pages l))) [
                  | inl x ↦
                      let eq : search_pages fuel size align l before (sp ∷ rest) start st ≡ ok t =
                        rw (scan, enough, big, e, run, x) refl in
                      (t, eq, here t refl refl refl refl refl)
                  | inr x ↦
                      let turned : Ptr × Slob =
                        (t.0, set_pages l (rotate before (t.1.pages l)) t.1) in
                      let eq : search_pages fuel size align l before (sp ∷ rest) start st
                          ≡ ok turned =
                        rw (scan, enough, big, e, run, x, there) refl in
                      (turned, eq, here turned refl refl refl refl refl)
                ]
          ]
    ]
