-- ===== src/Slob/Grow.antt =====
-- `slob_alloc` of hw3/slob.c with a new page.
use uth_operating_systems.Base.{
  ℕ, ◌+◌, ◌-◌, ◌%◌, ◌<◌, ◌≤◌, ◌≡◌, ◌≢◌, refl, true, false, inl, inr, arith, [], ◌∷◌, Run, ok,
  Returns, ◌==◌, ==-ne, ==-refl, leb, if◌then◌else◌, Bool-cases, ap, ◌∙◌, sym, All,
}
use native.Mathlib.Nat.{div-mul-le_self}
use uth_operating_systems.Links.{Ptr, null}
use uth_operating_systems.Slob.{
  Slob, SlobList, page_units, page_base, slob_units_of, virt_to_page, set_slob_page_free,
}
use uth_operating_systems.Slob.FirstFit.{delta_of, slob_page_alloc}
use uth_operating_systems.Slob.Free.{list_for}
use uth_operating_systems.Slob.Alloc.{
  fresh_page, alloc_fresh, search_pages, slob_new_pages, count_free, slob_alloc, start,
}
use uth_operating_systems.Slob.Encoding.{set_slob-Free}
use uth_operating_systems.Slob.Blocks.{Seg, fits}
use uth_operating_systems.Slob.Choice.{slob_page_alloc-Taken}
use uth_operating_systems.Slob.Pages.{Ready, search_pages-Searched, Taken-given}

-- The alignment skips less than one alignment.
delta_of-less : (align p : ℕ) → delta_of align p ≤ align
delta_of-less align p = elim (Bool-cases (align == 0)) [
  | inl z ↦ rw z (omega arith)
  | inr n ↦ rw n (let low = div-mul-le_self (p + (align - 1)) align in ground (arith, low))
]

pub fresh_page-Seg :
    (l : SlobList) (b : Ptr) (st : Slob)
    → b % page_units ≡ 0
    → let st1 = fresh_page l b st in
      let sp = virt_to_page b in
      Seg st1.memory (b + page_units) (st1.page sp).freelist ((b, page_units) ∷ []) (b + page_units)
unfolding fresh_page set_slob_page_free
fresh_page-Seg l b st z =
    let base : page_base b ≡ b = omega (arith, z) in
    rw (==-refl (virt_to_page b)) (
      refl,
      ap (λ v. v + page_units) base,
      omega arith,
      b + page_units,
      set_slob-Free st.memory b page_units (b + page_units) (omega arith) (omega arith)
          (omega (arith, base)) (omega (arith, base)),
      omega arith,
      refl,
    )

pub alloc_fresh-ok :
    (fuel size align : ℕ) (l : SlobList) (b : Ptr) (st : Slob) (r : Ptr × Slob)
    → slob_page_alloc fuel (virt_to_page b) size align (fresh_page l b st) ≡ ok r
    → r.0 ≢ null
    → alloc_fresh fuel size align l b st ≡ ok r
unfolding alloc_fresh
alloc_fresh-ok fuel size align l b st r run given =
    let there : (r.0 == null) ≡ false = ==-ne r.0 null given in rw (run, there) refl

pub fits-whole :
    (units align b : ℕ) → units + align ≤ page_units → fits units align (b, page_units) ≡ true
fits-whole units align b small =
    let less = delta_of-less align b in whole units (delta_of align b) (omega arith)
  where
    whole : (u d : ℕ) → u + d ≤ page_units → leb (u + d) page_units ≡ true
    whole u d h = ground arith

alloc_fresh-given :
    (fuel size align : ℕ) (l : SlobList) (b : Ptr) (st : Slob)
    → b % page_units ≡ 0
    → 0 < b
    → 0 < size
    → 0 < fuel
    → slob_units_of size + align ≤ page_units
    → Returns (λ r. r.0 ≢ null) (alloc_fresh fuel size align l b st)
alloc_fresh-given fuel size align l b st z up sized f small =
    let e = b + page_units in
    let s = fresh_page-Seg l b st z in
    let st1 = fresh_page l b st in
    let sp = virt_to_page b in
    let (r, run, c) =
      slob_page_alloc-Taken fuel e sp size align (b, page_units) [] st1 s f sized (omega arith) in
    let given : r.0 ≢ null = elim c [
      | inl (x, h) ↦ absurd (ground (arith, h.0, fits-whole (slob_units_of size) align b small))
      | inr t ↦ Taken-given (st1.page sp).freelist t s (omega arith)
    ] in
    (r, alloc_fresh-ok fuel size align l b st r run given, given)

module _ (fuel size align page : ℕ) (st : Slob) where
  abbrev pub begun : Slob
  begun = record st { total_free_mem = 0 }

  pub slob_alloc-found :
      (r : Ptr × Slob)
      → search_pages fuel size align (list_for size) [] (st.pages (list_for size)) start begun
        ≡ ok r
      → r.0 ≢ null
      → slob_alloc fuel size align page st ≡ ok (r.0, count_free r.1)
  unfolding slob_alloc
  slob_alloc-found r run given =
      let there : (r.0 == null) ≡ false = ==-ne r.0 null given in rw (run, there) refl

  pub slob_alloc-grown :
      (r r' : Ptr × Slob)
      → search_pages fuel size align (list_for size) [] (st.pages (list_for size)) start begun
        ≡ ok r
      → r.0 ≡ null
      → page ≢ null
      → alloc_fresh fuel size align (list_for size) page (slob_new_pages page (count_free r.1))
        ≡ ok r'
      → slob_alloc fuel size align page st ≡ ok r'
  unfolding slob_alloc
  slob_alloc-grown r r' run none_found some_page grown =
      let there : (r.0 == null) ≡ true = ground arith in
      let given : (page == null) ≡ false = ==-ne page null some_page in
      let st1 = count_free r.1 in
      let grow : Run (Ptr × Slob) =
        alloc_fresh fuel size align (list_for size) page (slob_new_pages page st1) in
      rw (run, there) (ap (λ b. if b then ok (null, st1) else grow) given ∙ grown)

  -- If the pages of the list for the size are in that state, there is some fuel, the size and the
  -- alignment fit in a page together, and the page allocator gives a page when asked, then
  -- `slob_alloc` returns an address other than `NULL`: in particular it does not come to its `BUG`.
  pub slob_alloc-given :
      All (λ sp. Ready (record st { total_free_mem = 0 }) fuel sp) (st.pages (list_for size))
      → 0 < size
      → 0 < fuel
      → 0 < page
      → page % page_units ≡ 0
      → slob_units_of size + align ≤ page_units
      → Returns (λ r. r.0 ≢ null) (slob_alloc fuel size align page st)
  slob_alloc-given ready sized f up z small =
      let l = list_for size in
      let (r, run, c) = search_pages-Searched fuel size align l [] (st.pages l) begun ready sized in
      elim c [
        | inl (full, e) ↦
            let (r', grown, given) =
              alloc_fresh-given fuel size align l page (slob_new_pages page (count_free r.1)) z up
                sized f small in
            let some_page : page ≢ null = λ x. absurd (omega arith) in
            (r', slob_alloc-grown r r' run (ap (λ v. v.0) e) some_page grown, given)
        | inr w ↦
            let given : r.0 ≢ null = λ x. w.given (sym w.address ∙ x) in
            ((r.0, count_free r.1), slob_alloc-found r run given, given)
      ]
