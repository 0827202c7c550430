-- ===== src/Slob/Alloc.antt =====
-- `slob_alloc` and `calc_free_mem` of hw3/slob.c, without CONFIG_NUMA. The contents of allocated
-- blocks, which `__GFP_ZERO` clears, are not tracked.
use uth_operating_systems.Base.{
  update, ℕ, zero, suc, ◌+◌, ◌-◌, ◌*◌, ◌%◌, ◌^◌, Bool, true, false, not, ◌&&◌, ◌||◌, Option, none,
  some, List, [], ◌∷◌, ◌++◌, Run, ok, bug, out_of_fuel, ◌>>=◌, ◌==◌, ltb, leb, if◌then◌else◌,
  length, is_nil, last_of, ℤ,
}
use uth_operating_systems.Links.{Ptr, null}
use uth_operating_systems.Slob.{
  Slob, SlobList, free_slob_small, free_slob_medium, free_slob_large, Page, page_units,
  virt_to_page, set_slob, slob_units, slob_next, slob_last, slob_units_of, set_slob_page_free,
  set_page, same_list,
}
use uth_operating_systems.Slob.FirstFit.{delta_of, slob_page_alloc}
use uth_operating_systems.Slob.Free.{list_for}

-- `fits_exact`: -1, 0 or 1.
pub data Fit : Type 0 where
  no_fit room exact_fit : Fit

-- The loop over the blocks of a page: `diff` and `fits_exact`, which go on from page to page.
unfoldable pub scan_page : ℕ → (Ptr → ℤ) → (units align cur diff : ℕ) → Fit → Run (ℕ × Fit)
unfolding slob_units slob_next slob_last
scan_page zero m units align cur diff fits = out_of_fuel
scan_page (suc fuel) m units align cur diff fits =
    let avail = slob_units m cur in
    let delta = delta_of align cur in
    let diff' = avail - units + delta in
    let better = leb (units + delta) avail && ltb diff' diff in
    let d = if better then diff' else diff in
    let f = if better then room else fits in
    let rest = scan_page fuel m units align (slob_next m cur) d f in
    if better && diff' == 0 then ok (0, exact_fit) else if slob_last m cur then ok (d, f) else rest

-- The variables of the loop over the pages; `best_before` are the pages in front of `best_sp`, and
-- `best_fit` is `none` for -1.
pub record Search : Type 0 where
  pub diff : ℕ
  pub fits_exact : Fit
  pub best_fit : Option ℕ
  pub best_page_size : ℕ
  pub best_before : List Ptr

abbrev pub is_exact : Fit → Bool
is_exact exact_fit = true
is_exact _ = false

abbrev pub is_room : Fit → Bool
is_room room = true
is_room _ = false

abbrev pub better_than : ℕ → Option ℕ → Bool
better_than d none = true
better_than d (some b) = ltb d b

abbrev pub is_some : Option ℕ → Bool
is_some none = false
is_some (some b) = true

-- The end of the list behind its first `n` pages.
abbrev pub drop : ℕ → List Ptr → List Ptr
drop zero xs = xs
drop (suc n) [] = []
drop (suc n) (x ∷ xs) = drop n xs

-- `list_move_tail(slob_list, prev->next)`, with its guards: the list begins behind the pages `before`.
unfoldable pub rotate : List Ptr → List Ptr → List Ptr
rotate before pages =
    let rest = drop (length before) pages in
    if is_nil before || is_nil rest then pages else rest ++ before

abbrev pub set_pages : SlobList → List Ptr → Slob → Slob
set_pages l xs st = record st { pages = λ k. if same_list k l then xs else st.pages k }

abbrev pub is_last : Ptr → List Ptr → Bool
is_last sp [] = false
is_last sp (x ∷ xs) = last_of x xs == sp

-- What the loop keeps of a page on which a block fits, but not exactly.
unfoldable pub note_page : (before : List Ptr) → Page → Search → Search
note_page before p v =
    let best = is_room v.fits_exact && better_than v.diff v.best_fit in
    record v {
      best_before = if best then before else v.best_before;
      best_page_size = if best then p.units else v.best_page_size;
      best_fit = if best then some v.diff else v.best_fit;
    }

-- The loop over the pages of a list: `before` have been passed.
unfoldable pub search_pages :
    ℕ → (size align : ℕ) → SlobList → (before rest : List Ptr) → Search → Slob → Run (Ptr × Slob)
unfolding scan_page slob_page_alloc rotate note_page
search_pages fuel size align l before [] v st = ok (null, st)
search_pages fuel size align l before (sp ∷ rest) v st =
    let p = st.page sp in
    let next = search_pages fuel size align l (before ++ sp ∷ []) rest in
    scan_page fuel st.memory (slob_units_of size) align p.freelist v.diff v.fits_exact
    >>= λ scanned.
        let v1 = record v { diff = scanned.0; fits_exact = scanned.1 } in
        let v2 = note_page before p v1 in
        if ltb p.units (slob_units_of size) || ltb v.best_page_size p.units
        then next v1 st
        else if is_exact v1.fits_exact
        then slob_page_alloc fuel sp size align st
        else if not (is_some v2.best_fit)
        then next v2 st
        else (slob_page_alloc fuel sp size align st >>= λ taken.
            if is_last sp (taken.1.pages l)
            then ok taken
            else if taken.0 == null
            then next v2 taken.1
            else ok (taken.0, set_pages l (rotate v2.best_before (taken.1.pages l)) taken.1))

-- `calc_free_mem`: bytes, on an unsigned long.
unfoldable pub calc_free_mem : Slob → List Ptr → ℕ
calc_free_mem st [] = 0
calc_free_mem st (sp ∷ sps) = ((st.page sp).units * 2 + calc_free_mem st sps) % 2 ^ 64

-- `slob_new_pages` for a page that the page allocator has given, and 0 if it has given none; the
-- counter goes up by the size of a pointer.
unfoldable pub slob_new_pages : (page : Ptr) → Slob → Slob
slob_new_pages page st = record st {
  total_alloc_mem = if page == null then st.total_alloc_mem else (st.total_alloc_mem + 8) % 2 ^ 64;
}

-- The new page as one free block.
unfoldable pub fresh_page : SlobList → (b : Ptr) → Slob → Slob
unfolding set_slob set_slob_page_free
fresh_page l b st =
    let sp = virt_to_page b in
    set_slob_page_free sp l (
      set_page sp (record { units = page_units; freelist = b })
        (record st {
          memory = set_slob b page_units (b + page_units) st.memory;
          page_slab = update st.page_slab sp true;
        }))

-- An allocation from a new page, whose failure is a `BUG`.
unfoldable pub alloc_fresh : ℕ → (size align : ℕ) → SlobList → (b : Ptr) → Slob → Run (Ptr × Slob)
unfolding fresh_page slob_page_alloc
alloc_fresh fuel size align l b st = do
  taken ← slob_page_alloc fuel (virt_to_page b) size align (fresh_page l b st)
  if taken.0 == null then bug else ok taken

-- The variables of `slob_alloc` at its start: BESTPAGESIZE and DIFF.
abbrev pub start : Search
start = record {
  diff = 10000000;
  fits_exact = no_fit;
  best_fit = none;
  best_page_size = 10000000;
  best_before = [];
}

-- The sum over the three lists that `slob_alloc` stores.
unfoldable pub count_free : Slob → Slob
unfolding calc_free_mem
count_free st =
    let free : SlobList → ℕ = λ l. calc_free_mem st (st.pages l) in
    record st {
      total_free_mem =
          (free free_slob_small + free free_slob_medium + free free_slob_large) % 2 ^ 64;
    }

-- `slob_alloc`; `page` is what the page allocator gives if it is asked.
unfoldable pub slob_alloc : ℕ → (size align : ℕ) → (page : Ptr) → Slob → Run (Ptr × Slob)
unfolding search_pages count_free slob_new_pages alloc_fresh
slob_alloc fuel size align page st =
    let l = list_for size in
    search_pages fuel size align l [] (st.pages l) start (record st { total_free_mem = 0 })
    >>= λ found.
        let st1 = count_free found.1 in
        if not (found.0 == null)
        then ok (found.0, st1)
        else if page == null
        then ok (null, st1)
        else alloc_fresh fuel size align l page (slob_new_pages page st1)
